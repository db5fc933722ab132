-- ===== src/Registry/Collect.antt =====
-- The step of AgentCacheReconcile of controlplane/cache.go for one agent.
use opvic.Prelude.{
  ◌≡◌, ◌≢◌, ◌↔◌, refl, sym, ap, ◌∙◌, List, [], ◌∷◌, Option, none, some, ok, String, In, All, All2,
  Option-cases, inl, inr,
}
use opvic.External.{GoCache, IsCache}
use opvic.Api.{SubjectVersion}
use opvic.Cache.{
  Value, subject_versions, strings, State, set_agent_cache, set_agent_subject_version_list_cache,
}
use opvic.Cache.Keys.{Key, IsClean, IsAgentId, IsSlashFree}
use opvic.Cache.Typed.{
  IsWellTyped, read, write, write-IsWellTyped, read-write_self, read-write_ne, get_versions_list-ok,
  get_subject_version_cache-ok,
}
use opvic.Cache.Shapes.{strings_or, subject_version_of}
use opvic.Registry.{collect_versions, reconcile_agent}

-- The versions that are found, and their identifiers.
abbrev add_if_found :
    String
    → List SubjectVersion × List String
    → Option SubjectVersion
    → List SubjectVersion × List String
add_if_found v later none = later
add_if_found v later (some x) = (x ∷ later.0, v ∷ later.1)

abbrev pub collected :
    (String → Option SubjectVersion) → List String → List SubjectVersion × List String
collected f [] = ([], [])
collected f (v ∷ vs) = add_if_found v (collected f vs) (f v)

pub collected-All2 :
    (f : String → Option SubjectVersion) (vs : List String)
    → All2 (λ v x. f v ≡ some x) (collected f vs).1 (collected f vs).0
collected-All2 f [] = tt
collected-All2 f (v ∷ vs) = elim (Option-cases (f v)) [
  | inl e ↦ rw (collected, e) (collected-All2 f vs)
  | inr (x, e) ↦ rw (collected, e) (e, collected-All2 f vs)
]

pub collected-In :
    (f : String → Option SubjectVersion) (vs : List String) (v : String)
    → In v (collected f vs).1 ↔ (In v vs × ((x : SubjectVersion) × (f v ≡ some x)))
collected-In f [] v = (λ m. absurd m, λ h. absurd h.0)
collected-In f (w ∷ vs) v =
    let ih = collected-In f vs v in
    elim (Option-cases (f w)) [
      | inl e ↦
          rw (collected, e)
            (
              λ m. (inr (ih.0 m).0, (ih.0 m).1),
              λ h. elim h.0 [ inl k ↦ absurd (cc (h.1.1, ap f k, e)) | inr m ↦ ih.1 (m, h.1) ],
            )
      | inr (x, e) ↦
          rw (collected, e)
            (
              λ m. elim m [
                | inl k ↦ (inl k, (x, ap f k ∙ e))
                | inr j ↦ (inr (ih.0 j).0, (ih.0 j).1)
              ],
              λ h. elim h.0 [ inl k ↦ inl k | inr m ↦ inr (ih.1 (m, h.1)) ],
            )
    ]

pub collected-All :
    (P : String → Type 0) (f : String → Option SubjectVersion) (vs : List String)
    → All P vs
    → All P (collected f vs).1
collected-All P f [] h = tt
collected-All P f (v ∷ vs) (p, h) = elim (Option-cases (f v)) [
  | inl e ↦ rw (collected, e) (collected-All P f vs h)
  | inr (x, e) ↦ rw (collected, e) (p, collected-All P f vs h)
]

module _ (C : GoCache Value) where
  abbrev pub listed : State C → String → List String
  listed s a = strings_or (read C s (Key.versions_of a))

  abbrev pub stored : State C → String → String → Option SubjectVersion
  stored s a v = subject_version_of (read C s (Key.subject a v))

  -- The state after the step for the agent `a`.
  abbrev pub reconciled : String → State C → State C
  reconciled a s =
      let out = collected (stored s a) (listed s a) in
      write C (write C s (Key.agent a) (subject_versions out.0)) (Key.versions_of a) (strings out.1)

  collect_versions-ok :
      (a : String) (l : List String) (s : State C)
      → IsWellTyped C s
      → IsAgentId a
      → All IsSlashFree l
      → collect_versions C a l s ≡ (ok (collected (stored s a) l), s)
  unfolding collect_versions
  collect_versions-ok a [] s h i n = refl
  collect_versions-ok a (v ∷ l) s h i (p, n) =
      rw (get_subject_version_cache-ok C s h a v i p, collect_versions-ok a l s h i n)
        (elim (Option-cases (stored s a v)) [
          | inl e ↦ rw (collected, e) refl
          | inr (x, e) ↦ rw (collected, e) refl
        ])

  pub reconcile_agent-ok :
      (a : String) (s : State C)
      → IsWellTyped C s
      → IsAgentId a
      → All IsSlashFree (listed s a)
      → reconcile_agent C a s ≡ (ok tt, reconciled a s)
  unfolding reconcile_agent set_agent_cache set_agent_subject_version_list_cache
  reconcile_agent-ok a s h i n =
      rw (get_versions_list-ok C s h a i, collect_versions-ok a (listed s a) s h i n) refl

  module _ (c : IsCache C) (a : String) (s : State C) (i : IsAgentId a) where
    abbrev middle : State C
    middle = write C s (Key.agent a) (subject_versions (collected (stored s a) (listed s a)).0)

    pub reconciled-IsWellTyped : IsWellTyped C s → IsWellTyped C (reconciled a s)
    reconciled-IsWellTyped h =
        write-IsWellTyped C c middle (Key.versions_of a) _ i tt
          (write-IsWellTyped C c s (Key.agent a) _ i tt h)

    pub read-reconciled :
        (k : Key)
        → IsClean k
        → k ≢ Key.agent a
        → k ≢ Key.versions_of a
        → read C (reconciled a s) k ≡ read C s k
    read-reconciled k kc n m =
        read-write_ne C c middle (Key.versions_of a) k _ i kc (λ e. m (sym e))
        ∙ read-write_ne C c s (Key.agent a) k _ i kc (λ e. n (sym e))

    pub listed-reconciled : listed (reconciled a s) a ≡ (collected (stored s a) (listed s a)).1
    listed-reconciled = ap strings_or (read-write_self C c middle (Key.versions_of a) _)

    pub view-reconciled :
        read C (reconciled a s) (Key.agent a)
        ≡ some (subject_versions (collected (stored s a) (listed s a)).0)
    view-reconciled =
        read-write_ne C c middle (Key.versions_of a) (Key.agent a) _ i i (λ e. cc)
        ∙ read-write_self C c s (Key.agent a) _
