-- ===== src/Registry/Reports.antt =====
-- What AgentsPost of controlplane/handlers.go leaves in the cache, and what the GET handlers answer.
use mathlib.Core.List.{map-append}
use opvic.Prelude.{
  ℕ, ◌≡◌, ◌≢◌, refl, sym, ap, ◌∙◌, List, [], ◌∷◌, ok, if◌then◌else◌, true, Bool-cases, inl, inr, In,
  arith, String, ◌==◌, eq_iff, ◌++◌, map, In-append_left, In-append_right,
}
use opvic.External.{GoCache, IsCache}
use opvic.Utils.{contains}
use opvic.Api.{Agent, AgentPayload}
use opvic.Cache.{
  Value, agents, strings, subject_version, State, set_agent_list_cache,
  set_agent_subject_version_list_cache, set_subject_version_cache,
}
use opvic.Cache.Keys.{Key, IsAgentId, IsSlashFree}
use opvic.Cache.Typed.{
  IsWellTyped, read, write, write-IsWellTyped, get_agent_list_cache-ok, get_versions_list-ok,
}
use opvic.Cache.Shapes.{agents_or, strings_or}
use opvic.Registry.{
  update_agents, update_agent_list_cache, update_agent_subject_versions_list, agents_post,
  has_agent, touch,
}

-- The list of versions of an agent after a report.
abbrev pub add_id : String → List String → List String
add_id v l = if contains l v then l else l ++ v ∷ []

module _ (C : GoCache Value) (c : IsCache C) where
  update_agent_list_cache-ok :
      (a : String) (tags : List (String × String)) (s : State C)
      → IsWellTyped C s
      → update_agent_list_cache C a tags s ≡ (
        ok tt,
        write C s Key.agent_list
            (agents (update_agents a tags s.now (agents_or (read C s Key.agent_list)))),
      )
  unfolding update_agent_list_cache set_agent_list_cache
  update_agent_list_cache-ok a tags s h = rw (get_agent_list_cache-ok C s h) refl

  -- The state after the second step: unchanged if the version was listed.
  abbrev pub listed : String → String → State C → State C
  listed a v s =
      let l = strings_or (read C s (Key.versions_of a)) in
      if contains l v then s else write C s (Key.versions_of a) (strings (l ++ v ∷ []))

  update_versions_list-ok :
      (a v : String) (s : State C)
      → IsWellTyped C s
      → IsAgentId a
      → update_agent_subject_versions_list C a v s ≡ (ok tt, listed a v s)
  unfolding update_agent_subject_versions_list set_agent_subject_version_list_cache
  update_versions_list-ok a v s h i =
      let l = strings_or (read C s (Key.versions_of a)) in
      rw (get_versions_list-ok C s h a i)
        (elim (Bool-cases (contains l v)) [ inl old ↦ rw old refl | inr new ↦ rw new refl ])

  -- The three steps of a report.
  abbrev pub registered : AgentPayload → State C → State C
  registered ap s =
      write C s Key.agent_list (
        agents
          (update_agents ap.agent_id ap.agent_tags s.now (agents_or (read C s Key.agent_list))))

  abbrev pub reported : AgentPayload → State C → State C
  reported ap s =
      write C (listed ap.agent_id ap.version.id (registered ap s))
        (Key.subject ap.agent_id ap.version.id) (subject_version ap.version)

  listed-IsWellTyped :
      (a v : String) (s : State C) → IsAgentId a → IsWellTyped C s → IsWellTyped C (listed a v s)
  listed-IsWellTyped a v s i h =
      let l = strings_or (read C s (Key.versions_of a)) in
      elim (Bool-cases (contains l v)) [
        | inl old ↦ rw old h
        | inr new ↦
            rw new (write-IsWellTyped C c s (Key.versions_of a) (strings (l ++ v ∷ [])) i tt h)
      ]

  module _ (ap : AgentPayload) (i : IsAgentId ap.agent_id) (n : IsSlashFree ap.version.id) where
    pub agents_post-ok :
        (s : State C) → IsWellTyped C s → agents_post C ap s ≡ (ok tt, reported ap s)
    unfolding agents_post set_subject_version_cache
    agents_post-ok s h =
        let h' = write-IsWellTyped C c s Key.agent_list _ tt tt h in
        rw
          (
            update_agent_list_cache-ok ap.agent_id ap.agent_tags s h,
            update_versions_list-ok ap.agent_id ap.version.id (registered ap s) h' i,
          )
          refl

    pub agents_post-IsWellTyped : (s : State C) → IsWellTyped C s → IsWellTyped C (reported ap s)
    agents_post-IsWellTyped s h =
        write-IsWellTyped C c _ (Key.subject ap.agent_id ap.version.id) _ (i, n) tt
          (listed-IsWellTyped ap.agent_id ap.version.id (registered ap s) i
            (write-IsWellTyped C c s Key.agent_list _ tt tt h))

module _ (a : String) (tags : List (String × String)) (now : ℕ) where
  touched-In :
      (l : List Agent)
      → has_agent l a ≡ true
      → (g : Agent) × In g (map (touch a tags now) l)
        × (g.id ≡ a)
        × (g.tags ≡ tags)
        × (g.last_heartbeat ≡ now)
  unfolding has_agent
  touched-In [] e = absurd (cc e)
  touched-In (x ∷ l) e = elim (Bool-cases (x.id == a)) [
    | inl t ↦
        rw t
          (record x { tags = tags; last_heartbeat = now }, inl refl, (eq_iff _ _).0 t, refl, refl)
    | inr f ↦ (let (g, i, p, q, r) = touched-In l (ground arith) in (g, inr i, p, q, r))
  ]

  other-In : (l : List Agent) (g : Agent) → g.id ≢ a → In g l → In g (map (touch a tags now) l)
  other-In [] g n i = absurd i
  other-In (x ∷ l) g n (inl e) = inl (rw e (ground (arith, n, e, eq_iff x.id a)))
  other-In (x ∷ l) g n (inr i) = inr (other-In l g n i)

  pub ids-touched :
      (l : List Agent) → map (λ g. g.id) (map (touch a tags now) l) ≡ map (λ g. g.id) l
  ids-touched [] = refl
  ids-touched (x ∷ l) = ground (arith, ids-touched l)

pub has_agent-eq-contains :
    (l : List Agent) (a : String) → has_agent l a ≡ contains (map (λ g. g.id) l) a
unfolding has_agent contains
has_agent-eq-contains [] a = refl
has_agent-eq-contains (x ∷ l) a = rw (has_agent-eq-contains l a) refl

-- The agent of a report is listed with its tags and the time, the others stay as they are, and an
-- identifier is added only if it is new.
pub update_agents-In :
    (a : String) (tags : List (String × String)) (now : ℕ) (l : List Agent)
    → ((g : Agent) × In g (update_agents a tags now l)
        × (g.id ≡ a)
        × (g.tags ≡ tags)
        × (g.last_heartbeat ≡ now))
      × ((g : Agent) → g.id ≢ a → In g l → In g (update_agents a tags now l))
      × (map (λ g. g.id) (update_agents a tags now l) ≡ add_id a (map (λ g. g.id) l))
unfolding update_agents
update_agents-In a tags now l =
    let ids = ids-touched a tags now l in
    let old = map (touch a tags now) l in
    let new : Agent = record { id = a; tags = tags; last_heartbeat = now } in
    elim (Bool-cases (has_agent l a)) [
      | inl t ↦ rw t (
        touched-In a tags now l t,
        other-In a tags now l,
        rw (sym (has_agent-eq-contains l a) ∙ t) ids,
      )
      | inr f ↦ rw f (
        (new, In-append_right new old (new ∷ []) (inl refl), refl, refl, refl),
        (λ g n i. In-append_left g old (new ∷ []) (other-In a tags now l g n i)),
        rw (sym (has_agent-eq-contains l a) ∙ f)
            (map-append (λ g. g.id) old (new ∷ []) ∙ ap (λ t. t ++ a ∷ []) ids),
      )
    ]
