-- ===== src/Registry/Views.antt =====
-- AgentCacheReconcile of controlplane/cache.go: what the control plane shows of each agent after it.
use opvic.Prelude.{
  ◌≡◌, ◌≢◌, ◌↔◌, sym, ap, List, some, String, ◌==◌, eq_iff, In, All, All2, Bool-cases, inl, inr,
  true, false,
}
use opvic.External.{GoCache, IsCache}
use opvic.Utils.{contains}
use opvic.Api.{SubjectVersion}
use opvic.Cache.{Value, subject_versions, State}
use opvic.Cache.Keys.{Key, IsAgentId, IsSlashFree}
use opvic.Cache.Typed.{IsWellTyped, read}
use opvic.Cache.Shapes.{subject_version_of, strings_or}
use opvic.Registry.Collect.{
  collected-In, collected-All, listed, stored, reconciled, read-reconciled, listed-reconciled,
}

module _ (C : GoCache Value) where
  -- The agent `a` before and after: the versions that stay listed are those that are stored, and
  -- the agent's view has the stored version of each of them, in the order of the list.
  pub record IsView (s t : State C) (a : String) : Type 0 where
    pub versions :
        (v : String)
        → In v (listed C t a)
          ↔ (In v (listed C s a) × ((x : SubjectVersion) × (stored C s a v ≡ some x)))
    pub view :
        (xs : List SubjectVersion) × (read C t (Key.agent a) ≡ some (subject_versions xs))
        × All2 (λ v x. stored C t a v ≡ some x) (listed C t a) xs

  -- The versions that agents list have identifiers without slashes.
  abbrev pub IsListedClean : State C → Type 0
  IsListedClean s = (a : String) → IsAgentId a → All IsSlashFree (listed C s a)

  -- What the steps for the agents `ids` do.
  pub record IsReconciled (ids : List String) (s t : State C) : Type 0 where
    pub well_typed : IsWellTyped C t
    pub clock : t.now ≡ s.now
    pub registered : read C t Key.agent_list ≡ read C s Key.agent_list
    pub subjects : (a v : String) → IsAgentId a → IsSlashFree v → stored C t a v ≡ stored C s a v
    pub infos :
        (a v : String)
        → IsAgentId a
        → IsSlashFree v
        → read C t (Key.info a v) ≡ read C s (Key.info a v)
    pub others_listed :
        (a : String) → IsAgentId a → contains ids a ≡ false → listed C t a ≡ listed C s a
    pub others_view :
        (a : String)
        → IsAgentId a
        → contains ids a ≡ false
        → read C t (Key.agent a) ≡ read C s (Key.agent a)
    pub agents : (a : String) → IsAgentId a → contains ids a ≡ true → IsView s t a

  module _ (c : IsCache C) (b : String) (s : State C) (i : IsAgentId b) where
    abbrev pub one : State C
    one = reconciled C b s

    pub stored-one :
        (a v : String) → IsAgentId a → IsSlashFree v → stored C one a v ≡ stored C s a v
    stored-one a v j n =
        ap subject_version_of
          (read-reconciled C c b s i (Key.subject a v) (j, n) (λ e. cc) (λ e. cc))

    pub infos-one :
        (a v : String)
        → IsAgentId a
        → IsSlashFree v
        → read C one (Key.info a v) ≡ read C s (Key.info a v)
    infos-one a v j n = read-reconciled C c b s i (Key.info a v) (j, n) (λ e. cc) (λ e. cc)

    pub registered-one : read C one Key.agent_list ≡ read C s Key.agent_list
    registered-one = read-reconciled C c b s i Key.agent_list tt (λ e. cc) (λ e. cc)

    pub listed-one_ne : (a : String) → IsAgentId a → b ≢ a → listed C one a ≡ listed C s a
    listed-one_ne a j n =
        ap strings_or (read-reconciled C c b s i (Key.versions_of a) j (λ e. cc) (λ e. n (cc e)))

    pub view-one_ne :
        (a : String) → IsAgentId a → b ≢ a → read C one (Key.agent a) ≡ read C s (Key.agent a)
    view-one_ne a j n = read-reconciled C c b s i (Key.agent a) j (λ e. n (cc e)) (λ e. cc)

    -- Before and after one step an agent has the same stored versions listed.
    pub versions-one :
        (a : String)
        → IsAgentId a
        → (v : String)
        → (In v (listed C one a) × ((x : SubjectVersion) × (stored C s a v ≡ some x)))
          ↔ (In v (listed C s a) × ((x : SubjectVersion) × (stored C s a v ≡ some x)))
    versions-one a j v = elim (Bool-cases (b == a)) [
      | inr n ↦ rw (listed-one_ne a j (λ e. cc (n, (eq_iff b a).1 e))) (λ h. h, λ h. h)
      | inl e ↦ rw (sym ((eq_iff b a).0 e)) (
          rw (listed-reconciled C c b s i) (
            (λ h. (((collected-In (stored C s b) (listed C s b) v).0 h.0).0, h.1)),
            (λ h. ((collected-In (stored C s b) (listed C s b) v).1 h, h.1)),
          ))
    ]

    pub listed-one_clean : IsListedClean s → IsListedClean one
    listed-one_clean n a j = elim (Bool-cases (b == a)) [
      | inr ne ↦ rw (listed-one_ne a j (λ e. cc (ne, (eq_iff b a).1 e))) (n a j)
      | inl e ↦ rw (sym ((eq_iff b a).0 e)) (
          rw (listed-reconciled C c b s i)
            (collected-All IsSlashFree (stored C s b) (listed C s b) (n b i)))
    ]
