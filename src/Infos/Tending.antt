-- ===== src/Infos/Tending.antt =====
-- What keeps a state of the cache of controlplane/cache.go tended: a report, both reconcilers of the
-- agents, the deletion of expired items, and time.
use opvic.Registry.Stored.{read_rest, read_subject}
use opvic.Registry.Rounds.{agent_cache_reconcile-IsReconciled}
use opvic.Registry.Reports.{reported}
use opvic.Registry.Live.{agent_list_cache_reconcile-live}
use opvic.Registry.{agent_list_cache_reconcile, agent_cache_reconcile}
use opvic.Utils.{contains}
use opvic.Infos.Shown.{IsShownOnce}
use opvic.Registry.Collect.{stored, listed}
use opvic.Prelude.{
  ℕ, ◌≡◌, sym, ap, some, ok, ◌∙◌, ◌==◌, Bool-cases, eq_iff, ne_of_test, inl, inr, ◌+◌,
}
use mathlib.Core.Path.{subst}
use mathlib.Core.Option
use native.Mathlib.Nat.{le_refl}
use opvic.External.{GoVersion, GoCache, IsCache}
use opvic.Api.{list_ids, AgentPayload}
use opvic.Cache.{Value, State}
use opvic.Cache.Keys.{Key, IsAgentId}
use opvic.Cache.Shapes.{subject_version_of, version_infos_of}
use opvic.Cache.Typed.{read}
use opvic.Registry.Machine.{
  clean_ids, registered_agents, report-IsSound, sweep-IsSound, show-IsSound, wait-IsSound,
  read_later,
}
use opvic.Infos.Filed.{other, reported-IsFiled}
use opvic.Infos.Tended.{IsTended, IsCleanVersion, IsTended-same, IsTended-transfer, found-AreClean}

module _ (G : GoVersion) (C : GoCache Value) (c : IsCache C) where
  pub reported-IsTended :
      (p : AgentPayload) (s : State C)
      → IsAgentId p.agent_id
      → IsCleanVersion G p.version
      → IsTended G C s
      → IsTended G C (reported C c p s)
  reported-IsTended p s i (n, once) h =
      let rest = read_rest C c p i n s h.sound.well_typed in
      record {
        sound = report-IsSound C c p i n s h.sound;
        filed = reported-IsFiled C c p s i n h.sound.well_typed h.filed;
        same_id = λ a v j m x e. elim (Bool-cases (p.agent_id == a)) [
          | inr ne ↦ h.same_id a v j m x (
              ap subject_version_of (
                sym (
                  rest (Key.subject a v) (j, m) (λ q. cc) (λ q. cc)
                    (λ q. ne_of_test p.agent_id a ne (cc q))))
              ∙ e)
          | inl same ↦ elim (Bool-cases (p.version.id == v)) [
            | inr ne ↦ h.same_id a v j m x (
                ap subject_version_of (
                  sym (
                    rest (Key.subject a v) (j, m) (λ q. cc) (λ q. cc)
                      (λ q. ne_of_test p.version.id v ne (cc q))))
                ∙ e)
            | inl same' ↦
                let qa = (eq_iff p.agent_id a).0 same in
                let qv = (eq_iff p.version.id v).0 same' in
                let here : some p.version ≡ some x =
                  ap subject_version_of (sym (read_subject C c p i n s h.sound.well_typed))
                  ∙ (ap (λ b. stored C (reported C c p s) b p.version.id) qa
                      ∙ (ap (λ w. stored C (reported C c p s) a w) qv ∙ e)) in
                let here' = Option.some-injective _ _ here in
                (ap (λ y. y.id) (sym here') ∙ qv, subst (IsShownOnce G) here' once)
          ]
        ];
        collected =
            λ a j. rw (rest (Key.agent a) j (λ e. cc) (λ e. cc) (λ e. cc)) (h.collected a j);
      }

  pub sweep-IsTended :
      (expiration : ℕ) (s : State C)
      → IsTended G C s
      → (t : State C) × (agent_list_cache_reconcile C expiration s ≡ (ok tt, t)) × IsTended G C t
  sweep-IsTended expiration s h =
      let (t, e, _, _, _, rest) =
        agent_list_cache_reconcile-live C c expiration s h.sound.well_typed in
      (
        t,
        e,
        IsTended-same G C s t (sweep-IsSound C c expiration s t h.sound e)
            (λ j jc _ ne. rest j jc ne) h,
      )

  pub show-IsTended :
      (s : State C)
      → IsTended G C s
      → (t : State C) × (agent_cache_reconcile C s ≡ (ok tt, t)) × IsTended G C t
  show-IsTended s h =
      let (t, e, r) =
        agent_cache_reconcile-IsReconciled C c s h.sound.well_typed (clean_ids C s h.sound)
          h.sound.clean_versions in
      let sound = show-IsSound C c s t h.sound e in
      (
        t,
        e,
        IsTended-transfer G C s t sound
            (λ a v x i n q. ap version_infos_of (sym (r.infos a v i n)) ∙ q)
            (λ a v x i n q. sym (r.subjects a v i n) ∙ q)
            (λ a i k. elim (Bool-cases (contains (list_ids (registered_agents C s)) a)) [
              | inr other ↦ rw (r.others_view a i other) k
              | inl known ↦
                  let (xs, found, m) = (r.agents a i known).view in
                  rw found (
                    found-AreClean G (stored C t a) (listed C t a) xs
                      (λ v n x q. h.same_id a v i n x (sym (r.subjects a v i n) ∙ q))
                      (sound.clean_versions a i) m)
            ])
            h,
      )

  abbrev pub purged : State C → State C
  purged s = record s { cache = C.delete_expired s.cache s.now }

  pub purged-IsTended : (s : State C) → IsTended G C s → IsTended G C (purged s)
  purged-IsTended s h =
      let same : (k : Key) → read C (purged s) k ≡ read C s k =
        λ k. c.get-delete_expired s.cache s.now s.now _ (le_refl s.now) in
      IsTended-same G C s (purged s)
        (record {
          well_typed = record {
            typed = λ k kc u le v e.
                h.sound.well_typed.typed k kc u le v
                  (sym (c.get-delete_expired s.cache s.now u _ le) ∙ e);
          };
          distinct = rw (same Key.agent_list) h.sound.distinct;
          clean_agents = rw (same Key.agent_list) h.sound.clean_agents;
          clean_versions = λ a i. rw (same (Key.versions_of a)) (h.sound.clean_versions a i);
        })
        (λ j _ _ _. same j) h

  -- Later there is what there was, or nothing.
  pub wait-IsTended :
      (s : State C) (n : ℕ) → IsTended G C s → IsTended G C (record s { now = s.now + n })
  wait-IsTended s n h =
      IsTended-transfer G C s _ (wait-IsSound C c s n h.sound)
        (λ a v x i m e. elim (read_later C c s n (Key.info a v)) [
          | inl q ↦ ap version_infos_of (sym q) ∙ e
          | inr q ↦ cc (e, ap version_infos_of q)
        ])
        (λ a v x i m e. elim (read_later C c s n (Key.subject a v)) [
          | inl q ↦ ap subject_version_of (sym q) ∙ e
          | inr q ↦ cc (e, ap subject_version_of q)
        ])
        (λ a i k. elim (read_later C c s n (Key.agent a)) [ inl q ↦ rw q k | inr q ↦ rw q tt ]) h
