-- ===== src/Infos/Filed.antt =====
-- The infos that controlplane/cache.go stores, under the agent and the version that they are of.
use opvic.Prelude.{
  ne_of_test, ◌≡◌, ◌≢◌, ◌⊎◌, refl, sym, ap, ◌∙◌, String, ◌==◌, eq_iff, some, map, ok, Bool-cases,
  inl, inr,
}
use mathlib.Core.Option
use opvic.External.{GoCache, IsCache}
use opvic.Utils.Sets.{IsDistinct}
use opvic.Api.{VersionInfos, AgentPayload}
use opvic.Cache.{Value, version_infos, State, set_subject_version_info_cache}
use opvic.Cache.Keys.{Key, IsClean, IsAgentId, IsSlashFree}
use opvic.Cache.Typed.{IsWellTyped, read, write, write-IsWellTyped, read-write_self, read-write_ne}
use opvic.Cache.Shapes.{agents_or, strings_or, version_infos_of}
use opvic.Registry.Machine.{IsSound}
use opvic.Registry.Reports.{reported}
use opvic.Registry.Stored.{read_rest}
use opvic.Infos.Overview.{cached}

-- The infos that the cache has under an agent and a version are theirs, and have each running
-- version once.
pub record IsFiled (C : GoCache Value) (s : State C) : Type 0 where
  pub filed :
      (a v : String) (i : VersionInfos)
      → IsAgentId a
      → IsSlashFree v
      → cached C s a v ≡ some i
      → (i.id ≡ v) × (i.agent_id ≡ a) × IsDistinct (map (λ e. e.running_version) i.versions)

module _ (C : GoCache Value) (c : IsCache C) (s : State C) (a v : String) (x : VersionInfos)
    (i : IsAgentId a) (n : IsSlashFree v) where
  abbrev pub filed_state : State C
  filed_state = write C s (Key.info a v) (version_infos x)

  pub other : (k : Key) → IsClean k → Key.info a v ≢ k → read C filed_state k ≡ read C s k
  other k kc ne = read-write_ne C c s (Key.info a v) k (version_infos x) (i, n) kc ne

  pub filed_state-IsSound : IsSound C s → IsSound C filed_state
  filed_state-IsSound h =
      let same = ap agents_or (other Key.agent_list tt (λ e. cc)) in
      record {
        well_typed =
            write-IsWellTyped C c s (Key.info a v) (version_infos x) (i, n) tt h.well_typed;
        distinct = rw same h.distinct;
        clean_agents = rw same h.clean_agents;
        clean_versions = λ b j.
            rw (ap strings_or (other (Key.versions_of b) j (λ e. cc))) (h.clean_versions b j);
      }

  -- What is cached under an agent and a version afterwards.
  pub cached_after :
      (b w : String)
      → IsAgentId b
      → IsSlashFree w
      → (b ≡ a) × (w ≡ v) × (cached C filed_state b w ≡ some x)
        ⊎ (cached C filed_state b w ≡ cached C s b w)
  cached_after b w j m = elim (Bool-cases (a == b)) [
    | inr ne ↦
        inr (ap version_infos_of (other (Key.info b w) (j, m) (λ e. ne_of_test a b ne (cc e))))
    | inl e ↦ elim (Bool-cases (v == w)) [
      | inr ne ↦
          inr (ap version_infos_of (other (Key.info b w) (j, m) (λ e. ne_of_test v w ne (cc e))))
      | inl e' ↦
          let q = (eq_iff a b).0 e in
          let q' = (eq_iff v w).0 e' in
          inl (
            sym q,
            sym q',
            rw (← q, ← q')
                (ap version_infos_of (read-write_self C c s (Key.info a v) (version_infos x))),
          )
    ]
  ]

  pub filed_state-IsFiled :
      x.id ≡ v
      → x.agent_id ≡ a
      → IsDistinct (map (λ e. e.running_version) x.versions)
      → IsFiled C s
      → IsFiled C filed_state
  filed_state-IsFiled e1 e2 d f = record {
    filed = λ b w y j m found. elim (cached_after b w j m) [
      | inr e ↦ f.filed b w y j m (sym e ∙ found)
      | inl (q, q', e) ↦
          let same : x ≡ y = Option.some-injective _ _ (sym e ∙ found) in
          rw (← same) (e1 ∙ sym q', e2 ∙ sym q, d)
    ];
  }

  -- Infos that are stored under their agent and version keep a sound state sound, and the infos of
  -- its cache filed under the right identifiers.
  set_info-IsFiled :
      x.id ≡ v
      → x.agent_id ≡ a
      → IsDistinct (map (λ e. e.running_version) x.versions)
      → IsSound C s
      → IsFiled C s
      → (t : State C) × (set_subject_version_info_cache C a v x s ≡ (ok tt, t))
        × IsSound C t
        × IsFiled C t
  unfolding set_subject_version_info_cache
  set_info-IsFiled e1 e2 d h f = (_, refl, filed_state-IsSound h, filed_state-IsFiled e1 e2 d f)

-- A report changes no infos.
pub reported-IsFiled :
    (C : GoCache Value) (c : IsCache C) (p : AgentPayload) (s : State C)
    → IsAgentId p.agent_id
    → IsSlashFree p.version.id
    → IsWellTyped C s
    → IsFiled C s
    → IsFiled C (reported C c p s)
reported-IsFiled C c p s i n w f = record {
  filed = λ a v x j m found. f.filed a v x j m (
      sym (
        ap version_infos_of
          (read_rest C c p i n s w (Key.info a v) (j, m) (λ e. cc) (λ e. cc) (λ e. cc)))
      ∙ found);
}
