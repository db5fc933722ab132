-- ===== src/Infos/Reported.antt =====
-- A report of an agent, and the first two reconcilers of controlplane/cache.go after it.
use native.Mathlib.Nat.{le_refl}
use opvic.Registry.Timeline.{reported-now}
use opvic.Utils.Members.{In_of_contains, contains_of_In, In-sort_strings}
use mathlib.Core.Path.{subst}
use mathlib.Core.Option
use opvic.Prelude.{
  ℕ, ◌≡◌, ◌<◌, refl, sym, ap, ◌∙◌, List, [], ◌∷◌, map, String, some, ok, In, All-In, inl, inr,
  arith, All2-In, All2-In_back, In-append_right, Bool-cases, In-map,
}
use opvic.External.{GoVersion, GoCache, IsCache}
use opvic.Utils.{contains}
use opvic.Api.{Agent, AgentPayload, SubjectVersion, list_ids}
use opvic.Cache.{Value, State}
use opvic.Cache.Keys.{Key, IsAgentId, IsSlashFree}
use opvic.Cache.Typed.{read}
use opvic.Cache.Shapes.{subject_version_of, strings_or}
use opvic.Registry.{agent_list_cache_reconcile, agent_cache_reconcile}
use opvic.Registry.Collect.{listed, stored}
use opvic.Registry.Live.{agent_list_cache_reconcile-live}
use opvic.Registry.Machine.{clean_ids, registered_agents}
use opvic.Registry.Reports.{reported, update_agents-In, add_id}
use opvic.Registry.Rounds.{agent_cache_reconcile-IsReconciled}
use opvic.Registry.Stored.{read_agents, read_subject, read_versions}
use opvic.Infos.Tended.{IsTended, IsCleanVersion}
use opvic.Infos.Tending.{purged, purged-IsTended, reported-IsTended, sweep-IsTended, show-IsTended}
use opvic.Infos.Answers.{view, IsIn}

In-add_id : (v : String) (l : List String) → In v (add_id v l)
In-add_id v l = elim (Bool-cases (contains l v)) [
  | inl t ↦ rw t (In_of_contains l v t)
  | inr f ↦ rw f (In-append_right v l (v ∷ []) (inl refl))
]

module _ (G : GoVersion) (C : GoCache Value) (c : IsCache C) (p : AgentPayload)
    (i : IsAgentId p.agent_id) (n : IsCleanVersion G p.version) where
  -- The reported version is stored, listed and registered as live.
  pub record IsReported (s : State C) : Type 0 where
    tended : IsTended G C s
    kept : stored C s p.agent_id p.version.id ≡ some p.version
    list : In p.version.id (listed C s p.agent_id)
    live :
        (g : Agent) × In g (registered_agents C s)
        × (g.id ≡ p.agent_id)
        × (g.last_heartbeat ≡ s.now)

  pub reported-IsReported : (s : State C) → IsTended G C s → IsReported (reported C c p s)
  reported-IsReported s h =
      let w = h.sound.well_typed in
      record {
        tended = reported-IsTended G C c p s i n h;
        kept = ap subject_version_of (read_subject C c p i n.0 s w);
        list = rw (read_versions C c p i n.0 s w) (In-add_id p.version.id _);
        live =
            let (g, m, e, _, e') =
              (update_agents-In p.agent_id p.agent_tags s.now (registered_agents C s)).0 in
            (g, rw (read_agents C c p i n.0 s w) m, e, e' ∙ sym (reported-now C c p s));
      }

  -- Live agents stay, and after AgentCacheReconcile the version is collected, and no other version
  -- under its identifier.
  pub record IsShownFor (s : State C) : Type 0 where
    pub tended : IsTended G C s
    pub registered : In p.agent_id (list_ids (registered_agents C s))
    pub member : IsIn G C p.version (view G C s p.agent_id)
    pub only :
        (ver : SubjectVersion)
        → IsIn G C ver (view G C s p.agent_id)
        → ver.id ≡ p.version.id
        → ver ≡ p.version

  registered-In :
      (l : List Agent) (g : Agent) → In g l → g.id ≡ p.agent_id → In p.agent_id (list_ids l)
  unfolding list_ids
  registered-In l g m e =
      In-sort_strings (map (λ g. g.id) l) p.agent_id
        (subst (λ a. In a (map (λ (g : Agent). g.id) l)) e (In-map (λ g. g.id) l g m))

  show-IsShownFor :
      (s : State C)
      → IsTended G C s
      → stored C s p.agent_id p.version.id ≡ some p.version
      → In p.version.id (listed C s p.agent_id)
      → In p.agent_id (list_ids (registered_agents C s))
      → (t : State C) × (agent_cache_reconcile C s ≡ (ok tt, t)) × IsShownFor t
  show-IsShownFor s h kept list known =
      let (t, e, r) =
        agent_cache_reconcile-IsReconciled C c s h.sound.well_typed (clean_ids C s h.sound)
          h.sound.clean_versions in
      let (t', e', h') = show-IsTended G C c s h in
      let tended : IsTended G C t = subst (IsTended G C) (ap (λ x. x.1) (sym e' ∙ e)) h' in
      let here = r.agents p.agent_id i (contains_of_In _ p.agent_id known) in
      let (xs, found, m) = here.view in
      let held : stored C t p.agent_id p.version.id ≡ some p.version =
        r.subjects p.agent_id p.version.id i n.0 ∙ kept in
      (
        t,
        e,
        record {
          tended = tended;
          registered = rw r.registered known;
          member = rw found (
              let (x, k, q) =
                All2-In _ (listed C t p.agent_id) xs p.version.id m
                  ((here.versions p.version.id).1 (list, (p.version, kept))) in
              subst (λ y. In y xs) (Option.some-injective _ _ (sym q ∙ held)) k);
          only = λ ver k same.
              (let (v, l, q) = All2-In_back _ (listed C t p.agent_id) xs ver m (rw found at k) in
                let clean = All-In IsSlashFree _ (tended.sound.clean_versions p.agent_id i) v l in
                let id = (tended.same_id p.agent_id v i clean ver q).0 in
                Option.some-injective _ _
                  (sym q ∙ (ap (λ w. stored C t p.agent_id w) (sym id ∙ same) ∙ held)));
        },
      )

  pub sweep-shown :
      (expiration : ℕ) (s : State C)
      → 0 < expiration
      → IsReported s
      → (t u : State C) × (agent_list_cache_reconcile C expiration (purged G C c s) ≡ (ok tt, u))
        × (agent_cache_reconcile C u ≡ (ok tt, t))
        × IsShownFor t
  sweep-shown expiration s pos h =
      let s1 = purged G C c s in
      let same : (k : Key) → read C s1 k ≡ read C s k =
        λ k. c.get-delete_expired s.cache s.now s.now _ (le_refl s.now) in
      let h1 = purged-IsTended G C c s h.tended in
      let (u, e, w, l, live, rest) =
        agent_list_cache_reconcile-live C c expiration s1 h1.sound.well_typed in
      let (u', e', h') = sweep-IsTended G C c expiration s1 h1 in
      let tended : IsTended G C u = subst (IsTended G C) (ap (λ x. x.1) (sym e' ∙ e)) h' in
      let (g, m, id, beat) = h.live in
      let (t, f, shown) =
        show-IsShownFor u tended
          (ap subject_version_of (
              rest (Key.subject p.agent_id p.version.id) (i, n.0) (λ q. cc)
              ∙ same (Key.subject p.agent_id p.version.id))
            ∙ h.kept)
          (subst (λ l. In p.version.id (strings_or l))
            (sym
              (rest (Key.versions_of p.agent_id) i (λ q. cc) ∙ same (Key.versions_of p.agent_id)))
            h.list)
          (registered-In (registered_agents C u) g
            ((live g).1 (rw (same Key.agent_list) m, omega (arith, beat, pos))) id) in
      (t, u, e, f, shown)
