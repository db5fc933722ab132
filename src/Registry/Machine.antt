-- ===== src/Registry/Machine.antt =====
-- The registry of agents as a state machine: reports of agents, the two reconcilers, and time.
use opvic.Prelude.{
  All-of_In, All-In, eq_iff, ◌==◌, ℕ, ◌+◌, ◌≡◌, ◌⊎◌, sym, ap, ◌∙◌, List, [], ◌∷◌, String, none, ok,
  All, All-append, Option-cases, Bool-cases, inl, inr, arith,
}
use mathlib.Core.Path.{subst}
use opvic.External.{GoCache, IsCache}
use opvic.Utils.{contains}
use opvic.Registry.Reports.{add_id, reported, agents_post-ok, agents_post-IsWellTyped}
use opvic.Api.{Agent, AgentPayload, list_ids}
use opvic.Utils.Sets.{IsDistinct, sort_strings-All}
use opvic.Cache.{Value, State}
use opvic.Cache.Keys.{Key, IsAgentId, IsSlashFree, render}
use opvic.Cache.Typed.{IsWellTyped, read}
use opvic.Cache.Shapes.{agents_or}
use opvic.Registry.{update_agents, agents_post, agent_list_cache_reconcile, agent_cache_reconcile}
use opvic.Registry.Stored.{read_agents, read_versions, read_rest}
use opvic.Registry.Live.{agent_list_cache_reconcile-live}
use opvic.Registry.Collect.{listed}
use opvic.Registry.Views.{IsListedClean}
use opvic.Registry.Rounds.{agent_cache_reconcile-IsReconciled}
use opvic.Registry.Fleet.{
  update_agents-All, live-All, ids, update_agents-IsDistinct, live-IsDistinct,
}

add_id-All :
    (v : String) (l : List String)
    → IsSlashFree v
    → All IsSlashFree l
    → All IsSlashFree (add_id v l)
add_id-All v l n h = elim (Bool-cases (contains l v)) [
  | inl old ↦ rw old h
  | inr new ↦ rw new (All-append IsSlashFree l (v ∷ []) h (n, tt))
]

module _ (C : GoCache Value) where
  abbrev pub registered_agents : State C → List Agent
  registered_agents s = agents_or (read C s Key.agent_list)

  -- What every reachable state satisfies.
  pub record IsSound (s : State C) : Type 0 where
    pub well_typed : IsWellTyped C s
    pub distinct : IsDistinct (ids (registered_agents s))
    pub clean_agents : All IsAgentId (ids (registered_agents s))
    pub clean_versions : IsListedClean C s

  -- A report with clean identifiers, a reconciler, or the passing of time.
  pub data Step (expiration : ℕ) (s t : State C) : Type 0 where
    report :
        (p : AgentPayload)
        → IsAgentId p.agent_id
        → IsSlashFree p.version.id
        → agents_post C p s ≡ (ok tt, t)
        → Step expiration s t
    sweep : agent_list_cache_reconcile C expiration s ≡ (ok tt, t) → Step expiration s t
    show : agent_cache_reconcile C s ≡ (ok tt, t) → Step expiration s t
    wait : (n : ℕ) → t ≡ record s { now = s.now + n } → Step expiration s t

  pub data Reach (expiration : ℕ) (s : State C) : State C → Type 0 where
    here : Reach expiration s s
    later : {t u : State C} → Reach expiration s t → Step expiration t u → Reach expiration s u

  pub clean_ids : (s : State C) → IsSound s → All IsAgentId (list_ids (registered_agents s))
  unfolding list_ids
  clean_ids s h = sort_strings-All IsAgentId (ids (registered_agents s)) h.clean_agents

  module _ (c : IsCache C) where
    -- Later a key holds what it held, or nothing.
    pub read_later :
        (s : State C) (n : ℕ) (k : Key)
        → (read C (record s { now = s.now + n }) k ≡ read C s k)
          ⊎ (read C (record s { now = s.now + n }) k ≡ none)
    read_later s n k = elim (Option-cases (C.get s.cache (s.now + n) (render k))) [
      | inl e ↦ inr e
      | inr (v, e) ↦
          inl (e ∙ sym (c.get_later s.cache s.now (s.now + n) (render k) v (omega arith) e))
    ]

    pub wait-IsSound : (s : State C) (n : ℕ) → IsSound s → IsSound (record s { now = s.now + n })
    wait-IsSound s n h = record {
      well_typed = record { typed = λ k kc u le v e. h.well_typed.typed k kc u (omega arith) v e };
      distinct = elim (read_later s n Key.agent_list) [ inl e ↦ rw e h.distinct | inr e ↦ rw e tt ];
      clean_agents = elim (read_later s n Key.agent_list) [
        | inl e ↦ rw e h.clean_agents
        | inr e ↦ rw e tt
      ];
      clean_versions = λ a i. elim (read_later s n (Key.versions_of a)) [
        | inl e ↦ rw e (h.clean_versions a i)
        | inr e ↦ rw e tt
      ];
    }

    pub report-IsSound :
        (p : AgentPayload) (i : IsAgentId p.agent_id) (n : IsSlashFree p.version.id) (s : State C)
        → IsSound s
        → IsSound (reported C c p s)
    report-IsSound p i n s h =
        let w = h.well_typed in
        let l = registered_agents s in
        let e : registered_agents (reported C c p s)
            ≡ update_agents p.agent_id p.agent_tags s.now l =
          ap agents_or (read_agents C c p i n s w) in
        record {
          well_typed = agents_post-IsWellTyped C c p i n s w;
          distinct = rw e (update_agents-IsDistinct p.agent_id p.agent_tags s.now l h.distinct);
          clean_agents =
              rw e (update_agents-All p.agent_id p.agent_tags s.now IsAgentId l i h.clean_agents);
          clean_versions = λ a j. elim (Bool-cases (p.agent_id == a)) [
            | inl t ↦ rw (sym ((eq_iff p.agent_id a).0 t)) (
                rw (read_versions C c p i n s w) (
                  add_id-All p.version.id (listed C s p.agent_id) n
                    (h.clean_versions p.agent_id i)))
            | inr f ↦
                rw
                  (read_rest C c p i n s w (Key.versions_of a) j (λ q. cc)
                    (λ q. (let r : p.agent_id ≡ a = cc q in cc (f, (eq_iff p.agent_id a).1 r)))
                    (λ q. cc))
                  (h.clean_versions a j)
          ];
        }

    pub sweep-IsSound :
        (expiration : ℕ) (s t : State C)
        → IsSound s
        → agent_list_cache_reconcile C expiration s ≡ (ok tt, t)
        → IsSound t
    sweep-IsSound expiration s t h done =
        let (u, e, w, l, _, rest) = agent_list_cache_reconcile-live C c expiration s h.well_typed in
        let sound : IsSound u = record {
          well_typed = w;
          distinct = rw l (live-IsDistinct expiration s.now (registered_agents s) h.distinct);
          clean_agents =
              rw l (live-All expiration s.now IsAgentId (registered_agents s) h.clean_agents);
          clean_versions = λ a i. rw (rest (Key.versions_of a) i (λ q. cc)) (h.clean_versions a i);
        } in
        subst (λ x. IsSound x) (ap (λ p. p.1) (sym e ∙ done)) sound

    pub show-IsSound :
        (s t : State C) → IsSound s → agent_cache_reconcile C s ≡ (ok tt, t) → IsSound t
    show-IsSound s t h done =
        let (u, e, r) =
          agent_cache_reconcile-IsReconciled C c s h.well_typed (clean_ids s h) h.clean_versions in
        let same : registered_agents u ≡ registered_agents s = ap agents_or r.registered in
        let sound : IsSound u = record {
          well_typed = r.well_typed;
          distinct = rw same h.distinct;
          clean_agents = rw same h.clean_agents;
          clean_versions = λ a i. elim (Bool-cases (contains (list_ids (registered_agents s)) a)) [
            | inr other ↦ rw (r.others_listed a i other) (h.clean_versions a i)
            | inl known ↦ All-of_In IsSlashFree (listed C u a) (λ v m.
                All-In IsSlashFree (listed C s a) (h.clean_versions a i) v
                  (((r.agents a i known).versions v).0 m).0)
          ];
        } in
        subst (λ x. IsSound x) (ap (λ p. p.1) (sym e ∙ done)) sound

    pub Step-IsSound :
        {expiration : ℕ} {s t : State C} → IsSound s → Step expiration s t → IsSound t
    Step-IsSound {expiration} {s} {t} h (report p i n done) =
        subst (λ x. IsSound x)
          (ap (λ p. p.1) (sym (agents_post-ok C c p i n s h.well_typed) ∙ done))
          (report-IsSound p i n s h)
    Step-IsSound {expiration} {s} {t} h (sweep done) = sweep-IsSound expiration s t h done
    Step-IsSound {expiration} {s} {t} h (show done) = show-IsSound s t h done
    Step-IsSound {expiration} {s} {t} h (wait n e) = rw e (wait-IsSound s n h)

    -- What a sound state promises: a report with clean identifiers and both reconcilers return.
    abbrev pub Returns : ℕ → State C → Type 0
    Returns expiration t =
        ((p : AgentPayload)
          → IsAgentId p.agent_id
          → IsSlashFree p.version.id
          → (u : State C) × (agents_post C p t ≡ (ok tt, u)))
        × ((u : State C) × (agent_list_cache_reconcile C expiration t ≡ (ok tt, u)))
        × ((u : State C) × (agent_cache_reconcile C t ≡ (ok tt, u)))

    IsSound-Returns : (expiration : ℕ) (t : State C) → IsSound t → Returns expiration t
    IsSound-Returns expiration t h = (
      λ p i n. (_, agents_post-ok C c p i n t h.well_typed),
      (let (u, e, _, _, _, _) = agent_list_cache_reconcile-live C c expiration t h.well_typed in
          (u, e)),
      (let (u, e, _) =
            agent_cache_reconcile-IsReconciled C c t h.well_typed (clean_ids t h)
              h.clean_versions in
          (u, e)),
    )

    reach-IsSound : {expiration : ℕ} {s t : State C} → IsSound s → Reach expiration s t → IsSound t
    reach-IsSound h here = h
    reach-IsSound h (later r st) = Step-IsSound (reach-IsSound h r) st

    -- Every state that is reached from a sound one is sound, and no operation of the registry panics
    -- in it: a report with clean identifiers and both reconcilers return.
    pub Reach-IsSound :
        {expiration : ℕ} {s t : State C}
        → IsSound s
        → Reach expiration s t
        → IsSound t × Returns expiration t
    Reach-IsSound {expiration} {s} {t} h r =
        (reach-IsSound h r, IsSound-Returns expiration t (reach-IsSound h r))
