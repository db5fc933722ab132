-- ===== src/Registry/Bounds.antt =====
-- How long the list of agents of controlplane/cache.go can get.
use opvic.Prelude.{
  ℕ, ◌≤◌, ◌≡◌, refl, ap, List, [], ◌∷◌, length, String, arith, Bool-cases, inl, inr, In, All,
  All-In, All-of_In, filter_bool, In-append_left, In-append_right,
}
use mathlib.Core.Path.{subst}
use opvic.External.{GoCache, IsCache}
use opvic.Api.{Agent}
use opvic.Cache.{Value, agents, State}
use opvic.Registry.{is_live}
use opvic.Cache.Keys.{Key}
use opvic.Cache.Typed.{read-write_self}
use opvic.Cache.Shapes.{agents_or}
use opvic.Utils.{contains}
use opvic.Utils.Counting.{length-members}
use opvic.Utils.Members.{In_of_contains}
use opvic.Registry.Fleet.{ids, update_agents-All, live-All}
use opvic.Registry.Reports.{add_id}
use opvic.Registry.Stored.{read_agents}
use opvic.Registry.Machine.{
  IsSound, registered_agents, report, sweep, show, wait, Reach, here, later, Reach-IsSound,
  read_later,
}
use opvic.Registry.Timeline.{after_report, after_sweep, show_agents}

length-ids : (l : List Agent) → length (ids l) ≡ length l
length-ids [] = refl
length-ids (x ∷ l) = omega (arith, length-ids l)

In-add_id : (a b : String) (l : List String) → In b l → In b (add_id a l)
In-add_id a b l m = elim (Bool-cases (contains l a)) [
  | inl old ↦ rw old m
  | inr new ↦ rw new (In-append_left b l (a ∷ []) m)
]

In-add_id_self : (a : String) (l : List String) → In a (add_id a l)
In-add_id_self a l = elim (Bool-cases (contains l a)) [
  | inl old ↦ rw old (In_of_contains l a old)
  | inr new ↦ rw new (In-append_right a l (a ∷ []) (inl refl))
]

module _ (C : GoCache Value) where
  abbrev pub agent_count : State C → ℕ
  agent_count s = length (registered_agents C s)

  -- The identifiers of the agents that are registered at the start of a run or report in it, each
  -- new one once.
  abbrev pub known_ids : {expiration : ℕ} {s t : State C} → Reach C expiration s t → List String
  known_ids {expiration} {s} here = ids (registered_agents C s)
  known_ids (later r (report p i n done)) = add_id p.agent_id (known_ids r)
  known_ids (later r _) = known_ids r

  AreKnown : List String → State C → Type 0
  AreKnown l s = All (λ a. In a l) (ids (registered_agents C s))

  module _ (c : IsCache C) where
    reach-AreKnown :
        {expiration : ℕ} {s t : State C}
        → IsSound C s
        → (r : Reach C expiration s t) → AreKnown (known_ids r) t
    unfolding AreKnown
    reach-AreKnown {expiration} {s} h here = All-of_In _ (ids (registered_agents C s)) (λ a m. m)
    reach-AreKnown {expiration} h (later {t} {u} r (report p i n done)) =
        let g = (Reach-IsSound C c h r).0 in
        let l = registered_agents C t in
        let old = reach-AreKnown h r in
        let wider : All (λ a. In a (add_id p.agent_id (known_ids r))) (ids l) =
          All-of_In _ (ids l)
            (λ a m. In-add_id p.agent_id a (known_ids r) (All-In _ (ids l) old a m)) in
        subst (AreKnown (add_id p.agent_id (known_ids r))) (after_report C c p i n g done) (
          rw (ap agents_or (read_agents C c p i n t g.well_typed)) (
            update_agents-All p.agent_id p.agent_tags t.now
              (λ a. In a (add_id p.agent_id (known_ids r))) l
              (In-add_id_self p.agent_id (known_ids r)) wider))
    reach-AreKnown {expiration} h (later {t} {u} r (sweep done)) =
        let g = (Reach-IsSound C c h r).0 in
        let l = registered_agents C t in
        subst (AreKnown (known_ids r)) (after_sweep C c expiration g done) (
          rw
            (ap agents_or (
              read-write_self C c t Key.agent_list
                (agents (filter_bool (is_live expiration t.now) l))))
            (live-All expiration t.now (λ a. In a (known_ids r)) l (reach-AreKnown h r)))
    reach-AreKnown {expiration} h (later {t} {u} r (show done)) =
        let g = (Reach-IsSound C c h r).0 in rw (show_agents C c g done).1 (reach-AreKnown h r)
    reach-AreKnown {expiration} h (later {t} {u} r (wait n e)) =
        elim (read_later C c t n Key.agent_list) [
          | inl q ↦ rw e (rw (ap agents_or q) (reach-AreKnown h r))
          | inr q ↦ rw e (rw (ap agents_or q) tt)
        ]

    -- In a run from a sound state the list of agents has only identifiers that were registered at
    -- its start or have reported in it, and is at most as long as these are different.
    pub agent_count-bound :
        {expiration : ℕ} {s t : State C}
        → IsSound C s
        → (r : Reach C expiration s t)
        → ((a : String) → In a (ids (registered_agents C t)) → In a (known_ids r))
          × (agent_count t ≤ length (known_ids r))
    unfolding AreKnown
    agent_count-bound {expiration} {s} {t} h r =
        let l = registered_agents C t in
        let members = All-In (λ a. In a (known_ids r)) (ids l) (reach-AreKnown h r) in
        let longest =
          length-members (ids l) (known_ids r) (Reach-IsSound C c h r).0.distinct members in
        (members, omega (arith, longest, length-ids l))
