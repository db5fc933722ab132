-- ===== src/Registry/Timeline.antt =====
-- The registry of agents refines a map from identifiers to the last report, and an agent that falls
-- silent leaves it.
use mathlib.Core.Path.{fun_ext}
use opvic.Prelude.{ℕ, ◌+◌, ◌≤◌, ◌≡◌, refl, sym, ap, ◌∙◌, none, ok, Bool-cases, inl, inr, arith, ◌⊎◌}
use opvic.External.{GoCache, IsCache}
use opvic.Api.{AgentPayload}
use opvic.Cache.{Value, State}
use opvic.Cache.Keys.{Key, IsAgentId, IsSlashFree}
use opvic.Cache.Typed.{read, read-write_self}
use opvic.Cache.Shapes.{agents_or, strings_or}
use opvic.Registry.{agents_post, agent_list_cache_reconcile, agent_cache_reconcile}
use opvic.Utils.{contains}
use opvic.Registry.Reports.{registered, reported, agents_post-ok}
use opvic.Registry.Stored.{read_agents}
use opvic.Registry.Live.{swept, agent_list_cache_reconcile-ok}
use opvic.Registry.Rounds.{agent_cache_reconcile-IsReconciled}
use opvic.Registry.Fleet.{Fleet, fleet_of, register, expire, fleet_of-update_agents, fleet_of-live}
use opvic.Registry.Machine.{
  IsSound, registered_agents, Step, report, sweep, show, wait, read_later, clean_ids,
}

-- What a step of the registry is, without the states.
pub data Event : Type 0 where
  reports : AgentPayload → Event
  sweeps shows waits : Event

-- What an event makes of the map: a report replaces the entry of its agent with its tags and the
-- time, the reconciler of the list drops the old entries, that of the agents changes nothing, and in
-- time nothing happens, or the map is lost with the item of the cache that holds it.
pub data FleetStep (expiration now later : ℕ) (f g : Fleet) : Event → Type 0 where
  replace :
      (p : AgentPayload)
      → later ≡ now
      → g ≡ register p.agent_id p.agent_tags now f
      → FleetStep expiration now later f g (reports p)
  drop_old : later ≡ now → g ≡ expire expiration now f → FleetStep expiration now later f g sweeps
  keep : later ≡ now → g ≡ f → FleetStep expiration now later f g shows
  stay : now ≤ later → g ≡ f → FleetStep expiration now later f g waits
  lose : now ≤ later → g ≡ (λ a. none) → FleetStep expiration now later f g waits

abbrev pub event :
    {C : GoCache Value} {expiration : ℕ} {s t : State C} → Step C expiration s t → Event
event (report p i n done) = reports p
event (sweep done) = sweeps
event (show done) = shows
event (wait n e) = waits

module _ (C : GoCache Value) (c : IsCache C) where
  abbrev pub fleet : State C → Fleet
  fleet s = fleet_of (registered_agents C s)

  pub fleet-reported :
      (p : AgentPayload) (i : IsAgentId p.agent_id) (n : IsSlashFree p.version.id) (s : State C)
      → IsSound C s
      → fleet (reported C c p s) ≡ register p.agent_id p.agent_tags s.now (fleet s)
  fleet-reported p i n s h =
      ap (λ o. fleet_of (agents_or o)) (read_agents C c p i n s h.well_typed)
      ∙ fleet_of-update_agents p.agent_id p.agent_tags s.now (registered_agents C s)

  pub fleet-swept :
      (expiration : ℕ) (s : State C)
      → IsSound C s
      → fleet (swept C c expiration s) ≡ expire expiration s.now (fleet s)
  fleet-swept expiration s h =
      ap (λ o. fleet_of (agents_or o)) (read-write_self C c s Key.agent_list _)
      ∙ fun_ext (fleet_of-live expiration s.now (registered_agents C s) h.distinct)

  pub reported-now : (p : AgentPayload) (s : State C) → (reported C c p s).now ≡ s.now
  reported-now p s =
      elim (Bool-cases (
        contains (strings_or (read C (registered C c p s) (Key.versions_of p.agent_id)))
          p.version.id)) [ inl old ↦ rw old refl | inr new ↦ rw new refl ]

  pub after_report :
      {s t : State C} (p : AgentPayload) (i : IsAgentId p.agent_id) (n : IsSlashFree p.version.id)
      → IsSound C s
      → agents_post C p s ≡ (ok tt, t)
      → reported C c p s ≡ t
  after_report {s} p i n h done =
      ap (λ x. x.1) (sym (agents_post-ok C c p i n s h.well_typed) ∙ done)

  pub after_sweep :
      {s t : State C} (expiration : ℕ)
      → IsSound C s
      → agent_list_cache_reconcile C expiration s ≡ (ok tt, t)
      → swept C c expiration s ≡ t
  after_sweep {s} expiration h done =
      ap (λ x. x.1) (sym (agent_list_cache_reconcile-ok C c expiration s h.well_typed) ∙ done)

  pub show_agents :
      {s t : State C}
      → IsSound C s
      → agent_cache_reconcile C s ≡ (ok tt, t)
      → (t.now ≡ s.now) × (registered_agents C t ≡ registered_agents C s)
  show_agents {s} h done =
      let (u, e, r) =
        agent_cache_reconcile-IsReconciled C c s h.well_typed (clean_ids C s h) h.clean_versions in
      let q = ap (λ x. x.1) (sym e ∙ done) in
      (
        ap (λ (x : State C). x.now) (sym q) ∙ r.clock,
        ap (registered_agents C) (sym q) ∙ ap agents_or r.registered,
      )

  pub after_show :
      {s t : State C}
      → IsSound C s
      → agent_cache_reconcile C s ≡ (ok tt, t)
      → (t.now ≡ s.now) × (fleet t ≡ fleet s)
  after_show h done = let (clock, same) = show_agents h done in (clock, ap fleet_of same)

  pub fleet-later :
      (s : State C) (n : ℕ) (t : State C)
      → t ≡ record s { now = s.now + n }
      → (fleet t ≡ (λ a. none)) ⊎ (fleet t ≡ fleet s)
  fleet-later s n t e = elim (read_later C c s n Key.agent_list) [
    | inl same ↦ inr (rw e (ap (λ o. fleet_of (agents_or o)) same))
    | inr gone ↦ inl (rw e (ap (λ o. fleet_of (agents_or o)) gone))
  ]

  -- Every step from a sound state is the step of the map that its event is, at the same times.
  pub Step-FleetStep :
      {expiration : ℕ} {s t : State C}
      → IsSound C s
      → (step : Step C expiration s t)
      → FleetStep expiration s.now t.now (fleet s) (fleet t) (event step)
  Step-FleetStep {expiration} {s} {t} h (report p i n done) =
      let q = after_report p i n h done in
      replace p (ap (λ (x : State C). x.now) (sym q) ∙ reported-now p s)
        (ap fleet (sym q) ∙ fleet-reported p i n s h)
  Step-FleetStep {expiration} {s} {t} h (sweep done) =
      let q = after_sweep expiration h done in
      drop_old (ap (λ (x : State C). x.now) (sym q)) (ap fleet (sym q) ∙ fleet-swept expiration s h)
  Step-FleetStep {expiration} {s} {t} h (show done) =
      let (clock, same) = after_show h done in keep clock same
  Step-FleetStep {expiration} {s} {t} h (wait n e) =
      let le : s.now ≤ t.now = rw e (omega arith) in
      elim (fleet-later s n t e) [ inl gone ↦ lose le gone | inr same ↦ stay le same ]
