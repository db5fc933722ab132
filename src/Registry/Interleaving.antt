-- ===== src/Registry/Interleaving.antt =====
-- Two goroutines of AgentsPost at a time: UpdateAgentListCache of controlplane/cache.go reads the list
-- of agents and stores it again without a lock.
use opvic.Prelude.{
  ℕ, ◌≡◌, ◌≢◌, refl, sym, ap, ◌∙◌, List, String, eq_iff, eq_refl, Option, none, some, ok, arith,
}
use opvic.Prelude.State.{Run, gets, ◌>>=◌, ◌>>◌}
use opvic.External.{GoCache, IsCache}
use opvic.Api.{Agent}
use opvic.Cache.{Value, agents, State, get_agent_list_cache, set_agent_list_cache}
use opvic.Cache.Keys.{Key}
use opvic.Cache.Typed.{
  IsWellTyped, write, get_agent_list_cache-ok, read-write_self, write-IsWellTyped,
}
use opvic.Cache.Shapes.{agents_or}
use opvic.Registry.{update_agents, update_agent_list_cache}
use opvic.Registry.Fleet.{Fleet, fleet_of, fleet_of-update_agents, register}
use opvic.Registry.Machine.{registered_agents}

register_self :
    (a : String) (tags : List (String × String)) (now : ℕ) (f : Fleet)
    → register a tags now f a ≡ some (tags, now)
register_self a tags now f = rw (eq_refl a) refl

register_ne :
    (a b : String) (tags : List (String × String)) (now : ℕ) (f : Fleet)
    → a ≢ b
    → register a tags now f b ≡ f b
register_ne a b tags now f n = ground (arith, eq_iff a b, n)

module _ (C : GoCache Value) where
  -- What UpdateAgentListCache does up to the loop, and from there.
  abbrev pub begin_update : Run (State C) (List Agent)
  begin_update = get_agent_list_cache C

  unfoldable pub finish_update :
      String → List (String × String) → List Agent → Run (State C) (Unit {0})
  finish_update agent_id agent_tags list = do
    now ← gets (λ s. s.now)
    set_agent_list_cache C (update_agents agent_id agent_tags now list)

  abbrev update_state : String → List (String × String) → List Agent → State C → State C
  update_state a tags l s = write C s Key.agent_list (agents (update_agents a tags s.now l))

  finish_update-write :
      (a : String) (tags : List (String × String)) (l : List Agent) (s : State C)
      → finish_update a tags l s ≡ (ok tt, update_state a tags l s)
  unfolding finish_update set_agent_list_cache
  finish_update-write a tags l s = refl

  whole_update :
      (a : String) (tags : List (String × String))
      → update_agent_list_cache C a tags ≡ (begin_update >>= finish_update a tags)
  unfolding update_agent_list_cache finish_update
  whole_update a tags = refl

  abbrev pub listed_at : State C → String → Option (List (String × String) × ℕ)
  listed_at s = fleet_of (registered_agents C s)

  listed_at-write :
      (c : IsCache C) (s : State C) (a b : String) (tags : List (String × String)) (l : List Agent)
      → listed_at (update_state a tags l s) b ≡ register a tags s.now (fleet_of l) b
  listed_at-write c s a b tags l =
      ap (λ o. fleet_of (agents_or o) b) (read-write_self C c s Key.agent_list _)
      ∙ ap (λ f. f b) (fleet_of-update_agents a tags s.now l)

  module _ (c : IsCache C) (a b : String) (a_tags b_tags : List (String × String)) (s : State C)
      (h : IsWellTyped C s) (ne : a ≢ b) where
    -- Two agents that are new, one UpdateAgentListCache after the other: both are registered. If
    -- both goroutines have read the list before one of them stores it, the agent that is stored
    -- first is lost.
    pub update_agent_list_cache-lost :
        listed_at s a ≡ none
        → ((t : State C) × ((update_agent_list_cache C a a_tags
                  >> update_agent_list_cache C b b_tags)
                s
              ≡ (ok tt, t))
            × (listed_at t a ≡ some (a_tags, s.now))
            × (listed_at t b ≡ some (b_tags, s.now)))
          × ((u : State C) × ((begin_update >>= λ l.
                    begin_update >>= λ k. finish_update a a_tags l >> finish_update b b_tags k)
                  s
                ≡ (ok tt, u))
              × (listed_at u a ≡ none)
              × (listed_at u b ≡ some (b_tags, s.now)))
    update_agent_list_cache-lost fresh =
        let l = registered_agents C s in
        let s1 = update_state a a_tags l s in
        let l1 = registered_agents C s1 in
        let w = write-IsWellTyped C c s Key.agent_list _ tt tt h in
        (
          (
            update_state b b_tags l1 s1,
            rw
                (
                  whole_update a a_tags,
                  whole_update b b_tags,
                  get_agent_list_cache-ok C s h,
                  finish_update-write a a_tags l s,
                  get_agent_list_cache-ok C s1 w,
                  finish_update-write b b_tags l1 s1,
                )
                refl,
            listed_at-write c s1 b a b_tags l1
                ∙ register_ne b a b_tags s.now (listed_at s1) (λ e. ne (sym e))
                ∙ listed_at-write c s a a a_tags l
                ∙ register_self a a_tags s.now (listed_at s),
            listed_at-write c s1 b b b_tags l1 ∙ register_self b b_tags s.now (listed_at s1),
          ),
          (
            update_state b b_tags l s1,
            rw
                (
                  get_agent_list_cache-ok C s h,
                  get_agent_list_cache-ok C s h,
                  finish_update-write a a_tags l s,
                  finish_update-write b b_tags l s1,
                )
                refl,
            listed_at-write c s1 b a b_tags l
                ∙ register_ne b a b_tags s.now (listed_at s) (λ e. ne (sym e))
                ∙ fresh,
            listed_at-write c s1 b b b_tags l ∙ register_self b b_tags s.now (listed_at s),
          ),
        )
