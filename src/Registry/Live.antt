-- ===== src/Registry/Live.antt =====
-- AgentListCacheReconcile of controlplane/cache.go, and what happens to an agent named "list".
use opvic.Prelude.{
  ℕ, ◌+◌, ◌<◌, ◌≡◌, ◌≢◌, ◌↔◌, refl, sym, ap, List, ok, panic, In, filter_bool, filter_bool-In,
  ltb→lt, lt→ltb,
}
use opvic.External.{GoCache, IsCache}
use opvic.Api.{Agent, SubjectVersion}
use opvic.Cache.{
  Value, agents, State, set_agent_list_cache, get_agent_list_cache, set_agent_cache,
  agent_cache_key,
}
use opvic.Cache.Keys.{Key, IsClean}
use opvic.Cache.Typed.{
  IsWellTyped, read, write, get_agent_list_cache-ok, write-IsWellTyped, read-write_self,
  read-write_ne,
}
use opvic.Cache.Shapes.{agents_or}
use opvic.Registry.{is_live, agent_list_cache_reconcile}

module _ (C : GoCache Value) (c : IsCache C) (expiration : ℕ) (s : State C) where
  abbrev pub swept : State C
  swept =
      write C s Key.agent_list
        (agents (filter_bool (is_live expiration s.now) (agents_or (read C s Key.agent_list))))

  pub agent_list_cache_reconcile-ok :
      IsWellTyped C s → agent_list_cache_reconcile C expiration s ≡ (ok tt, swept)
  unfolding agent_list_cache_reconcile set_agent_list_cache
  agent_list_cache_reconcile-ok h = rw (get_agent_list_cache-ok C s h) refl

  -- In a well-typed state AgentListCacheReconcile does not panic and leaves a well-typed state. The
  -- agents that stay are exactly those whose last heartbeat is less than the expiration ago, in
  -- their order, and nothing else changes.
  pub agent_list_cache_reconcile-live :
      IsWellTyped C s
      → (t : State C) × (agent_list_cache_reconcile C expiration s ≡ (ok tt, t))
        × IsWellTyped C t
        × (agents_or (read C t Key.agent_list)
            ≡ filter_bool (is_live expiration s.now) (agents_or (read C s Key.agent_list)))
        × ((g : Agent)
            → In g (agents_or (read C t Key.agent_list)) ↔ (
                In g (agents_or (read C s Key.agent_list))
                × (s.now < expiration + g.last_heartbeat)))
        × ((k : Key) → IsClean k → k ≢ Key.agent_list → read C t k ≡ read C s k)
  agent_list_cache_reconcile-live h =
      let old = agents_or (read C s Key.agent_list) in
      let live = filter_bool (is_live expiration s.now) old in
      let t = write C s Key.agent_list (agents live) in
      let e : agents_or (read C t Key.agent_list) ≡ live =
        ap agents_or (read-write_self C c s Key.agent_list (agents live)) in
      let m = filter_bool-In (is_live expiration s.now) old in
      (
        t,
        agent_list_cache_reconcile-ok h,
        write-IsWellTyped C c s Key.agent_list (agents live) tt tt h,
        e,
        λ g.
            rw e
              (λ i. (((m g).0 i).0, ltb→lt _ _ ((m g).0 i).1), λ q. (m g).1 (q.0, lt→ltb _ _ q.1)),
        λ k kc n. read-write_ne C c s Key.agent_list k (agents live) tt kc (λ q. n (sym q)),
      )

-- Once the versions of an agent named "list" have been stored, reading the list of agents panics.
pub list_agent-panics :
    (C : GoCache Value)
    → IsCache C
    → (l : List SubjectVersion) (s : State C)
    → (t : State C) × (set_agent_cache C "list" l s ≡ (ok tt, t))
      × ((get_agent_list_cache C t).0 ≡ panic)
unfolding set_agent_cache get_agent_list_cache agent_cache_key
list_agent-panics C c l s = (
  _,
  refl,
  rw (c.get-set s.cache s.now s.now "agents/list" "agents/list" _, c.fresh_now s.now) refl,
)
