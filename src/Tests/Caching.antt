-- ===== src/Tests/Caching.antt =====
-- Witnesses on the cached listings and on the reconciled list of agents.
use opvic.Registry.Rounds.{agent_cache_reconcile-IsReconciled}
use opvic.Registry.Views.{IsListedClean, IsReconciled}
use Prim.Native.String.{◌++◌}
use opvic.Utils.{sort_strings, contains, match_pattern, get_results_from_regex}
use opvic.Registry.Reports.{reported, agents_post-IsWellTyped}
use opvic.Tests.Reports.{test-IsAgentId}
use opvic.Cache.{agent_subject_version_list_cache_key, subject_version_cache_key}
use opvic.Registry.{update_agents, has_agent}
use opvic.Prelude.{
  ℕ, ◌==◌, Bool-cases, inl, inr, arith, ◌+◌, ◌<◌, ◌≡◌, ◌≢◌, ◌↔◌, refl, [], ◌∷◌, none, some, ok,
  panic, In, filter_bool,
}
use opvic.Api.{Agent, list_ids}
use opvic.Remote.Github
use opvic.Remote.Github.{Release}
use opvic.Cache.{Value, releases, State, set_agent_cache, get_agent_list_cache}
use opvic.Cache.Keys.{Key, IsClean}
use opvic.Cache.Typed.{IsWellTyped, read}
use opvic.Cache.Shapes.{agents_or}
use opvic.Provider.{
  Sources, get_versions, github_get_versions, get_versions_from_releases, get_releases,
  select_versions,
}
use opvic.Provider.Cached.{gauged}
use opvic.Provider.Repeat.{get_versions-again}
use opvic.Tests.Versions.{tracker}
use opvic.Registry.{is_live, agent_list_cache_reconcile, agent_cache_reconcile}
use opvic.Registry.Live.{agent_list_cache_reconcile-live, list_agent-panics}
use opvic.Tests.Instances.{digits, timed_cache, timed_cache-IsCache}
use opvic.Tests.Reports.{empty_state, empty_state-IsWellTyped, payload}
use opvic.Tests.Flows.{whole}

abbrev pub online : Sources
online = record {
  rate_limits = λ t. some 60;
  list_releases =
      λ t owner name page. some (record { tag_name = "v1.8.0"; name = "1.8.0" } ∷ [], 0);
  list_tags = λ t owner name page. some ([], 0);
  http_get = λ t url. none;
  unmarshal = λ s. none;
}

abbrev offline : Sources
offline = record {
  rate_limits = λ t. none;
  list_releases = λ t owner name page. none;
  list_tags = λ t owner name page. none;
  http_get = λ t url. none;
  unmarshal = λ s. none;
}

-- No listing is answered any more.
abbrev later : Sources
later = record offline { rate_limits = λ t. some 59 }

abbrev release : Release
release = record { tag_name = "v1.8.0"; name = "1.8.0" }

abbrev fetched : State (timed_cache Value)
fetched = record empty_state {
  cache = (Github.releases_cache_key "coredns/coredns", 100, releases (release ∷ [])) ∷ [];
  rate_limit_remaining = 60;
}

get_versions_test :
    get_versions digits whole (timed_cache Value) online 1 tracker.spec.remote_version empty_state
    ≡ (ok ("1.8.0" ∷ []), fetched)
unfolding get_versions github_get_versions get_versions_from_releases get_releases Github.split_repo
    select_versions match_pattern get_results_from_regex
get_versions_test = refl

get_versions-again_example :
    (m : ℕ) × (get_versions digits whole
        (timed_cache Value)
        later
        1
        tracker.spec.remote_version
        fetched
      ≡ (ok ("1.8.0" ∷ []), gauged m fetched))
get_versions-again_example =
    get_versions-again digits whole (timed_cache Value) (timed_cache-IsCache Value) 1 online later
      tracker.spec.remote_version 59 empty_state fetched ("1.8.0" ∷ []) refl get_versions_test

-- The state after the report of the payload.
abbrev pub one_report : State (timed_cache Value)
one_report = reported (timed_cache Value) (timed_cache-IsCache Value) payload empty_state

pub one_report-IsWellTyped : IsWellTyped (timed_cache Value) one_report
one_report-IsWellTyped =
    agents_post-IsWellTyped (timed_cache Value) (timed_cache-IsCache Value) payload test-IsAgentId
      (omega arith) empty_state empty_state-IsWellTyped

one_report-IsListedClean : IsListedClean (timed_cache Value) one_report
unfolding agent_subject_version_list_cache_key subject_version_cache_key update_agents contains
one_report-IsListedClean a i =
    let k = a ++ "/versions/list" in
    elim (Bool-cases ("test/coredns" == k)) [
      | inl e ↦ rw e tt
      | inr n ↦ elim (Bool-cases ("test/versions/list" == k)) [
        | inl e ↦ rw (n, e) (omega arith, tt)
        | inr m ↦ elim (Bool-cases ("agents/list" == k)) [
          | inl e ↦ rw (n, m, e) tt
          | inr o ↦ rw (n, m, o) tt
        ]
      ]
    ]

agent_list_cache_reconcile-live_example :
    (t : State (timed_cache Value)) × (agent_list_cache_reconcile (timed_cache Value) 60 one_report
      ≡ (ok tt, t))
    × IsWellTyped (timed_cache Value) t
    × (agents_or (read (timed_cache Value) t Key.agent_list)
        ≡ filter_bool
            (is_live 60 one_report.now)
            (agents_or (read (timed_cache Value) one_report Key.agent_list)))
    × ((g : Agent)
        → In g (agents_or (read (timed_cache Value) t Key.agent_list)) ↔ (
            In g (agents_or (read (timed_cache Value) one_report Key.agent_list))
            × (one_report.now < 60 + g.last_heartbeat)))
    × ((k : Key)
        → IsClean k
        → k ≢ Key.agent_list
        → read (timed_cache Value) t k ≡ read (timed_cache Value) one_report k)
agent_list_cache_reconcile-live_example =
    agent_list_cache_reconcile-live (timed_cache Value) (timed_cache-IsCache Value) 60 one_report
      one_report-IsWellTyped

list_agent_test :
    (t : State (timed_cache Value)) × (set_agent_cache
        (timed_cache Value)
        "list"
        (payload.version ∷ [])
        empty_state
      ≡ (ok tt, t))
    × ((get_agent_list_cache (timed_cache Value) t).0 ≡ panic)
list_agent_test =
    list_agent-panics (timed_cache Value) (timed_cache-IsCache Value) (payload.version ∷ [])
      empty_state

agent_cache_reconcile-IsReconciled_example :
    (t : State (timed_cache Value)) × (agent_cache_reconcile (timed_cache Value) one_report
      ≡ (ok tt, t))
    × IsReconciled
        (timed_cache Value)
        (list_ids (agents_or (read (timed_cache Value) one_report Key.agent_list)))
        one_report
        t
unfolding list_ids sort_strings update_agents has_agent subject_version_cache_key contains
    agent_subject_version_list_cache_key
agent_cache_reconcile-IsReconciled_example =
    agent_cache_reconcile-IsReconciled (timed_cache Value) (timed_cache-IsCache Value) one_report
      one_report-IsWellTyped (test-IsAgentId, tt) one_report-IsListedClean
