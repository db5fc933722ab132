-- ===== src/Tests/Machine.antt =====
-- Witnesses on the runs of the registry: a report, a pause of 100 seconds, and a sweep.
use opvic.Cache.Typed.{read}
use opvic.Cache.Keys.{Key}
use opvic.Tests.Versions.{tracker}
use opvic.Tests.Flows.{whole}
use opvic.Provider.Keeping.{get_versions-IsSound}
use opvic.Provider.{get_versions}
use opvic.Utils.{contains}
use opvic.Prelude.{◌≤◌, ◌+◌, ◌≡◌, String, In, length, ap, refl, some, none, ok, arith}
use opvic.Cache.{Value, State, agent_subject_version_list_cache_key}
use opvic.Registry.{agent_list_cache_reconcile}
use opvic.Registry.Fleet.{ids}
use opvic.Registry.Reports.{agents_post-ok}
use opvic.Registry.Machine.{
  IsSound, registered_agents, Step, report, wait, Reach, here, later, Step-IsSound,
}
use opvic.Registry.Timeline.{fleet, fleet-reported, FleetStep, reports, Step-FleetStep}
use opvic.Registry.Bounds.{agent_count, known_ids, agent_count-bound}
use opvic.Registry.Silence.{IsSilent, IsSilent-gone}
use opvic.Tests.Instances.{timed_cache, timed_cache-IsCache, digits}
use opvic.Tests.Reports.{empty_state, empty_state-IsWellTyped, payload, test-IsAgentId}
use opvic.Tests.Caching.{one_report, online}

pub empty_state-IsSound : IsSound (timed_cache Value) empty_state
empty_state-IsSound = record {
  well_typed = empty_state-IsWellTyped;
  distinct = tt;
  clean_agents = tt;
  clean_versions = λ a i. tt;
}

abbrev report_step : Step (timed_cache Value) 60 empty_state one_report
report_step = report payload test-IsAgentId (omega arith) (
    agents_post-ok (timed_cache Value) (timed_cache-IsCache Value) payload test-IsAgentId
      (omega arith) empty_state empty_state-IsWellTyped)

abbrev paused : State (timed_cache Value)
paused = record one_report { now = one_report.now + 100 }

abbrev pause : Reach (timed_cache Value) 60 one_report paused
pause = later here (wait 100 refl)

Step-FleetStep_example :
    FleetStep 60 empty_state.now one_report.now
      (fleet (timed_cache Value) (timed_cache-IsCache Value) empty_state)
      (fleet (timed_cache Value) (timed_cache-IsCache Value) one_report)
      (reports payload)
Step-FleetStep_example =
    Step-FleetStep (timed_cache Value) (timed_cache-IsCache Value) empty_state-IsSound report_step

pub one_report-IsSound : IsSound (timed_cache Value) one_report
one_report-IsSound =
    Step-IsSound (timed_cache Value) (timed_cache-IsCache Value) empty_state-IsSound report_step

test-known :
    fleet (timed_cache Value) (timed_cache-IsCache Value) one_report "test"
    ≡ some (payload.agent_tags, empty_state.now)
test-known =
    ap (λ f. f "test")
      (fleet-reported (timed_cache Value) (timed_cache-IsCache Value) payload test-IsAgentId
        (omega arith) empty_state empty_state-IsSound)

IsSilent-gone_example :
    (u : State (timed_cache Value)) × (agent_list_cache_reconcile (timed_cache Value) 60 paused
      ≡ (ok tt, u))
    × ((v : State (timed_cache Value)) (r' : Reach (timed_cache Value) 60 u v)
        → IsSilent (timed_cache Value) "test" r'
        → fleet (timed_cache Value) (timed_cache-IsCache Value) v "test" ≡ none)
unfolding contains agent_subject_version_list_cache_key
IsSilent-gone_example =
    IsSilent-gone (timed_cache Value) (timed_cache-IsCache Value) "test" payload.agent_tags
      empty_state.now one_report-IsSound test-known pause tt (omega arith)

abbrev run_of_report : Reach (timed_cache Value) 60 empty_state one_report
run_of_report = later here report_step

agent_count-bound_example :
    ((a : String)
      → In a (ids (registered_agents (timed_cache Value) one_report))
      → In a (known_ids (timed_cache Value) run_of_report))
    × (agent_count (timed_cache Value) one_report
        ≤ length (known_ids (timed_cache Value) run_of_report))
agent_count-bound_example =
    agent_count-bound (timed_cache Value) (timed_cache-IsCache Value) empty_state-IsSound
      run_of_report

get_versions-IsSound_example :
    IsSound
      (timed_cache Value)
      (get_versions digits whole
        (timed_cache Value)
        online
        1
        tracker.spec.remote_version
        one_report).1
    × (read
          (timed_cache Value)
          (get_versions digits whole
            (timed_cache Value)
            online
            1
            tracker.spec.remote_version
            one_report).1
          Key.agent_list
        ≡ read (timed_cache Value) one_report Key.agent_list)
get_versions-IsSound_example =
    get_versions-IsSound (timed_cache Value) (timed_cache-IsCache Value) digits whole online 1
      tracker.spec.remote_version one_report one_report-IsSound Key.agent_list tt (λ x. x)
