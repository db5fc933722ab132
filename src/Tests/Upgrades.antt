-- ===== src/Tests/Upgrades.antt =====
-- Witnesses on the round of SubjectVersionInfoCacheReconcile, after a report.
use mathlib.Core.List.{reverse}
use opvic.Prelude.{◌≡◌, ◌⊎◌, ok, All, In, String, arith}
use opvic.Prelude.State.{◌>>◌}
use opvic.Api.{list_ids}
use opvic.Cache.{Value, State}
use opvic.Registry.{agents_post}
use opvic.Registry.Machine.{registered_agents}
use opvic.Infos.{cache_reconcile, subject_version_info_cache_reconcile}
use opvic.Infos.Answers.{IsOnward}
use opvic.Infos.Fresh.{AllServed, StopsAt, subject_version_info_cache_reconcile-AllServed}
use opvic.Infos.Tended.{IsTended}
use opvic.Infos.Upgrades.{IsConcluded, begin_round, agents_post-cache_reconcile-IsAnswered}
use opvic.Tests.Instances.{
  digits, digits-HasSegments, digits-IsOrdered, digits-KeepsOriginal, timed_cache,
  timed_cache-IsCache,
}
use opvic.Tests.Versions.{back_to_front}
use opvic.Tests.Reports.{payload, test-IsAgentId, empty_state}
use opvic.Tests.Flows.{whole}
use opvic.Tests.Caching.{online, one_report}
use opvic.Tests.Metrics.{payload-IsShownOnce, empty_state-IsTended, one_report-IsTended}

subject_version_info_cache_reconcile-AllServed_example :
    let p =
      subject_version_info_cache_reconcile
        (timed_cache Value)
        digits
        whole
        online
        1
        reverse
        one_report in
    ((p.0 ≡ ok tt)
      × IsOnward digits (timed_cache Value) whole online 1 reverse one_report one_report p.1
      × All
          (λ a.
            AllServed digits digits-HasSegments digits-IsOrdered digits-KeepsOriginal
              (timed_cache Value)
              (timed_cache-IsCache Value)
              whole
              online
              1
              reverse
              back_to_front
              one_report
              a
              p.1)
          (list_ids (registered_agents (timed_cache Value) one_report)))
    ⊎ ((a : String) × In a (list_ids (registered_agents (timed_cache Value) one_report))
        × StopsAt digits digits-HasSegments digits-IsOrdered digits-KeepsOriginal
            (timed_cache Value)
            (timed_cache-IsCache Value)
            whole
            online
            1
            reverse
            back_to_front
            one_report
            a
            p.0)
subject_version_info_cache_reconcile-AllServed_example =
    subject_version_info_cache_reconcile-AllServed digits digits-HasSegments digits-IsOrdered
      digits-KeepsOriginal (timed_cache Value) (timed_cache-IsCache Value) whole online 1 reverse
      back_to_front one_report one_report-IsTended

agents_post-cache_reconcile-IsAnswered_example :
    (middle : State (timed_cache Value)) × ((agents_post (timed_cache Value) payload
          >> begin_round (timed_cache Value) 60)
        empty_state
      ≡ (ok tt, middle))
    × IsTended digits (timed_cache Value) middle
    × IsConcluded digits
        (timed_cache Value)
        (timed_cache-IsCache Value)
        payload
        test-IsAgentId
        (omega arith, payload-IsShownOnce)
        digits-HasSegments
        digits-IsOrdered
        digits-KeepsOriginal
        whole
        online
        1
        reverse
        back_to_front
        middle
        ((agents_post (timed_cache Value) payload
            >> cache_reconcile (timed_cache Value) digits whole online 1 reverse 60)
          empty_state)
agents_post-cache_reconcile-IsAnswered_example =
    agents_post-cache_reconcile-IsAnswered digits (timed_cache Value) (timed_cache-IsCache Value)
      payload test-IsAgentId (omega arith, payload-IsShownOnce) digits-HasSegments digits-IsOrdered
      digits-KeepsOriginal whole online 1 reverse back_to_front 60 empty_state (omega arith)
      empty_state-IsTended
