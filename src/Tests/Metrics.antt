-- ===== src/Tests/Metrics.antt =====
-- Witnesses on the overview and the metrics, after a report whose infos have been stored.
use opvic.Utils.Sets.{IsDistinct}
use opvic.Tests.Versions.{back_to_front}
use opvic.Infos.Shown.{IsShownOnce}
use opvic.Infos.Reconcile.{cache_reconcile-IsTended}
use mathlib.Core.List.{reverse}
use opvic.Tests.Flows.{whole}
use opvic.Infos.Tended.{IsTended}
use opvic.Infos.Tending.{reported-IsTended}
use opvic.Utils.{contains}
use opvic.Prelude.{
  ◌≡◌, refl, List, [], ◌∷◌, ◌++◌, map, String, ok, arith, true, false, concat_map, somes, All2,
  some,
}
use opvic.Api.{VersionInfos, list_ids, Version}
use opvic.Cache.{Value, State, version_infos}
use opvic.Cache.Keys.{Key, IsAgentId}
use opvic.Cache.Typed.{write}
use opvic.Infos.{get_overall_version_infos, get_agent_overall_version_infos, cache_reconcile}
use opvic.Infos.Filed.{IsFiled, filed_state-IsSound, filed_state-IsFiled, reported-IsFiled}
use opvic.Infos.Overview.{overview, cached, get_overall_version_infos-overview}
use opvic.Metrics.{collect}
use opvic.Metrics.Scrape.{samples_of, heartbeat, entries, collect-samples}
use opvic.Registry.Collect.{listed}
use opvic.Registry.Machine.{IsSound, registered_agents}
use opvic.Tests.Instances.{
  timed_cache, timed_cache-IsCache, counting_client, counting_client-IsExporter, digits,
  digits-HasSegments, digits-IsOrdered, digits-KeepsOriginal, Digits,
}
use opvic.Tests.Reports.{empty_state, empty_state-IsWellTyped, payload, test-IsAgentId}
use opvic.Tests.Caching.{one_report, online}
use opvic.Tests.Machine.{one_report-IsSound, empty_state-IsSound}

abbrev infos : VersionInfos
infos = record {
  id = "coredns";
  agent_id = "test";
  resource_count = 1;
  running_versions = "1.7.0" ∷ [];
  latest_version = "1.8.0";
  remote_provider = "github";
  remote_repo = "coredns/coredns";
  versions =
      record {
        running_version = "1.7.0";
        resource_count = 1;
        resource_kind = "Pods";
        extracted_from = "coredns:1.7.0";
        latest_version = "1.8.0";
        available_versions = "1.8.0" ∷ [];
        available_majors = [];
        available_minors = "1.8.0" ∷ [];
        available_patches = [];
        major_available = false;
        minor_available = true;
        patch_available = false;
      }
      ∷ [];
}

abbrev stored : State (timed_cache Value)
stored = write (timed_cache Value) one_report (Key.info "test" "coredns") (version_infos infos)

one_report-IsFiled : IsFiled (timed_cache Value) one_report
one_report-IsFiled =
    reported-IsFiled (timed_cache Value) (timed_cache-IsCache Value) payload empty_state
      test-IsAgentId (omega arith) empty_state-IsWellTyped
      (record { filed = λ a v i j n e. absurd (cc e) })

stored-IsSound : IsSound (timed_cache Value) stored
stored-IsSound =
    filed_state-IsSound (timed_cache Value) (timed_cache-IsCache Value) one_report "test" "coredns"
      infos test-IsAgentId (omega arith) one_report-IsSound

stored-IsFiled : IsFiled (timed_cache Value) stored
unfolding contains
stored-IsFiled =
    filed_state-IsFiled (timed_cache Value) (timed_cache-IsCache Value) one_report "test" "coredns"
      infos test-IsAgentId (omega arith) refl refl (refl, tt) one_report-IsFiled

get_overall_version_infos-overview_example :
    (get_overall_version_infos (timed_cache Value) stored ≡ (
      ok (
          overview
            (timed_cache Value)
            stored
            (list_ids (registered_agents (timed_cache Value) stored))),
      stored,
    ))
    × ((a : String)
        → IsAgentId a
        → get_agent_overall_version_infos (timed_cache Value) a stored ≡ (
            let l =
              somes
                (map (cached (timed_cache Value) stored a) (listed (timed_cache Value) stored a)) in
            (ok (map (λ v. v.id) l, l), stored)))
get_overall_version_infos-overview_example =
    get_overall_version_infos-overview (timed_cache Value) stored stored-IsSound

collect-samples_example : collect counting_client (timed_cache Value) stored ≡ (
  ok (
      concat_map (samples_of counting_client) (
        entries (
          overview
            (timed_cache Value)
            stored
            (list_ids (registered_agents (timed_cache Value) stored))))
      ++ map (heartbeat counting_client) (registered_agents (timed_cache Value) stored)),
  stored,
)
collect-samples_example =
    collect-samples counting_client counting_client-IsExporter (timed_cache Value) stored
      stored-IsSound

pub only_one :
    (ws : List Digits)
    → All2
        (λ (v : Version) w. digits.new_version v.running_version ≡ some w)
        payload.version.versions
        ws
    → IsDistinct (map digits.to_string ws)
unfolding contains
only_one [] h = absurd h
only_one (w ∷ []) h = (refl, tt)
only_one (w ∷ (x ∷ ws)) h = absurd h.1

pub payload-IsShownOnce : IsShownOnce digits payload.version
payload-IsShownOnce = record { once = only_one }

pub empty_state-IsTended : IsTended digits (timed_cache Value) empty_state
empty_state-IsTended = record {
  sound = empty_state-IsSound;
  filed = record { filed = λ a v x i n e. absurd (cc e) };
  same_id = λ a v i n x e. absurd (cc e);
  collected = λ a i. tt;
}

pub one_report-IsTended : IsTended digits (timed_cache Value) one_report
one_report-IsTended =
    reported-IsTended digits (timed_cache Value) (timed_cache-IsCache Value) payload empty_state
      test-IsAgentId (omega arith, payload-IsShownOnce) empty_state-IsTended

cache_reconcile-IsTended_example :
    IsTended digits
      (timed_cache Value)
      (cache_reconcile (timed_cache Value) digits whole online 1 reverse 60 one_report).1
cache_reconcile-IsTended_example =
    cache_reconcile-IsTended digits digits-HasSegments digits-IsOrdered digits-KeepsOriginal
      (timed_cache Value) (timed_cache-IsCache Value) whole online 1 reverse back_to_front 60
      one_report one_report-IsTended
