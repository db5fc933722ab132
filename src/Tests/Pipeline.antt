-- ===== src/Tests/Pipeline.antt =====
-- The witness on the way from the resources of a cluster to the answer about their upgrades.
use mathlib.Core.List.{reverse}
use opvic.Prelude.{◌≡◌, ◌≢◌, refl, [], ◌∷◌, ok, some, String, arith, eq_iff}
use opvic.Prelude.State.{◌>>◌}
use opvic.Api.{AgentPayload}
use opvic.Agent.{Cluster, tracker, reconcile, requeue}
use opvic.Cache.{Value, State}
use opvic.Extract.{SubjectVersion, extract_subject_version, get_feilds}
use opvic.Utils.{contains}
use opvic.Http.{Codec, prepare_the_payload}
use opvic.Infos.{cache_reconcile}
use opvic.Infos.Shown.{IsShownOnce}
use opvic.Infos.Tended.{IsTended}
use opvic.Infos.Upgrades.{IsConcluded, begin_round}
use opvic.Pipeline.{Finds, refusal, deliver, reconcile-IsAnswered}
use opvic.Tracker.{
  get_local_version, get_resource_kind, set_defaults, validate, get_object_list, pod_list,
}
use opvic.Tests.Instances.{
  digits, digits-HasSegments, digits-IsOrdered, digits-KeepsOriginal, timed_cache,
  timed_cache-IsCache,
}
use opvic.Tests.Versions
use opvic.Tests.Versions.{back_to_front}
use opvic.Tests.Reports.{test-IsAgentId, empty_state}
use opvic.Tests.Flows.{whole, fields, config}
use opvic.Tests.Caching.{online}
use opvic.Tests.Metrics.{empty_state-IsTended, only_one}

abbrev cluster : Cluster fields
cluster = record {
  get = tracker Versions.tracker;
  select = λ text. some text;
  list_items = λ kind options. some (("1.7.0" ∷ []) ∷ []);
}

cluster-Finds : Finds cluster Versions.tracker (("1.7.0" ∷ []) ∷ [])
unfolding set_defaults validate get_object_list
cluster-Finds = record {
  found = refl;
  valid = refl;
  selector = "app=coredns";
  selected = refl;
  kind = pod_list;
  known = refl;
  listed = refl;
}

abbrev sv : SubjectVersion
sv = record {
  id = "coredns";
  namespace = "opvic";
  total_resource_count = 1;
  uniq_versions = "1.7.0" ∷ [];
  versions =
      record {
        version = "1.7.0";
        resource_count = 1;
        resource_kind = "Pods";
        extracted_from = "1.7.0";
      }
      ∷ [];
  remote_version = Versions.tracker.spec.remote_version;
}

sv_test :
    extract_subject_version fields whole (set_defaults Versions.tracker) (("1.7.0" ∷ []) ∷ [])
    ≡ ok (sv, 0)
unfolding extract_subject_version set_defaults get_feilds get_local_version contains
    get_resource_kind
sv_test = refl

abbrev payload : AgentPayload
payload = record {
  agent_id = "test";
  agent_tags = ("env", "dev") ∷ [];
  version = record {
    id = "coredns";
    namespace = "opvic";
    resource_count = 1;
    running_versions = "1.7.0" ∷ [];
    versions =
        record {
          running_version = "1.7.0";
          resource_count = 1;
          resource_kind = "Pods";
          extracted_from = "1.7.0";
        }
        ∷ [];
    remote_version = Versions.tracker.spec.remote_version;
  };
}

payload_test : prepare_the_payload config.id config.tags sv ≡ payload
unfolding prepare_the_payload
payload_test = refl

payload-IsShownOnce : IsShownOnce digits payload.version
payload-IsShownOnce = record { once = only_one }

abbrev codec : Codec
codec = record { encode = λ p. some "{}"; decode = λ s. some payload }

url-given : ◌≢◌ {A = String} config.control_plane_url ""
url-given e = ground (arith, eq_iff "http://opvic" "")

reconcile-IsAnswered_example :
    (reconcile fields whole config
        (λ q. refusal (deliver (timed_cache Value) codec "secret" config q empty_state).0)
        cluster
      ≡ ok (record { result = requeue; errors = 0; posted = some payload }))
    × ((middle : State (timed_cache Value)) × ((deliver
                (timed_cache Value)
                codec
                "secret"
                config
                payload
              >> begin_round (timed_cache Value) 60)
            empty_state
          ≡ (ok tt, middle))
        × IsTended digits (timed_cache Value) middle
        × IsConcluded digits
            (timed_cache Value)
            (timed_cache-IsCache Value)
            payload
            test-IsAgentId
            (omega arith, payload-IsShownOnce)
            digits-HasSegments
            digits-IsOrdered
            digits-KeepsOriginal
            whole
            online
            1
            reverse
            back_to_front
            middle
            ((deliver (timed_cache Value) codec "secret" config payload
                >> cache_reconcile (timed_cache Value) digits whole online 1 reverse 60)
              empty_state))
reconcile-IsAnswered_example =
    reconcile-IsAnswered digits digits-HasSegments digits-IsOrdered digits-KeepsOriginal
      (timed_cache Value) (timed_cache-IsCache Value) whole online 1 reverse back_to_front fields
      codec "secret" config cluster Versions.tracker ("1.7.0" ∷ []) [] sv 0 payload test-IsAgentId
      (omega arith, payload-IsShownOnce) "{}" 60 empty_state cluster-Finds sv_test refl url-given
      payload_test refl refl (omega arith) empty_state-IsTended
