-- ===== src/Tests/Reports.antt =====
-- Witnesses on the cache and on the reports of agents.
use opvic.Prelude.{[], ◌∷◌, ◌≡◌, refl, ok, arith, eq_iff}
use opvic.Api.{AgentPayload}
use opvic.Cache.{Value, State}
use opvic.Cache.Keys.{Key, IsAgentId, render_injective}
use opvic.Cache.Typed.{IsWellTyped}
use opvic.Registry.{agents_post}
use opvic.Registry.Stored.{IsStored, agents_post-IsStored}
use opvic.Tests.Instances.{timed_cache, timed_cache-IsCache}

pub test-IsAgentId : IsAgentId "test"
test-IsAgentId = record {
  plain = omega arith;
  not_agents = ground (arith, eq_iff "test" "agents");
  not_list = ground (arith, eq_iff "test" "list");
  not_github = ground (arith, eq_iff "test" "github");
  not_helm = ground (arith, eq_iff "test" "helm");
}

abbrev pub payload : AgentPayload
payload = record {
  agent_id = "test";
  agent_tags = ("env", "dev") ∷ [];
  version = record {
    id = "coredns";
    namespace = "opvic";
    resource_count = 1;
    running_versions = "1.7.0" ∷ [];
    versions =
        record {
          running_version = "1.7.0";
          resource_count = 1;
          resource_kind = "Pods";
          extracted_from = "coredns:1.7.0";
        }
        ∷ [];
    remote_version = record {
      provider = "github";
      strategy = "releases";
      repo = "coredns/coredns";
      chart = "";
      extraction = record { regex = record { pattern = ""; result = "" } };
      constraint = "";
    };
  };
}

abbrev pub empty_state : State (timed_cache Value)
empty_state = record { cache = []; now = 100; rate_limit_remaining = 0 }

pub empty_state-IsWellTyped : IsWellTyped (timed_cache Value) empty_state
empty_state-IsWellTyped = record { typed = λ k c u le v e. absurd (cc e) }

render_injective_example : Key.subject "test" "coredns" ≡ Key.subject "test" "coredns"
render_injective_example =
    render_injective (Key.subject "test" "coredns") (Key.subject "test" "coredns")
      (test-IsAgentId, omega arith) (test-IsAgentId, omega arith) refl

agents_post-IsStored_example :
    (t : State (timed_cache Value)) × (agents_post (timed_cache Value) payload empty_state
      ≡ (ok tt, t))
    × IsWellTyped (timed_cache Value) t
    × IsStored (timed_cache Value) payload empty_state t
agents_post-IsStored_example =
    agents_post-IsStored (timed_cache Value) (timed_cache-IsCache Value) payload test-IsAgentId
      (omega arith) empty_state empty_state-IsWellTyped
