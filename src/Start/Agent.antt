-- ===== src/Start/Agent.antt =====
-- cmd/agent/main.go. The manager of controller-runtime is a parameter: which of its calls fail.
use opvic.Prelude.{
  Bool, not, true, false, List, String, Option, none, some, if◌then◌else◌, Outcome, ok, ◌>>=◌,
}
use opvic.External.{GoRegexp}
use opvic.Utils.{must_compile}
use opvic.Agent.{Config}
use opvic.Start.{Process, exits, runs}

pub record Manager : Type 0 where
  pub new_manager : Bool
  pub setup_with_manager : Config → Bool
  pub add_healthz_check : Bool
  pub add_readyz_check : Bool

pub record AgentFlags : Type 0 where
  pub identifier : String
  pub tags : List (String × String)
  pub control_plane_url : String

abbrev pub id_pattern : String
id_pattern = "^[a-zA-Z0-9\\-]+$"

abbrev pub is_match : {A : Type 0} → Option A → Bool
is_match none = false
is_match (some m) = true

abbrev pub agent_config : AgentFlags → Config
agent_config flags = record {
  id = flags.identifier;
  tags = flags.tags;
  control_plane_url = flags.control_plane_url;
}

-- The configuration with which the manager is started.
unfoldable pub agent_main : GoRegexp → Manager → AgentFlags → Outcome (Process Config)
agent_main R M flags =
    if not M.new_manager
    then ok exits
    else must_compile R id_pattern >>= λ regex.
        if not (is_match (R.find regex flags.identifier))
        then ok exits
        else if not (M.setup_with_manager (agent_config flags))
        then ok exits
        else if not M.add_healthz_check
        then ok exits
        else if not M.add_readyz_check
        then ok exits
        else ok (runs (agent_config flags))
