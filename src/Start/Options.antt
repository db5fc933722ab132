-- ===== src/Start/Options.antt =====
-- The flags of cmd/controlplane/main.go and cmd/agent/main.go, with the programs from their command
-- lines on. kingpin is a parameter.
use opvic.Prelude.{
  ℕ, Bool, true, false, ◌≡◌, List, [], ◌∷◌, String, Option, none, some, Outcome, ok, In,
}
use opvic.External.{GoRegexp}
use opvic.Agent.{Config}
use opvic.Start.{Github, Flags, ControlPlane, Action, Process, exits, controlplane_main}
use opvic.Start.Agent.{Manager, AgentFlags, agent_main}

pub record Flag : Type 0 where
  pub name : String
  pub envar : String
  pub default : Option String
  pub required : Bool

abbrev flag : String → String → Flag
flag name envar = record { name = name; envar = envar; default = none; required = false }

abbrev required_flag : String → String → Flag
required_flag name envar = record { name = name; envar = envar; default = none; required = true }

abbrev flag_with : String → String → String → Flag
flag_with name envar default = record {
  name = name;
  envar = envar;
  default = some default;
  required = false;
}

abbrev pub control_plane_bind_addr : Flag
control_plane_bind_addr = flag_with "controlplane.bind-address" "CONTROLPLANE_BIND_ADDRESS" ":8080"

abbrev pub control_plane_auth_token : Flag
control_plane_auth_token = required_flag "controlplane.auth-token" "CONTROLPLANE_AUTH_TOKEN"

abbrev pub provider_github_token : Flag
provider_github_token = flag "provider.github.token" "PROVIDER_GITHUB_TOKEN"

abbrev pub provider_github_app_id : Flag
provider_github_app_id = flag "provider.github.app-id" "PROVIDER_GITHUB_APP_ID"

abbrev pub provider_github_installation_id : Flag
provider_github_installation_id =
    flag "provider.github.app-installation-id" "PROVIDER_GITHUB_APP_INSTALLATION_ID"

abbrev pub provider_github_app_private_key : Flag
provider_github_app_private_key =
    flag_with "provider.github.app-private-key" "PROVIDER_GITHUB_APP_PRIVATE_KEY" ""

abbrev pub cache_expiration : Flag
cache_expiration = flag_with "cache.expiration" "CACHE_EXPIRATION" "1h"

abbrev pub cache_reconciler_interval : Flag
cache_reconciler_interval = flag_with "cache.reconciler-interval" "CACHE_RECONCILER_INTERVAL" "30s"

abbrev pub log_level : Flag
log_level = flag_with "log.level" "LOG_LEVEL" "info"

abbrev pub log_http_requests : Flag
log_http_requests = flag_with "log.http-requests" "LOG_HTTP_REQUESTS" "false"

abbrev pub control_plane_flags : List Flag
control_plane_flags =
    control_plane_bind_addr ∷ control_plane_auth_token ∷ provider_github_token
    ∷ provider_github_app_id ∷ provider_github_installation_id ∷ provider_github_app_private_key
    ∷ cache_expiration ∷ cache_reconciler_interval ∷ log_level ∷ log_http_requests ∷ []

abbrev pub metrics_addr : Flag
metrics_addr = flag_with "metrics-bind-address" "METRICS_BIND_ADDRESS" ":8081"

abbrev pub probe_addr : Flag
probe_addr = flag_with "health-probe-bind-address" "HEALTH_PROBE_BIND_ADDRESS" ":8082"

abbrev pub agent_id : Flag
agent_id = required_flag "agent.identifier" "AGENT_IDENTIFIER"

abbrev pub agent_interval : Flag
agent_interval = flag_with "agent.interval" "AGENT_INTERVAL" "60s"

abbrev pub agent_tags : Flag
agent_tags = flag "agent.tags" "AGENT_TAGS"

abbrev pub agent_control_plane_url : Flag
agent_control_plane_url = flag "controlplane.url" "CONTROLPLANE_URL"

abbrev pub agent_control_plane_auth_token : Flag
agent_control_plane_auth_token = flag "controlplane.auth-token" "CONTROLPLANE_AUTH_TOKEN"

abbrev pub agent_flags : List Flag
agent_flags =
    metrics_addr ∷ probe_addr ∷ agent_id ∷ agent_interval ∷ agent_tags ∷ agent_control_plane_url
    ∷ agent_control_plane_auth_token ∷ log_level ∷ []

-- kingpin: the text that the command line gives a flag, that of a variable of the environment, and
-- Parse, which gives the value of each flag or exits; the conversions are of texts that Parse has
-- accepted.
pub record Kingpin : Type 0 where
  pub command_line : String → Option String
  pub environment : String → Option String
  pub parse : List Flag → Option (String → String)
  pub int64 : String → ℕ
  pub duration : String → ℕ
  pub bool : String → Bool
  pub string_map : String → List (String × String)

-- The command line comes before the environment.
abbrev pub set_value : Kingpin → Flag → Option String
set_value K f = elim (K.command_line f.name) [
  | some text ↦ some text
  | none ↦ K.environment f.envar
]

abbrev pub or_default : Option String → Option String → String
or_default (some text) default = text
or_default none (some text) = text
or_default none none = ""

-- The documented behaviour of Parse: a flag has the value that it is set to, or its default, and
-- Parse exits if a required flag is not set.
pub record IsKingpin (K : Kingpin) : Type 0 where
  pub value :
      (flags : List Flag) (values : String → String) (f : Flag)
      → K.parse flags ≡ some values
      → In f flags
      → values f.name ≡ or_default (set_value K f) f.default
  pub required :
      (flags : List Flag) (values : String → String) (f : Flag)
      → K.parse flags ≡ some values
      → In f flags
      → f.required ≡ true
      → (text : String) × (set_value K f ≡ some text)

module _ (K : Kingpin) where
  unfoldable pub read_flags : (String → String) → Flags
  read_flags values = record {
    bind_address = values control_plane_bind_addr.name;
    auth_token = values control_plane_auth_token.name;
    github = record {
      app_id = K.int64 (values provider_github_app_id.name);
      app_installation_id = K.int64 (values provider_github_installation_id.name);
      app_private_key = values provider_github_app_private_key.name;
      token = values provider_github_token.name;
    };
    cache_expiration = K.duration (values cache_expiration.name);
    cache_reconciler_interval = K.duration (values cache_reconciler_interval.name);
    log_http_requests = K.bool (values log_http_requests.name);
  }

  unfoldable pub controlplane_program : Github → Outcome (Process (ControlPlane × List Action))
  unfolding read_flags
  controlplane_program A = elim (K.parse control_plane_flags) [
    | none ↦ ok exits
    | some values ↦ controlplane_main A (read_flags values)
  ]

  unfoldable pub read_agent_flags : (String → String) → AgentFlags
  read_agent_flags values = record {
    identifier = values agent_id.name;
    tags = K.string_map (values agent_tags.name);
    control_plane_url = values agent_control_plane_url.name;
  }

  unfoldable pub agent_program : GoRegexp → Manager → Outcome (Process Config)
  unfolding read_agent_flags
  agent_program R M = elim (K.parse agent_flags) [
    | none ↦ ok exits
    | some values ↦ agent_main R M (read_agent_flags values)
  ]
