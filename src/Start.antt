-- ===== src/Start.antt =====
-- How the two programs start: NewProvider of controlplane/providers/github/github.go, Init of
-- providers.go, controlplane/controlplane.go, and cmd/controlplane/main.go; cmd/agent/main.go is in
-- the child Agent. The GitHub clients, the file system and gin are parameters; a duration is a
-- number of nanoseconds.
pub mod Agent
pub mod Guards
pub mod Logging
pub mod Options
pub mod Programs
use Prim.Native.Nat.{◌/◌, ◌*◌}
use opvic.Prelude.{
  ℕ, Bool, true, false, not, ◌&&◌, List, [], ◌∷◌, String, ◌==◌, Option, none, some, eqb,
  if◌then◌else◌, Outcome, ok, err, panic, unfinished, missing_token, ◌>>=◌,
}
use opvic.Utils.{or_error}
use opvic.Server.{Route, setup_router}

pub record GithubConfig : Type 0 where
  pub app_id : ℕ
  pub app_installation_id : ℕ
  pub app_private_key : String
  pub token : String

-- How the client of the GitHub API authenticates itself.
pub data Transport : Type 0 where
  oauth2 : String → Transport
  app_key_from_file app_key : ℕ → ℕ → String → Transport
  no_transport : Transport

-- os.Stat, the constructors of ghinstallation, which may fail, and the rate limit that the API
-- answers to a client; none is an error.
pub record Github : Type 0 where
  pub stat : String → Bool
  pub new_key_from_file : ℕ → ℕ → String → Option Transport
  pub new_key : ℕ → ℕ → String → Option Transport
  pub rate_limits : Transport → Option ℕ

module _ (A : Github) where
  -- The transport of NewProvider.
  unfoldable pub choose_transport : GithubConfig → Outcome Transport
  choose_transport c =
      if not (c.token == "")
      then ok (oauth2 c.token)
      else if not (eqb c.app_id 0)
          && not (eqb c.app_installation_id 0)
          && not (c.app_private_key == "")
      then or_error (
          if A.stat c.app_private_key
          then A.new_key_from_file c.app_id c.app_installation_id c.app_private_key
          else A.new_key c.app_id c.app_installation_id c.app_private_key)
      else ok no_transport

  -- The transport of the provider and the gauge of the rate limit.
  unfoldable pub new_provider : GithubConfig → Outcome (Transport × ℕ)
  new_provider c = choose_transport c >>= λ transport.
      or_error (A.rate_limits transport) >>= λ remaining. ok (transport, remaining)

-- The client of the Helm provider has a time limit, in nanoseconds.
pub record HelmProvider : Type 0 where
  pub timeout : ℕ

abbrev pub new_helm_provider : HelmProvider
new_helm_provider = record { timeout = 30 * 1000000000 }

-- Both providers; that for GitHub is the transport of its client.
pub record Providers : Type 0 where
  pub github : Transport
  pub helm : HelmProvider

-- Init of the providers, with the gauge of the rate limit.
unfoldable pub init_providers : Github → GithubConfig → Outcome (Providers × ℕ)
init_providers A c =
    new_provider A c >>= λ p. ok (record { github = p.0; helm = new_helm_provider }, p.1)

pub record ControlPlaneConfig : Type 0 where
  pub bind_addr : String
  pub token : Option String
  pub github : GithubConfig
  pub cache_expiration : ℕ
  pub cache_reconciler_interval : ℕ
  pub log_http_requests : Bool

pub record ControlPlane : Type 0 where
  pub bind_addr : String
  pub token : String
  pub cache_expiration : ℕ
  pub cache_reconciler_interval : ℕ
  pub provider : Providers
  pub rate_limit_remaining : ℕ
  pub log_https_requests : Bool

unfoldable pub new_control_plane : Github → ControlPlaneConfig → Outcome ControlPlane
new_control_plane A conf = elim conf.token [
  | none ↦ err missing_token
  | some token ↦ init_providers A conf.github >>= λ p. ok (record {
    bind_addr = conf.bind_addr;
    token = token;
    cache_expiration = conf.cache_expiration;
    cache_reconciler_interval = conf.cache_reconciler_interval;
    provider = p.0;
    rate_limit_remaining = p.1;
    log_https_requests = conf.log_http_requests;
  })
]

-- What the main function does once it has a control plane, which is the collector that it registers,
-- and what Start does, in their order: the cron job runs CacheReconcile every so many seconds.
pub data Action : Type 0 where
  register_collector register_request_count : Action
  route : List Route → Action
  every : ℕ → Action
  run : String → Action

-- `uint64(cp.cacheReconcilerInterval.Seconds())`
abbrev pub interval_seconds : ℕ → ℕ
interval_seconds interval = interval / 1000000000

abbrev pub execute_cron_jobs : ControlPlane → Action
execute_cron_jobs cp = every (interval_seconds cp.cache_reconciler_interval)

abbrev pub start_server : ControlPlane → List Action
start_server cp =
    register_request_count ∷ route setup_router ∷ execute_cron_jobs cp ∷ run cp.bind_addr ∷ []

abbrev pub main_actions : ControlPlane → List Action
main_actions cp = register_collector ∷ start_server cp

-- The flags of cmd/controlplane; the token is required, so that its pointer is never nil.
pub record Flags : Type 0 where
  pub bind_address : String
  pub auth_token : String
  pub github : GithubConfig
  pub cache_expiration : ℕ
  pub cache_reconciler_interval : ℕ
  pub log_http_requests : Bool

-- The exit with status 1, or a control plane and what it does.
pub data Process (A : Type 0) : Type 0 where
  exits : Process A
  runs : A → Process A

abbrev pub main_config : Flags → ControlPlaneConfig
main_config flags = record {
  bind_addr = flags.bind_address;
  token = some flags.auth_token;
  github = flags.github;
  cache_expiration = flags.cache_expiration;
  cache_reconciler_interval = flags.cache_reconciler_interval;
  log_http_requests = flags.log_http_requests;
}

abbrev pub started : Outcome ControlPlane → Outcome (Process (ControlPlane × List Action))
started (ok cp) = ok (runs (cp, main_actions cp))
started (err e) = ok exits
started panic = panic
started unfinished = unfinished

unfoldable pub controlplane_main : Github → Flags → Outcome (Process (ControlPlane × List Action))
controlplane_main A flags = started (new_control_plane A (main_config flags))
