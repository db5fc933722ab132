-- ===== src/Http.antt =====
-- The requests between agents and the control plane: AuthMiddleware of controlplane/middlewares.go,
-- AgentsPost of controlplane/handlers.go behind it, and Post and PrepareThePayload of
-- agent/shipper.go. The JSON codec of the payload and the transport are parameters.
pub mod Auth
pub mod Shipping
use Prim.Native.String.{◌++◌}
use opvic.Prelude.{
  ℕ, Bool, true, not, ltb, ◌||◌, String, ◌==◌, Option, none, some, if◌then◌else◌, List, map,
  Outcome, ok, err, eqb, unexpected_status, external,
}
use opvic.Prelude
use opvic.Prelude.State.{Run, pure, lift, ◌>>=◌, ◌>>◌}
use opvic.External.{GoCache}
use opvic.Utils.{or_error}
use opvic.Api
use opvic.Api.{AgentPayload, agents_api_endpoint}
use opvic.Remote.Github.{split2}
use opvic.Cache.{Value, State}
use opvic.Registry.{agents_post}
use opvic.Extract

-- The request goes on, or is aborted with a status and a message.
pub data Verdict : Type 0 where
  next : Verdict
  abort : ℕ → String → Verdict

abbrev pub unauthorized : String → Verdict
unauthorized message = abort 401 message

-- The checks on the parts of the header.
pub check_parts : String → String → Option String → Verdict
check_parts token scheme none = unauthorized "invalid authorization header"
check_parts token scheme (some req_token) =
    if not (scheme == "Bearer")
    then unauthorized "invalid authorization header"
    else if not (req_token == token)
    then unauthorized "invalid authorization token"
    else next

-- `header` is what Header.Get returns: "" without the header.
unfoldable pub auth_middleware : String → String → Verdict
unfolding check_parts
auth_middleware token header =
    if header == ""
    then unauthorized "missing authorization header"
    else check_parts token (split2 " " header).0 (split2 " " header).1

-- encoding/json on the payload, with the check of the required fields; `none` is an error.
pub record Codec : Type 0 where
  pub encode : AgentPayload → Option String
  pub decode : String → Option AgentPayload

pub record Request : Type 0 where
  pub url : String
  pub content_type : String
  pub authorization : String
  pub body : String

module _ (C : GoCache Value) (D : Codec) where
  -- A POST to the endpoint of the agents: the status, after the goroutine of the handler has run.
  unfoldable pub serve_agents_post : String → Request → Run (State C) ℕ
  serve_agents_post token request = elim (auth_middleware token request.authorization) [
    | abort status message ↦ pure status
    | next ↦ elim (D.decode request.body) [
      | none ↦ pure 400
      | some p ↦ do agents_post C p; pure 202
    ]
  ]

  -- Post of a shipper; `send` is Client.Do, which answers with a status or fails.
  unfoldable pub post :
      (Request → Run (State C) ℕ) → String → String → AgentPayload → Run (State C) (Unit {0})
  post send base_url auth_token payload = do
    body ← lift (or_error (D.encode payload))
    status ← send (record {
      url = base_url ++ agents_api_endpoint;
      content_type = "application/json";
      authorization = "Bearer " ++ auth_token;
      body = body;
    })
    if not (eqb status 202 || eqb status 208) then lift (err unexpected_status) else pure tt

abbrev pub shipped_version : Extract.Version → Api.Version
shipped_version v = record {
  running_version = v.version;
  resource_count = v.resource_count;
  resource_kind = v.resource_kind;
  extracted_from = v.extracted_from;
}

-- The identifier and the tags are those of the agent's configuration.
unfoldable pub prepare_the_payload :
    String → List (String × String) → Extract.SubjectVersion → AgentPayload
prepare_the_payload id tags sv = record {
  agent_id = id;
  agent_tags = tags;
  version = record {
    id = sv.id;
    namespace = sv.namespace;
    resource_count = sv.total_resource_count;
    running_versions = sv.uniq_versions;
    versions = map shipped_version sv.versions;
    remote_version = sv.remote_version;
  };
}

-- `timeout` is in nanoseconds.
pub record ShipperConfig : Type 0 where
  pub url : String
  pub token : String
  pub tls_verify : Bool
  pub timeout : ℕ

-- The client is its transport: whether it skips the verification of certificates, and the time it
-- gives a connection, if that is limited.
pub record Shipper : Type 0 where
  pub insecure_skip_verify : Bool
  pub dial_timeout : Option ℕ
  pub base_url : String
  pub auth_token : String

abbrev pub new_shipper : ShipperConfig → Shipper
new_shipper config = record {
  insecure_skip_verify = not config.tls_verify;
  dial_timeout = if ltb 0 config.timeout then some config.timeout else none;
  base_url = config.url;
  auth_token = config.token;
}

-- ShipToControlPlane of an agent with a URL, a token, an identifier and tags. `send` is Client.Do of
-- a shipper's client.
unfoldable pub ship_to_control_plane :
    (C : GoCache Value)
    → Codec
    → (Shipper → Request → Run (State C) ℕ)
    → String
    → String
    → String
    → List (String × String)
    → Extract.SubjectVersion
    → Run (State C) (Unit {0})
unfolding post prepare_the_payload
ship_to_control_plane C D send url token id tags ver =
    let shipper =
      new_shipper (record { url = url; token = token; tls_verify = true; timeout = 10000000000 }) in
    post C D (send shipper) shipper.base_url shipper.auth_token (prepare_the_payload id tags ver)
