-- ===== src/Server.antt =====
-- controlplane/router.go and the handlers of controlplane/handlers.go behind its routes. gin's match of
-- a path with a pattern and its redirections, the form in which promhttp exposes the metrics, and
-- functions of package strings are parameters.
pub mod Middlewares
pub mod Reading
pub mod Safety
pub mod Answers
pub mod Payloads
pub mod Runs
pub mod Logging
pub mod Serving
use Prim.Native.String
use mathlib.Core.List
use opvic.Prelude.{
  ℕ, Bool, true, false, not, ◌||◌, ◌&&◌, List, [], ◌∷◌, ◌++◌, String, ◌==◌, Option, none, some,
  if◌then◌else◌, Outcome, ok, err, panic, unfinished,
}
use opvic.Prelude.State.{Run, pure, lift, gets, ◌>>=◌, ◌>>◌}
use opvic.External.{GoCache, Sample, Exporter}
use opvic.Api.{
  get_api_endpoint, metrics_path, ping_api_path, agents_api_path, agent_api_path,
  agents_subject_version_path, agents_subject_version_info_path, overview_api_path, Agent,
  AgentPayload, SubjectVersion, VersionInfos,
}
use opvic.Cache.{Value, State}
use opvic.Http.{Codec, auth_middleware, Verdict, next, abort}
use opvic.Infos.{get_overall_version_infos}
use opvic.Metrics.{collect}
use opvic.Registry.{
  Reply, status_ok, not_found, agents_post, agents_get, agent_get, agents_subject_version_get,
  agents_subject_versions_info_get,
}

pub data Handler : Type 0 where
  prometheus_handler ping agents_post_handler agents_get_handler agent_get_handler : Handler
  subject_version_get_handler subject_versions_info_get_handler overview_get_handler : Handler

pub record Route : Type 0 where
  pub method : String
  pub pattern : String
  pub authorized : Bool
  pub handler : Handler

-- The group has AuthMiddleware.
abbrev pub group_route : String → String → Handler → Route
group_route method path handler = record {
  method = method;
  pattern = get_api_endpoint path;
  authorized = true;
  handler = handler;
}

abbrev pub setup_router : List Route
setup_router =
    record {
      method = "GET";
      pattern = metrics_path;
      authorized = false;
      handler = prometheus_handler;
    }
    ∷ group_route "GET" ping_api_path ping
    ∷ group_route "POST" agents_api_path agents_post_handler
    ∷ group_route "GET" agents_api_path agents_get_handler
    ∷ group_route "GET" agent_api_path agent_get_handler
    ∷ group_route "GET" agents_subject_version_path subject_version_get_handler
    ∷ group_route "GET" agents_subject_version_info_path subject_versions_info_get_handler
    ∷ group_route "GET" overview_api_path overview_get_handler
    ∷ []

pub record Incoming : Type 0 where
  pub method : String
  pub url : String
  pub path : String
  pub authorization : String
  pub body : String

-- The values of the JSON answers, and texts.
pub data Content : Type 0 where
  text error : String → Content
  agents : List Agent → Content
  subject_versions : List SubjectVersion → Content
  subject_version : SubjectVersion → Content
  version_infos : VersionInfos → Content
  overall : List (String × List VersionInfos) → Content
  nothing : Content

pub record Response : Type 0 where
  pub status : ℕ
  pub content : Content

abbrev pub answer : ℕ → Content → Response
answer status content = record { status = status; content = content }

-- gin and promhttp. A pattern that a path matches gives the values of its parameters.
pub record Web : Type 0 where
  pub match_path : String → String → Option (String → String)
  -- The exposition of the requests counted, the gauge of the rate limit and the samples of Collect.
  pub expose : List (String × String × ℕ) → ℕ → List Sample → Response
  -- The status of the redirection of a method and a path without a route, by default to the path
  -- with or without a slash at its end.
  pub redirect : String → String → Option ℕ
  pub bind_error : String → String
  pub has_prefix : String → String → Bool
  -- strings.Contains of the text in lower case.
  pub mentions : String → String → Bool

abbrev replied : {A : Type 0} → (A → Content) → Reply A → Response
replied f (status_ok a) = answer 200 (f a)
replied f not_found = answer 404 (error "not found")

-- The first route of the method that the path matches.
unfoldable pub find_route : Web → Incoming → List Route → Option (Route × (String → String))
find_route W r [] = none
find_route W r (route ∷ rest) =
    if route.method == r.method
    then elim (W.match_path route.pattern r.path) [
      | some param ↦ some (route, param)
      | none ↦ find_route W r rest
    ]
    else find_route W r rest

module _ (W : Web) (P : Exporter) (C : GoCache Value) (D : Codec) where
  -- The answer, and the payload that a goroutine is to store. `counts` are the requests counted.
  unfoldable pub handle :
      List (String × String × ℕ)
      → Handler
      → (String → String)
      → Incoming
      → Run (State C) (Response × Option AgentPayload)
  handle counts prometheus_handler param r = do
    samples ← collect P C
    limit ← gets (λ s. s.rate_limit_remaining)
    pure (W.expose counts limit samples, none)
  handle counts ping param r = pure (answer 200 (text "pong"), none)
  handle counts agents_post_handler param r = elim (D.decode r.body) [
    | none ↦ pure (answer 400 (error (W.bind_error r.body)), none)
    | some ap ↦ pure (answer 202 (text "data received"), some ap)
  ]
  handle counts agents_get_handler param r = do
    reply ← agents_get C
    pure (replied agents reply, none)
  handle counts agent_get_handler param r = do
    reply ← agent_get C (param "id")
    pure (replied subject_versions reply, none)
  handle counts subject_version_get_handler param r = do
    reply ← agents_subject_version_get C (param "id") (param "versionId")
    pure (replied subject_version reply, none)
  handle counts subject_versions_info_get_handler param r = do
    reply ← agents_subject_versions_info_get C (param "id") (param "versionId")
    pure (replied version_infos reply, none)
  handle counts overview_get_handler param r = do
    overview ← get_overall_version_infos C
    pure (answer 200 (overall overview), none)

  -- A route of the group, behind AuthMiddleware, or one outside it.
  unfoldable pub handle_route :
      List (String × String × ℕ)
      → String
      → Route
      → (String → String)
      → Incoming
      → Run (State C) (Response × Option AgentPayload)
  handle_route counts token route param r =
      if route.authorized
      then elim (auth_middleware token r.authorization) [
        | abort status message ↦ pure (answer status (error message), none)
        | next ↦ handle counts route.handler param r
      ]
      else handle counts route.handler param r

  -- gin answers a path without a route with 404, if it does not redirect it before.
  unfoldable pub dispatch :
      List (String × String × ℕ)
      → String
      → Incoming
      → Run (State C) (Response × Option AgentPayload)
  unfolding find_route
  dispatch counts token r = elim (find_route W r setup_router) [
    | none ↦ pure (answer 404 (text "404 page not found"), none)
    | some (route, param) ↦ handle_route counts token route param r
  ]
