-- ===== src/Server/Middlewares.antt =====
-- The middlewares of controlplane/middlewares.go around the routes, and the goroutines of AgentsPost.
use opvic.Prelude.{
  ℕ, Bool, true, false, not, ◌||◌, List, [], ◌∷◌, ◌++◌, String, ◌==◌, Option, none, some,
  if◌then◌else◌, Outcome, ok, err, panic, unfinished,
}
use opvic.Prelude.State.{Run}
use opvic.External.{GoCache, Exporter}
use opvic.Api.{AgentPayload, metrics_path, api_version}
use opvic.Cache.{Value, State}
use opvic.Http.{Codec}
use opvic.Registry.{agents_post}
use opvic.Server.{
  Web, Incoming, Response, nothing, answer, dispatch, find_route, setup_router, Handler,
  prometheus_handler,
}

-- The value of a panic: an error of the connection, with the text of the system call's error if it
-- has one, another error, or no error.
pub data PanicValue : Type 0 where
  connection_error : Option String → PanicValue
  error_value other_value : PanicValue

-- A dead connection is aborted, which leaves gin's status of 200; the assertion that the value is an
-- error panics again on another one.
unfoldable pub recovery_with_logger : Web → PanicValue → Outcome Response
recovery_with_logger W (connection_error (some e)) =
    if W.mentions e "broken pipe" || W.mentions e "connection reset by peer"
    then ok (answer 200 nothing)
    else ok (answer 500 nothing)
recovery_with_logger W (connection_error none) = ok (answer 500 nothing)
recovery_with_logger W error_value = ok (answer 500 nothing)
recovery_with_logger W other_value = panic

-- The headers that HeadersMiddleware sets; the router does not use it.
abbrev headers_middleware : List (String × String)
headers_middleware = ("Content-Type", "application/json") ∷ ("X-API-Version", api_version) ∷ []

-- The control plane with the increments of its counter of requests, the last one first, and the
-- payloads that goroutines of AgentsPost are yet to store.
pub record Server (C : GoCache Value) : Type 0 where
  pub state : State C
  pub req_count : List (String × String × ℕ)
  pub pending : List AgentPayload

-- MetricsMiddleware counts a request whose handler returns, unless its URL is one of these.
unfoldable pub is_counted : Web → String → Bool
is_counted W url =
    not (url == metrics_path || W.has_prefix url "/assets" || W.has_prefix url "/favicon.ico")

abbrev pub spawn : Option AgentPayload → List AgentPayload → List AgentPayload
spawn none l = l
spawn (some ap) l = ap ∷ l

module _ (W : Web) (P : Exporter) (C : GoCache Value) (D : Codec) where
  -- A request whose handler has left `state` and returned or not.
  abbrev pub count_request :
      Incoming
      → Server C
      → State C
      → Outcome (Response × Option AgentPayload)
      → Outcome Response × Server C
  count_request r server state (ok (response, payload)) = (
    ok response,
    record {
      state = state;
      req_count =
          if is_counted W r.url
          then (r.method, r.url, response.status) ∷ server.req_count
          else server.req_count;
      pending = spawn payload server.pending;
    },
  )
  count_request r server state (err e) = (err e, record server { state = state })
  count_request r server state panic = (panic, record server { state = state })
  count_request r server state unfinished = (unfinished, record server { state = state })

  unfoldable pub metrics_middleware : String → Incoming → Run (Server C) Response
  unfolding is_counted
  metrics_middleware token r server =
      count_request r server (dispatch W P C D server.req_count token r server.state).1
        (dispatch W P C D server.req_count token r server.state).0

  -- RecoveryWithLogger around it. What panics here are failed type assertions, whose values are
  -- errors.
  abbrev pub recovered : Outcome Response → Outcome Response
  recovered panic = recovery_with_logger W error_value
  recovered other = other

  -- Collect runs in goroutines of its own, whose panics nothing recovers: they end the program.
  abbrev pub collects : Handler → Bool
  collects prometheus_handler = true
  collects _ = false

  -- gin redirects before the middlewares.
  unfoldable pub serve : String → Incoming → Run (Server C) Response
  serve token r server =
      let out = metrics_middleware token r server in
      elim (find_route W r setup_router) [
        | some (route, param) ↦ (if collects route.handler then out.0 else recovered out.0, out.1)
        | none ↦ elim (W.redirect r.method r.path) [
          | some status ↦ (ok (answer status nothing), server)
          | none ↦ (recovered out.0, out.1)
        ]
      ]

  -- A goroutine that stores a pending payload; those of `later` and `rest` stay pending.
  unfoldable pub run_goroutine :
      List AgentPayload → AgentPayload → List AgentPayload → Run (Server C) (Unit {0})
  run_goroutine later ap rest server =
      let out = agents_post C ap server.state in
      (out.0, record server { state = out.1; pending = later ++ rest })
