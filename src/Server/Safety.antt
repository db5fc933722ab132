-- ===== src/Server/Safety.antt =====
-- What a request to the server of controlplane/router.go can do.
use Prim.Native.String
use opvic.Prelude.{
  ◌≡◌, ◌⊎◌, refl, ap, ◌∙◌, List, ◌∷◌, String, Option, none, some, Outcome, ok, err, panic,
  unfinished, true, Bool-cases, Option-cases, inl, inr, arith, ℕ, if◌then◌else◌,
}
use opvic.Prelude.State.{IsReader}
use opvic.External.{GoCache, Exporter}
use opvic.Api.{AgentPayload}
use opvic.Http.{Codec}
use opvic.Cache.{Value, State}
use opvic.Server.{
  Web, Route, setup_router, Incoming, Response, handle_route, find_route, dispatch,
  prometheus_handler,
}
use opvic.Server.Middlewares.{
  Server, spawn, is_counted, count_request, metrics_middleware, serve, collects,
}
use opvic.Server.Reading.{handle-IsReader}

abbrev IsGuarded : Route → Type 0
IsGuarded route = (route.authorized ≡ true) ⊎ (route.handler ≡ prometheus_handler)

module _ (W : Web) (P : Exporter) (C : GoCache Value) (D : Codec) (token : String)
    (r : Incoming) where
  handle_route-IsReader :
      (counts : List (String × String × ℕ)) (route : Route) (param : String → String)
      → IsReader (handle_route W P C D counts token route param r)
  unfolding handle_route
  handle_route-IsReader counts route param s =
      ground (arith, handle-IsReader C W P D counts route.handler param r s)

  dispatch-IsReader :
      (counts : List (String × String × ℕ)) → IsReader (dispatch W P C D counts token r)
  unfolding dispatch
  dispatch-IsReader counts s = elim (Option-cases (find_route W r setup_router)) [
    | inl e ↦ rw (dispatch, e) refl
    | inr ((route, param), e) ↦ rw (dispatch, e) (handle_route-IsReader counts route param s)
  ]

  count_request-state :
      (server : Server C) (s : State C) (o : Outcome (Response × Option AgentPayload))
      → (count_request W P C D r server s o).1.state ≡ s
  count_request-state server s (ok (response, payload)) = refl
  count_request-state server s (err e) = refl
  count_request-state server s panic = refl
  count_request-state server s unfinished = refl

  -- A request is redirected, or the middlewares have it.
  pub serve-after :
      (server : Server C)
      → ((serve W P C D token r server).1 ≡ server)
        ⊎ ((serve W P C D token r server).1 ≡ (metrics_middleware W P C D token r server).1)
  unfolding serve
  serve-after server = elim (Option-cases (find_route W r setup_router)) [
    | inr (found, e) ↦ inr (rw (serve, e) refl)
    | inl e ↦ elim (Option-cases (W.redirect r.method r.path)) [
      | inl q ↦ inr (rw (serve, e, q) refl)
      | inr (status, q) ↦ inl (rw (serve, e, q) refl)
    ]
  ]

  -- Whatever the state of the server: no request writes to the cache, also when a handler panics.
  -- Only the goroutines that AgentsPost starts do.
  pub serve-state : (server : Server C) → (serve W P C D token r server).1.state ≡ server.state
  unfolding metrics_middleware
  serve-state server = elim (serve-after server) [
    | inl e ↦ ap (λ (x : Server C). x.state) e
    | inr e ↦
        ap (λ (x : Server C). x.state) e
        ∙ (count_request-state server (dispatch W P C D server.req_count token r server.state).1
              (dispatch W P C D server.req_count token r server.state).0
            ∙ dispatch-IsReader server.req_count server.state)
  ]

  -- The server after a request that was answered.
  abbrev pub answered : Server C → Response → Option AgentPayload → Server C
  answered server response payload = record {
    state = server.state;
    req_count =
        if is_counted W r.url
        then (r.method, r.url, response.status) ∷ server.req_count
        else server.req_count;
    pending = spawn payload server.pending;
  }

  -- A request with a route, or without one and not redirected.
  abbrev pub IsRouted : Type 0
  IsRouted =
      ((found : Route × (String → String)) × (find_route W r setup_router ≡ some found))
      ⊎ ((find_route W r setup_router ≡ none) × (W.redirect r.method r.path ≡ none))

  pub serve_dispatched :
      (server : Server C) (response : Response) (payload : Option AgentPayload)
      → IsRouted
      → dispatch W P C D server.req_count token r server.state
        ≡ (ok (response, payload), server.state)
      → serve W P C D token r server ≡ (ok response, answered server response payload)
  unfolding serve metrics_middleware
  serve_dispatched server response payload (inr (n, q)) e = rw (serve, n, q, e) refl
  serve_dispatched server response payload (inl ((route, param), n)) e =
      elim (Bool-cases (collects W P C D route.handler)) [
        | inl t ↦ rw (serve, n, e, t) refl
        | inr f ↦ rw (serve, n, e, f) refl
      ]
