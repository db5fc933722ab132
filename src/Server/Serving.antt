-- ===== src/Server/Serving.antt =====
-- POST requests to the endpoint of the agents, through the router and the middlewares of
-- controlplane/router.go, against AgentsPost behind AuthMiddleware alone, which Http has.
use opvic.Prelude.{
  ◌⊎◌, [], ◌≡◌, refl, String, Option, none, some, Outcome, ok, ℕ, Option-cases, inl, inr,
}
use opvic.Prelude.State.{continue, pure}
use opvic.External.{GoCache, Exporter}
use opvic.Api.{AgentPayload, get_api_endpoint, agents_api_path}
use opvic.Cache.{Value, State}
use opvic.Http.{Codec, Request, serve_agents_post, auth_middleware, Verdict, next, abort}
use opvic.Server.{
  Web, Incoming, Response, setup_router, find_route, group_route, agents_post_handler, dispatch,
  handle, handle_route, answer, text, error,
}
use opvic.Server.Middlewares.{Server, serve, run_goroutine}
use opvic.Server.Safety.{answered, serve_dispatched}

Verdict-cases :
    (v : Verdict) → (v ≡ next) ⊎ ((status : ℕ) × (message : String) × (v ≡ abort status message))
Verdict-cases next = inl refl
Verdict-cases (abort status message) = inr (status, message, refl)

-- What of a request Post of the agents sets.
abbrev pub request_of : Incoming → String → Request
request_of r content_type = record {
  url = r.url;
  content_type = content_type;
  authorization = r.authorization;
  body = r.body;
}

module _ (W : Web) (P : Exporter) (C : GoCache Value) (D : Codec) (token : String)
    (r : Incoming) where
  -- The status of a response and the cache, once the goroutine that the request has started, if there
  -- is one, has run.
  abbrev pub settled : Server C → Response → Option AgentPayload → Outcome ℕ × State C
  settled server response none = (ok response.status, server.state)
  settled server response (some payload) =
      let g =
        run_goroutine W P C D [] payload server.pending
          (answered W P C D token r server response (some payload)) in
      continue g.0 (λ u. pure response.status) g.1.state

  routed :
      (param : String → String)
      → r.method ≡ "POST"
      → W.match_path (get_api_endpoint agents_api_path) r.path ≡ some param
      → find_route W r setup_router
        ≡ some (group_route "POST" agents_api_path agents_post_handler, param)
  unfolding find_route
  routed param posted matched = rw (posted, matched) refl

  -- A POST request to the path of the agents is answered, by the router and the middlewares, with
  -- the status that AgentsPost behind AuthMiddleware has, and starts a goroutine if it is accepted;
  -- once that has run, the status and the cache are those of AgentsPost behind AuthMiddleware.
  pub serve-serve_agents_post :
      (server : Server C) (param : String → String) (content_type : String)
      → r.method ≡ "POST"
      → W.match_path (get_api_endpoint agents_api_path) r.path ≡ some param
      → (response : Response) × (payload : Option AgentPayload) × (serve W P C D token r server
          ≡ (ok response, answered W P C D token r server response payload))
        × (serve_agents_post C D token (request_of r content_type) server.state
            ≡ settled server response payload)
  unfolding dispatch handle_route handle serve_agents_post run_goroutine
  serve-serve_agents_post server param content_type posted matched =
      let found = routed param posted matched in
      elim (Verdict-cases (auth_middleware token r.authorization)) [
        | inr (status, message, stop) ↦ (
          answer status (error message),
          none,
          serve_dispatched W P C D token r server _ none (inl (_, found))
              (rw (dispatch, found, stop) refl),
          rw (serve_agents_post, stop) refl,
        )
        | inl pass ↦ elim (Option-cases (D.decode r.body)) [
          | inl bad ↦ (
            answer 400 (error (W.bind_error r.body)),
            none,
            serve_dispatched W P C D token r server _ none (inl (_, found))
                (rw (dispatch, found, pass, bad) refl),
            rw (serve_agents_post, pass, bad) refl,
          )
          | inr (p, good) ↦ (
            answer 202 (text "data received"),
            some p,
            serve_dispatched W P C D token r server _ (some p) (inl (_, found))
                (rw (dispatch, found, pass, good) refl),
            rw (serve_agents_post, pass, good) refl,
          )
        ]
      ]
