-- ===== src/Tests/Server.antt =====
-- Witnesses on the requests to the control plane and the goroutines that they start.
use mathlib.Core.Option.{Option}
use opvic.Tests.Metrics.{payload-IsShownOnce, one_report-IsTended}
use opvic.Tests.Versions.{back_to_front}
use opvic.Metrics.Unique.{Apart}
use opvic.Metrics.{collect}
use opvic.External.{Sample}
use opvic.Infos.{cache_reconcile}
use mathlib.Core.Option
use mathlib.Core.Path.{subst}
use mathlib.Core.List.{reverse}
use opvic.Prelude.{
  ◌≡◌, refl, List, [], ◌∷◌, ◌++◌, String, ◌==◌, none, some, ok, arith, eq_iff, if◌then◌else◌, false,
  AllPairs,
}
use opvic.Api.{AgentPayload}
use opvic.Cache.{Value, State}
use opvic.Prelude.State.{◌>>=◌, ◌>>◌}
use opvic.Registry.{update_agents, update_agent_list_cache}
use opvic.Registry.Stored.{read_agents}
use opvic.Registry.Interleaving.{
  begin_update, finish_update, listed_at, update_agent_list_cache-lost,
}
use opvic.Server.{
  Web, Response, agent_get_handler, group_route, Incoming, text, nothing, answer, find_route,
}
use opvic.Server.Middlewares.{Server, serve, run_goroutine}
use opvic.Server.Safety.{answered}
use opvic.Api.{AgentPayload}
use opvic.Http.{serve_agents_post}
use opvic.Server.Serving.{request_of, settled, serve-serve_agents_post}
use opvic.Server.Answers.{shown, serve-shown, serve-list}
use opvic.Server.Runs.{IsCleanPayload, request, here, later, IsSafe, ServerReach-IsSafe, reconcile}
use opvic.Tests.Instances.{
  timed_cache, timed_cache-IsCache, counting_client, counting_client-IsExporter, digits,
  digits-HasSegments, digits-IsOrdered, digits-KeepsOriginal,
}
use opvic.Tests.Reports.{empty_state, empty_state-IsWellTyped, payload, test-IsAgentId}
use opvic.Tests.Caching.{one_report, online}
use opvic.Tests.Machine.{one_report-IsSound}
use opvic.Tests.Flows.{codec, whole}

-- Paths that are spelled like a pattern, for the agent and the version of one name.
abbrev web : String → Web
web name = record {
  match_path = λ pattern path. if pattern == path then some (λ key. name) else none;
  expose = λ counts limit samples. answer 200 (text "samples");
  redirect = λ method path. none;
  bind_error = λ body. "invalid";
  has_prefix = λ url prefix. false;
  mentions = λ text part. false;
}

abbrev server : Server (timed_cache Value)
server = record { state = one_report; req_count = []; pending = [] }

abbrev post_request : Incoming
post_request = record {
  method = "POST";
  url = "/api/v1alpha1/agents";
  path = "/api/v1alpha1/agents";
  authorization = "Bearer secret";
  body = "{}";
}

abbrev get_request : Incoming
get_request = record {
  method = "GET";
  url = "/api/v1alpha1/agents/list";
  path = "/api/v1alpha1/agents/:id";
  authorization = "Bearer secret";
  body = "";
}

serve-serve_agents_post_example :
    (response : Response) × (payload : Option AgentPayload) × (serve
        (web "test")
        counting_client
        (timed_cache Value)
        codec
        "secret"
        post_request
        server
      ≡ (
        ok response,
        answered
            (web "test")
            counting_client
            (timed_cache Value)
            codec
            "secret"
            post_request
            server
            response
            payload,
      ))
    × (serve_agents_post
          (timed_cache Value)
          codec
          "secret"
          (request_of post_request "application/json")
          one_report
        ≡ settled
            (web "test")
            counting_client
            (timed_cache Value)
            codec
            "secret"
            post_request
            server
            response
            payload)
serve-serve_agents_post_example =
    serve-serve_agents_post (web "test") counting_client (timed_cache Value) codec "secret"
      post_request server (λ key. "test") "application/json" refl refl

serve-shown_example :
    serve (web "test") counting_client (timed_cache Value) codec "secret" get_request server ≡ (
      let out =
        shown
          (web "test")
          counting_client
          (timed_cache Value)
          codec
          get_request
          server.req_count
          agent_get_handler
          "test"
          "test"
          one_report in
      (
        ok out.0,
        answered
            (web "test")
            counting_client
            (timed_cache Value)
            codec
            "secret"
            get_request
            server
            out.0
            out.1,
      ))
unfolding find_route
serve-shown_example =
    serve-shown (web "test") counting_client (timed_cache Value) codec get_request "secret" server
      (group_route "GET" "/agents/:id" agent_get_handler) (λ key. "test") counting_client-IsExporter
      one_report-IsSound refl refl test-IsAgentId (omega arith)

serve-list_example :
    serve (web "list") counting_client (timed_cache Value) codec "secret" get_request server
    ≡ (ok (answer 500 nothing), server)
unfolding find_route
serve-list_example =
    serve-list (web "list") counting_client (timed_cache Value) codec get_request "secret" server
      (λ key. "list") (update_agents "test" payload.agent_tags 100 []) refl refl refl
      (read_agents (timed_cache Value) (timed_cache-IsCache Value) payload test-IsAgentId
        (omega arith) empty_state empty_state-IsWellTyped)

clean_payload :
    (body : String) (ap : AgentPayload) → codec.decode body ≡ some ap → IsCleanPayload digits ap
clean_payload body ap e =
    subst (IsCleanPayload digits) (Option.some-injective payload ap e)
      (test-IsAgentId, (omega arith, payload-IsShownOnce))

abbrev posted : Server (timed_cache Value)
posted =
    (serve (web "test") counting_client (timed_cache Value) codec "secret" post_request server).1

abbrev refreshed : Server (timed_cache Value)
refreshed = record posted {
  state = (cache_reconcile (timed_cache Value) digits whole online 1 reverse 60 posted.state).1;
}

ServerReach-IsSafe_example :
    IsSafe digits whole (web "test") counting_client (timed_cache Value) codec "secret" 60 refreshed
    × ((front back : List AgentPayload) (load : AgentPayload)
        → refreshed.pending ≡ front ++ load ∷ back
        → (u : Server (timed_cache Value)) × (run_goroutine
              (web "test")
              counting_client
              (timed_cache Value)
              codec
              front
              load
              back
              refreshed
            ≡ (ok tt, u)))
    × ((samples : List Sample) × (collect counting_client (timed_cache Value) refreshed.state
          ≡ (ok samples, refreshed.state))
        × AllPairs Apart samples)
ServerReach-IsSafe_example =
    ServerReach-IsSafe digits whole (web "test") counting_client (timed_cache Value) codec "secret"
      60 digits-HasSegments digits-IsOrdered digits-KeepsOriginal (timed_cache-IsCache Value)
      counting_client-IsExporter (record { tended = one_report-IsTended; clean = tt })
      (later (later here (request post_request (clean_payload "{}") refl))
        (reconcile online 1 reverse back_to_front refl))

update_agent_list_cache-lost_example :
    ((t : State (timed_cache Value)) × ((update_agent_list_cache (timed_cache Value) "a" []
            >> update_agent_list_cache (timed_cache Value) "b" [])
          empty_state
        ≡ (ok tt, t))
      × (listed_at (timed_cache Value) t "a" ≡ some ([], 100))
      × (listed_at (timed_cache Value) t "b" ≡ some ([], 100)))
    × ((u : State (timed_cache Value)) × ((begin_update (timed_cache Value) >>= λ l.
              begin_update (timed_cache Value) >>= λ k.
              finish_update (timed_cache Value) "a" [] l
              >> finish_update (timed_cache Value) "b" [] k)
            empty_state
          ≡ (ok tt, u))
        × (listed_at (timed_cache Value) u "a" ≡ none)
        × (listed_at (timed_cache Value) u "b" ≡ some ([], 100)))
update_agent_list_cache-lost_example =
    update_agent_list_cache-lost (timed_cache Value) (timed_cache-IsCache Value) "a" "b" [] []
      empty_state empty_state-IsWellTyped (ground (arith, eq_iff "a" "b")) refl
