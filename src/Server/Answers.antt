-- ===== src/Server/Answers.antt =====
-- What the handlers of controlplane/handlers.go answer, in terms of what the cache holds.
use Prim.Native.String
use opvic.Prelude.{
  ℕ, ◌≡◌, refl, List, ◌++◌, map, String, Option, none, some, ok, Bool-cases, Option-cases, inl, inr,
  concat_map,
}
use opvic.External.{GoCache, Exporter, IsExporter}
use opvic.Api.{AgentPayload, Agent, list_ids}
use opvic.Http.{Codec}
use opvic.Http.Auth.{auth_middleware_iff}
use opvic.Cache.{Value, State, get_agent_cache, agent_cache_key}
use opvic.Cache
use opvic.Cache.Keys.{Key, IsAgentId, IsSlashFree}
use opvic.Cache.Typed.{
  read, get_agent_list_cache-ok, get_agent_cache-ok, get_subject_version_cache-ok, get_info-ok,
}
use opvic.Cache.Shapes.{subject_versions_of, subject_version_of, version_infos_of}
use opvic.Infos.Overview.{overview, get_overall_version_infos-overview}
use opvic.Metrics.Scrape.{samples_of, heartbeat, entries, collect-samples}
use opvic.Registry.{
  agents_get, agent_get, agents_subject_version_get, agents_subject_versions_info_get,
}
use opvic.Registry.Machine.{IsSound, registered_agents}
use opvic.Server.{
  Web, Handler, prometheus_handler, ping, agents_post_handler, agents_get_handler,
  agent_get_handler, subject_version_get_handler, subject_versions_info_get_handler,
  overview_get_handler, Route, setup_router, Incoming, Response, Content, error, text, nothing,
  agents, subject_versions, subject_version, version_infos, overall, answer, handle, handle_route,
  find_route, dispatch, group_route,
}
use opvic.Server.Middlewares.{Server, metrics_middleware, serve, recovery_with_logger}
use opvic.Server.Safety.{answered, serve_dispatched}

-- 200 with what was found, or 404.
abbrev pub found_or_404 : {A : Type 0} → (A → Content) → Option A → Response × Option AgentPayload
found_or_404 f (some a) = (answer 200 (f a), none)
found_or_404 f none = (answer 404 (error "not found"), none)

-- 202 and the payload, which is to be stored, or 400.
abbrev pub accepted : Web → Incoming → Option AgentPayload → Response × Option AgentPayload
accepted W r (some ap) = (answer 202 (text "data received"), some ap)
accepted W r none = (answer 400 (error (W.bind_error r.body)), none)

module _ (W : Web) (P : Exporter) (C : GoCache Value) (D : Codec) (r : Incoming) where
  -- What each handler answers for an agent and a version in a state.
  abbrev pub shown :
      List (String × String × ℕ)
      → Handler
      → String
      → String
      → State C
      → Response × Option AgentPayload
  shown counts prometheus_handler a v s = (
    W.expose counts s.rate_limit_remaining (
        concat_map (samples_of P) (entries (overview C s (list_ids (registered_agents C s))))
        ++ map (heartbeat P) (registered_agents C s)),
    none,
  )
  shown counts ping a v s = (answer 200 (text "pong"), none)
  shown counts agents_post_handler a v s = accepted W r (D.decode r.body)
  shown counts agents_get_handler a v s = (answer 200 (agents (registered_agents C s)), none)
  shown counts agent_get_handler a v s =
      found_or_404 subject_versions (subject_versions_of (read C s (Key.agent a)))
  shown counts subject_version_get_handler a v s =
      found_or_404 subject_version (subject_version_of (read C s (Key.subject a v)))
  shown counts subject_versions_info_get_handler a v s =
      found_or_404 version_infos (version_infos_of (read C s (Key.info a v)))
  shown counts overview_get_handler a v s =
      (answer 200 (overall (overview C s (list_ids (registered_agents C s)))), none)

  handle-shown :
      (counts : List (String × String × ℕ)) (h : Handler) (param : String → String) (s : State C)
      → IsExporter P
      → IsSound C s
      → IsAgentId (param "id")
      → IsSlashFree (param "versionId")
      → handle W P C D counts h param r s
        ≡ (ok (shown counts h (param "id") (param "versionId") s), s)
  unfolding handle agents_get agent_get agents_subject_version_get agents_subject_versions_info_get
  handle-shown counts prometheus_handler param s p h i n = rw (collect-samples P p C s h) refl
  handle-shown counts ping param s p h i n = refl
  handle-shown counts agents_post_handler param s p h i n = elim (Option-cases (D.decode r.body)) [
    | inl e ↦ rw (handle, e) refl
    | inr (ap, e) ↦ rw (handle, e) refl
  ]
  handle-shown counts agents_get_handler param s p h i n =
      rw (get_agent_list_cache-ok C s h.well_typed) refl
  handle-shown counts agent_get_handler param s p h i n =
      let o = subject_versions_of (read C s (Key.agent (param "id"))) in
      rw (get_agent_cache-ok C s h.well_typed (param "id") i)
        (elim (Option-cases o) [ inl e ↦ rw e refl | inr (x, e) ↦ rw e refl ])
  handle-shown counts subject_version_get_handler param s p h i n =
      let o = subject_version_of (read C s (Key.subject (param "id") (param "versionId"))) in
      rw (get_subject_version_cache-ok C s h.well_typed (param "id") (param "versionId") i n)
        (elim (Option-cases o) [ inl e ↦ rw e refl | inr (x, e) ↦ rw e refl ])
  handle-shown counts subject_versions_info_get_handler param s p h i n =
      let o = version_infos_of (read C s (Key.info (param "id") (param "versionId"))) in
      rw (get_info-ok C s h.well_typed (param "id") (param "versionId") i n)
        (elim (Option-cases o) [ inl e ↦ rw e refl | inr (x, e) ↦ rw e refl ])
  handle-shown counts overview_get_handler param s p h i n =
      rw (get_overall_version_infos-overview C s h).0 refl

  -- A request with the token for a route that there is, with a clean identifier of an agent and of a
  -- version if it has them, is answered in a sound state with what the cache holds, for the metrics
  -- also with the requests counted and the rate limit, without a panic: nothing is written, an
  -- accepted payload is left to a goroutine, and the request is counted once with its status, unless
  -- its URL is excluded.
  pub serve-shown :
      (token : String) (server : Server C) (route : Route) (param : String → String)
      → IsExporter P
      → IsSound C server.state
      → r.authorization ≡ String.◌++◌ "Bearer " token
      → find_route W r setup_router ≡ some (route, param)
      → IsAgentId (param "id")
      → IsSlashFree (param "versionId")
      → serve W P C D token r server ≡ (
          let out =
            shown server.req_count route.handler (param "id") (param "versionId") server.state in
          (ok out.0, answered W P C D token r server out.0 out.1))
  unfolding dispatch handle_route
  serve-shown token server route param p h auth found i n =
      let out =
        shown server.req_count route.handler (param "id") (param "versionId") server.state in
      let e = handle-shown server.req_count route.handler param server.state p h i n in
      let a = (auth_middleware_iff token r.authorization).1 auth in
      serve_dispatched W P C D token r server out.0 out.1 (inl ((route, param), found)) (
        rw (dispatch, found)
          (elim (Bool-cases route.authorized) [
            | inl t ↦ rw (handle_route, t, a) e
            | inr f ↦ rw (handle_route, f) e
          ]))

  -- Once an agent has reported, a request with the token for the versions of the agent "list" makes
  -- the handler panic: it is answered with 500, and no middleware counts it.
  pub serve-list :
      (token : String) (server : Server C) (param : String → String) (l : List Agent)
      → r.authorization ≡ String.◌++◌ "Bearer " token
      → find_route W r setup_router
        ≡ some (group_route "GET" "/agents/:id" agent_get_handler, param)
      → param "id" ≡ "list"
      → read C server.state Key.agent_list ≡ some (Cache.agents l)
      → serve W P C D token r server ≡ (ok (answer 500 nothing), server)
  unfolding serve metrics_middleware dispatch handle_route handle agent_get get_agent_cache
      agent_cache_key recovery_with_logger
  serve-list token server param l auth found list stored =
      rw
        (
          serve,
          found,
          dispatch,
          found,
          handle_route,
          (auth_middleware_iff token r.authorization).1 auth,
          list,
          stored,
        )
        refl
