-- ===== src/Server/Payloads.antt =====
-- Only AgentsPost of controlplane/handlers.go leaves a payload to a goroutine, and it is the one that
-- the body of the request decodes to.
use opvic.Prelude.{
  ◌≡◌, ◌⊎◌, refl, ◌∙◌, Option, none, some, ok, err, panic, unfinished, Outcome, Option-cases,
  Bool-cases, inl, inr, ℕ, String, List,
}
use opvic.External.{GoCache, Exporter}
use opvic.Api.{AgentPayload}
use opvic.Http.{Codec, Verdict, next, abort, auth_middleware}
use opvic.Cache.{Value, State}
use opvic.Registry.{
  agents_get, agent_get, agents_subject_version_get, agents_subject_versions_info_get,
}
use opvic.Metrics.{collect}
use opvic.Infos.{get_overall_version_infos}
use opvic.Prelude.State.{continue}
use opvic.Server.{
  handle, handle_route, find_route, setup_router, Handler, prometheus_handler, ping,
  agents_post_handler, agents_get_handler, agent_get_handler, subject_version_get_handler,
  subject_versions_info_get_handler, overview_get_handler, Web, Incoming, Response, dispatch,
}

Verdict-cases :
    (v : Verdict) → (v ≡ next) ⊎ ((status : ℕ) × (message : String) × (v ≡ abort status message))
Verdict-cases next = inl refl
Verdict-cases (abort status message) = inr (status, message, refl)

-- A handler that ends with an answer alone leaves no payload.
no_payload :
    {S A : Type 0} (first : Outcome A) (g : A → S → Response) (s : S) (p : Response)
    (q : AgentPayload)
    → (continue {B = Response × Option AgentPayload} first (λ x t. (ok (g x t, none), t)) s).0
      ≡ ok (p, some q)
    → ⊥
no_payload (ok a) g s p q e = cc e
no_payload (err x) g s p q e = cc e
no_payload panic g s p q e = cc e
no_payload unfinished g s p q e = cc e

handled_payload :
    (W : Web) (P : Exporter) (C : GoCache Value) (D : Codec) (counts : List (String × String × ℕ))
    (h : Handler) (param : String → String) (r : Incoming) (s : State C) (p : Response)
    (q : AgentPayload)
    → (handle W P C D counts h param r s).0 ≡ ok (p, some q)
    → D.decode r.body ≡ some q
unfolding handle
handled_payload W P C D counts agents_post_handler param r s p q e =
    elim (Option-cases (D.decode r.body)) [
      | inl n ↦ absurd (cc (rw (handle, n) at e))
      | inr (x, n) ↦ n ∙ cc (rw (handle, n) at e)
    ]
handled_payload W P C D counts prometheus_handler param r s p q e = absurd (
    no_payload (collect P C s).0 (λ x t. W.expose counts t.rate_limit_remaining x) (collect P C s).1
      p q e)
handled_payload W P C D counts ping param r s p q e = absurd (cc e)
handled_payload W P C D counts agents_get_handler param r s p q e =
    absurd (no_payload (agents_get C s).0 _ (agents_get C s).1 p q e)
handled_payload W P C D counts agent_get_handler param r s p q e =
    absurd (no_payload (agent_get C (param "id") s).0 _ (agent_get C (param "id") s).1 p q e)
handled_payload W P C D counts subject_version_get_handler param r s p q e =
    let m = agents_subject_version_get C (param "id") (param "versionId") s in
    absurd (no_payload m.0 _ m.1 p q e)
handled_payload W P C D counts subject_versions_info_get_handler param r s p q e =
    let m = agents_subject_versions_info_get C (param "id") (param "versionId") s in
    absurd (no_payload m.0 _ m.1 p q e)
handled_payload W P C D counts overview_get_handler param r s p q e =
    absurd (no_payload (get_overall_version_infos C s).0 _ (get_overall_version_infos C s).1 p q e)

module _ (W : Web) (P : Exporter) (C : GoCache Value) (D : Codec) (token : String) where
  pub dispatched_payload :
      (counts : List (String × String × ℕ)) (r : Incoming) (s : State C) (p : Response)
      (q : AgentPayload)
      → (dispatch W P C D counts token r s).0 ≡ ok (p, some q)
      → D.decode r.body ≡ some q
  unfolding dispatch handle_route
  dispatched_payload counts r s p q e = elim (Option-cases (find_route W r setup_router)) [
    | inl n ↦ absurd (cc (rw (dispatch, n) at e))
    | inr ((route, param), n) ↦ elim (Bool-cases route.authorized) [
      | inr f ↦
          handled_payload W P C D counts route.handler param r s p q
            (rw (dispatch, n, handle_route, f) at e)
      | inl t ↦ elim (Verdict-cases (auth_middleware token r.authorization)) [
        | inl a ↦
            handled_payload W P C D counts route.handler param r s p q
              (rw (dispatch, n, handle_route, t, a) at e)
        | inr (status, m, a) ↦ absurd (cc (rw (dispatch, n, handle_route, t, a) at e))
      ]
    ]
  ]
