-- ===== src/Http/Shipping.antt =====
-- A payload that agent/shipper.go posts to the handlers of controlplane/handlers.go.
use Prim.Native.String.{◌++◌}
use opvic.Prelude.{
  eqb, not, ◌||◌, if◌then◌else◌, eq_iff, ◌==◌, ℕ, ◌≡◌, ◌≢◌, ◌⊎◌, refl, String, some, none, ok, err,
  external, List, unexpected_status, Bool-cases, inl, inr, Option-cases,
}
use opvic.External.{GoCache, IsCache}
use opvic.Utils.{or_error}
use opvic.Registry.{agents_post}
use opvic.Api.{AgentPayload, agents_api_endpoint}
use opvic.Cache.{Value, State}
use opvic.Cache.Keys.{IsAgentId, IsSlashFree}
use opvic.Cache.Typed.{IsWellTyped}
use opvic.Registry.Stored.{IsStored, agents_post-IsStored}
use opvic.Extract
use opvic.Prelude.State.{Run}
use opvic.Http.{
  ship_to_control_plane, prepare_the_payload, Codec, Request, next, abort, auth_middleware,
  serve_agents_post, post,
}
use opvic.Http.Auth.{auth_middleware_iff, bearer_injective, auth_middleware-refused}

module _ (C : GoCache Value) (c : IsCache C) (D : Codec) (token base_url : String) where
  serve_passed :
      (r : Request) (p : AgentPayload) (s t : State C)
      → auth_middleware token r.authorization ≡ next
      → D.decode r.body ≡ some p
      → agents_post C p s ≡ (ok tt, t)
      → serve_agents_post C D token r s ≡ (ok 202, t)
  unfolding serve_agents_post
  serve_passed r p s t pass decoded done = rw (serve_agents_post, pass, decoded, done) refl

  serve_refused :
      (r : Request) (message : String) (s : State C)
      → auth_middleware token r.authorization ≡ abort 401 message
      → serve_agents_post C D token r s ≡ (ok 401, s)
  unfolding serve_agents_post
  serve_refused r message s stop = rw (serve_agents_post, stop) refl

  abbrev request : String → String → Request
  request auth_token body = record {
    url = base_url ++ agents_api_endpoint;
    content_type = "application/json";
    authorization = "Bearer " ++ auth_token;
    body = body;
  }

  post-answered :
      (auth_token body : String) (p : AgentPayload) (s t : State C) (status : ℕ)
      → D.encode p ≡ some body
      → serve_agents_post C D token (request auth_token body) s ≡ (ok status, t)
      → post C D (serve_agents_post C D token) base_url auth_token p s
        ≡ ((if not (eqb status 202 || eqb status 208) then err unexpected_status else ok tt), t)
  unfolding post
  post-answered auth_token body p s t status encoded answered =
      rw (encoded, or_error, answered)
        (elim (Bool-cases (eqb status 202 || eqb status 208)) [
          | inl good ↦ rw good refl
          | inr bad ↦ rw bad refl
        ])

  -- A shipper that has the token of the control plane reaches AgentsPost.
  pub post-accepted :
      (p : AgentPayload) (body : String) (s t : State C)
      → D.encode p ≡ some body
      → D.decode body ≡ some p
      → agents_post C p s ≡ (ok tt, t)
      → post C D (serve_agents_post C D token) base_url token p s ≡ (ok tt, t)
  post-accepted p body s t encoded decoded done = post-answered token body p s t 202 encoded (
      serve_passed (request token body) p s t
        ((auth_middleware_iff token ("Bearer " ++ token)).1 refl) decoded done)

  module _ (p : AgentPayload) (i : IsAgentId p.agent_id) (n : IsSlashFree p.version.id)
      (s : State C) (h : IsWellTyped C s)
      (decode-encode : (body : String) → D.encode p ≡ some body → D.decode body ≡ some p) where
    -- Where the control plane decodes what the agent encodes, in a well-typed state, for a payload
    -- with an agent identifier without slashes that is not reserved and a version identifier without
    -- slashes, Post to a control plane with `token`: the payload does not encode and nothing happens; or the
    -- shipper has the token, Post succeeds and the report is stored; or it has another token, and
    -- Post fails and the control plane's state is as it was.
    pub post-IsStored :
        (auth_token : String)
        → ((D.encode p ≡ none)
            × (post C D (serve_agents_post C D token) base_url auth_token p s ≡ (err external, s)))
          ⊎ (((auth_token ≡ token)
                × ((t : State C) × (post C D (serve_agents_post C D token) base_url auth_token p s
                      ≡ (ok tt, t))
                    × IsWellTyped C t
                    × IsStored C p s t))
              ⊎ ((auth_token ≢ token)
                  × (post C D (serve_agents_post C D token) base_url auth_token p s
                      ≡ (err unexpected_status, s))))
    unfolding post
    post-IsStored auth_token = elim (Option-cases (D.encode p)) [
      | inl bad ↦ inl (bad, rw (bad, or_error) refl)
      | inr (body, good) ↦ elim (Bool-cases (auth_token == token)) [
        | inl same ↦
            let e = (eq_iff auth_token token).0 same in
            let (t, q, w, st) = agents_post-IsStored C c p i n s h in
            let sent = post-accepted p body s t good (decode-encode body good) q in
            inr (inl (e, (t, rw e sent, w, st)))
        | inr other ↦
            let ne : auth_token ≢ token = (λ e. cc (other, (eq_iff auth_token token).1 e)) in
            let (message, stop) = auth_middleware-refused token ("Bearer " ++ auth_token) (λ q. ne (
              bearer_injective auth_token token
                ((auth_middleware_iff token ("Bearer " ++ auth_token)).0 q))) in
            inr (
              inr (
                ne,
                (post-answered auth_token body p s s 401 good
                    (serve_refused (request auth_token body) message s stop)),
              ))
      ]
    ]

-- ShipToControlPlane only uses connections whose certificates it verifies: whatever another client
-- may reach, it is Post of the prepared payload to the control plane behind verified ones.
pub ship_to_control_plane-post :
    (C : GoCache Value) (D : Codec) (verified other : Request → Run (State C) ℕ)
    (url token id : String) (tags : List (String × String)) (ver : Extract.SubjectVersion)
    → ship_to_control_plane C D
        (λ shipper. if shipper.insecure_skip_verify then other else verified)
        url
        token
        id
        tags
        ver
      ≡ post C D verified url token (prepare_the_payload id tags ver)
unfolding ship_to_control_plane
ship_to_control_plane-post C D verified other url token id tags ver = refl
