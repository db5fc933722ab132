-- ===== src/Start/Guards.antt =====
-- What is known of the two programs once they run: their tokens and identifiers.
use Prim.Native.Char.{code}
use Prim.Native.String.{[], ◌∷◌}
use mathlib.Core.List
use opvic.Prelude.{
  ◌≡◌, ◌≢◌, ◌⊎◌, ◌≤◌, refl, sym, ap, String, ◌==◌, eq_iff, Option, none, some, ok, err, true, false,
  Bool, not, Bool-cases, inl, inr, arith, ℕ, if◌then◌else◌, Outcome, Error, external, eqb, ◌&&◌,
}
use opvic.External.{GoRegexp}
use opvic.Agent.{Config}
use opvic.Cache.Keys.{IsSlashFree, IsAgentId}
use opvic.Extract.{SubjectVersion}
use opvic.Http.{prepare_the_payload}
use opvic.Utils.{or_error, must_compile}
use opvic.Start.{
  Github, GithubConfig, Transport, oauth2, no_transport, choose_transport, new_provider, Flags,
  ControlPlane, main_actions, new_control_plane, Process, exits, runs, controlplane_main,
  new_helm_provider, init_providers,
}
use opvic.Start.Agent.{Manager, AgentFlags, id_pattern, is_match, agent_config, agent_main}

-- A letter, a digit or a hyphen.
abbrev pub IsIdChar : ℕ → Type 0
IsIdChar c =
    ((b'a' ≤ c) × (c ≤ b'z')) ⊎ ((b'A' ≤ c) × (c ≤ b'Z')) ⊎ ((b'0' ≤ c) × (c ≤ b'9')) ⊎ (c ≡ b'-')

abbrev pub AllIdChars : String → Type 0
AllIdChars [] = Unit
AllIdChars (c ∷ s) = IsIdChar (code c) × AllIdChars s

-- The documented syntax of the pattern: it compiles, and a text that it matches is not empty and has
-- letters, digits and hyphens alone.
pub record ReadsIdPattern (R : GoRegexp) : Type 0 where
  pub matches :
      (regex : R.Regexp) × (R.compile id_pattern ≡ some regex)
      × ((s : String) → is_match (R.find regex s) ≡ true → AllIdChars s × (s ≢ ""))

slash_free : (s : String) → AllIdChars s → IsSlashFree s
slash_free [] h = tt
slash_free (c ∷ s) (p, h) = (ground (arith, p), slash_free s h)

gates :
    (b c d e : Bool) (x y : Config)
    → ◌≡◌ {A = Outcome (Process Config)}
        (if not b
          then ok exits
          else if not c
          then ok exits
          else if not d
          then ok exits
          else if not e
          then ok exits
          else ok (runs x))
        (ok (runs y))
    → (b ≡ true) × (x ≡ y)
gates true true true true x y h = (refl, cc h)
gates false c d e x y h = absurd (cc h)
gates true false d e x y h = absurd (cc h)
gates true true false e x y h = absurd (cc h)
gates true true true false x y h = absurd (cc h)

running :
    (R : GoRegexp) (M : Manager) (flags : AgentFlags) (config : Config) (regex : R.Regexp)
    → R.compile id_pattern ≡ some regex
    → agent_main R M flags ≡ ok (runs config)
    → (is_match (R.find regex flags.identifier) ≡ true) × (agent_config flags ≡ config)
unfolding agent_main
running R M flags config regex compiled e = elim (Bool-cases M.new_manager) [
  | inl t ↦
      gates (is_match (R.find regex flags.identifier)) (M.setup_with_manager (agent_config flags))
        M.add_healthz_check M.add_readyz_check (agent_config flags) config
        (rw (agent_main, t, must_compile, compiled) at e)
  | inr f ↦ absurd (cc (rw (agent_main, f) at e))
]

-- An agent that runs has the identifier of its flags, and with it every payload that it prepares: it
-- is not empty and has no slashes, so that it is clean unless it is a reserved name.
pub agent_main-IsAgentId :
    (R : GoRegexp) (M : Manager) (flags : AgentFlags) (config : Config)
    → ReadsIdPattern R
    → agent_main R M flags ≡ ok (runs config)
    → (tags : List.List (String × String)) (sv : SubjectVersion)
    → ((prepare_the_payload config.id config.tags sv).agent_id ≡ flags.identifier)
      × (flags.identifier ≢ "")
      × (flags.identifier ≢ "agents"
          → flags.identifier ≢ "list"
          → flags.identifier ≢ "github"
          → flags.identifier ≢ "helm"
          → IsAgentId (prepare_the_payload config.id config.tags sv).agent_id)
unfolding prepare_the_payload
agent_main-IsAgentId R M flags config p e tags sv =
    let (regex, compiled, m) = p.matches in
    let (found, same) = running R M flags config regex compiled e in
    let (chars, filled) = m flags.identifier found in
    let named : config.id ≡ flags.identifier = ap (λ (c : Config). c.id) (sym same) in
    (
      named,
      filled,
      λ n1 n2 n3 n4. rw named (record {
        plain = slash_free flags.identifier chars;
        not_agents = n1;
        not_list = n2;
        not_github = n3;
        not_helm = n4;
      }),
    )

or_error-cases :
    {X : Type 0} (o : Option X)
    → ((x : X) × (or_error o ≡ ok x)) ⊎ ((e : Error) × (or_error o ≡ err e))
or_error-cases none = inr (external, refl)
or_error-cases (some x) = inl (x, refl)

choose_transport-cases :
    (A : Github) (c : GithubConfig)
    → ((p : Transport) × (choose_transport A c ≡ ok p))
      ⊎ ((e : Error) × (choose_transport A c ≡ err e))
unfolding choose_transport
choose_transport-cases A c = elim (Bool-cases (c.token == "")) [
  | inr given ↦ inl (oauth2 c.token, rw given refl)
  | inl missing ↦
      elim (Bool-cases (
        not (eqb c.app_id 0)
        && not (eqb c.app_installation_id 0)
        && not (c.app_private_key == ""))) [
          | inl app ↦ rw (missing, app) (or_error-cases _)
          | inr anonymous ↦ inl (no_transport, rw (missing, anonymous) refl)
        ]
]

new_provider-cases :
    (A : Github) (c : GithubConfig)
    → ((p : Transport) × (n : ℕ) × (choose_transport A c ≡ ok p) × (new_provider A c ≡ ok (p, n)))
      ⊎ ((e : Error) × (new_provider A c ≡ err e))
unfolding new_provider
new_provider-cases A c = elim (choose_transport-cases A c) [
  | inr (e, q) ↦ inr (e, rw q refl)
  | inl (p, q) ↦ elim (or_error-cases (A.rate_limits p)) [
    | inl (n, q') ↦ inl (p, n, q, rw (q, q') refl)
    | inr (e, q') ↦ inr (e, rw (q, q') refl)
  ]
]

-- A provider with a token for GitHub uses it.
choose_transport-oauth2 :
    (A : Github) (c : GithubConfig) (p : Transport)
    → choose_transport A c ≡ ok p
    → c.token ≢ ""
    → p ≡ oauth2 c.token
unfolding choose_transport
choose_transport-oauth2 A c p q given = elim (Bool-cases (c.token == "")) [
  | inl e ↦ absurd (given ((eq_iff c.token "").0 e))
  | inr n ↦ cc (rw n at q)
]

abbrev plane : Flags → Transport → ℕ → ControlPlane
plane flags p n = record {
  bind_addr = flags.bind_address;
  token = flags.auth_token;
  cache_expiration = flags.cache_expiration;
  cache_reconciler_interval = flags.cache_reconciler_interval;
  provider = record { github = p; helm = new_helm_provider };
  rate_limit_remaining = n;
  log_https_requests = flags.log_http_requests;
}

-- The control plane of cmd/controlplane either exits, and its provider could not be made, or it runs
-- with the token and the durations of its flags and the client of its provider, which has the token
-- for GitHub if there is one; it sets up the routes before it serves, and reconciles each whole number
-- of seconds that the interval has.
pub controlplane_main-cases :
    (A : Github) (flags : Flags)
    → ((p : Transport) × (n : ℕ) × (cp : ControlPlane) × (new_provider A flags.github ≡ ok (p, n))
        × (controlplane_main A flags ≡ ok (runs (cp, main_actions cp)))
        × (cp.token ≡ flags.auth_token)
        × (cp.provider.github ≡ p)
        × (cp.cache_expiration ≡ flags.cache_expiration)
        × (cp.cache_reconciler_interval ≡ flags.cache_reconciler_interval)
        × (flags.github.token ≢ "" → p ≡ oauth2 flags.github.token))
      ⊎ ((e : Error) × (new_provider A flags.github ≡ err e)
          × (controlplane_main A flags ≡ ok exits))
unfolding controlplane_main new_control_plane init_providers
controlplane_main-cases A flags = elim (new_provider-cases A flags.github) [
  | inl (p, n, q, q') ↦ inl (
    p,
    n,
    plane flags p n,
    q',
    rw q' refl,
    refl,
    refl,
    refl,
    refl,
    choose_transport-oauth2 A flags.github p q,
  )
  | inr (e, q) ↦ inr (e, q, rw q refl)
]
