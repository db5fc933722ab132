-- ===== src/Start/Programs.antt =====
-- cmd/controlplane/main.go and cmd/agent/main.go from their command lines on.
use opvic.Prelude.{
  ℕ, ◌≡◌, ◌≢◌, ◌⊎◌, refl, ap, sym, ◌∙◌, List, String, none, some, ok, err, Error, inl, inr,
  Option-cases, In, true,
}
use opvic.External.{GoRegexp}
use opvic.Agent.{Config}
use opvic.Cache.Keys.{IsAgentId}
use opvic.Extract.{SubjectVersion}
use opvic.Http.{prepare_the_payload}
use opvic.Start.{Github, Transport, oauth2, new_provider, ControlPlane, main_actions, exits, runs}
use opvic.Start.Agent.{Manager}
use opvic.Start.Guards.{ReadsIdPattern, agent_main-IsAgentId, controlplane_main-cases}
use opvic.Start.Options.{
  Flag, Kingpin, IsKingpin, set_value, control_plane_auth_token, control_plane_flags,
  provider_github_token, cache_expiration, cache_reconciler_interval, agent_id, agent_flags,
  read_flags, read_agent_flags, controlplane_program, agent_program,
}

module _ (K : Kingpin) (k : IsKingpin K) where
  -- A required flag has the value that it is set to.
  required-value :
      (flags : List Flag) (values : String → String) (f : Flag)
      → K.parse flags ≡ some values
      → In f flags
      → f.required ≡ true
      → set_value K f ≡ some (values f.name)
  required-value flags values f parsed member needed =
      let (text, e) = k.required flags values f parsed member needed in
      let v = k.value flags values f parsed member in
      let same : values f.name ≡ text = rw e at v in rw same e

  -- A flag that is not set has its default.
  default-value :
      (flags : List Flag) (values : String → String) (f : Flag) (text : String)
      → K.parse flags ≡ some values
      → In f flags
      → f.default ≡ some text
      → set_value K f ≡ none
      → values f.name ≡ text
  default-value flags values f text parsed member given unset =
      let v = k.value flags values f parsed member in rw (unset, given) at v

  -- A text that a flag is set to is its value.
  set-value :
      (flags : List Flag) (values : String → String) (f : Flag) (text : String)
      → K.parse flags ≡ some values
      → In f flags
      → set_value K f ≡ some text
      → values f.name ≡ text
  set-value flags values f text parsed member given =
      let v = k.value flags values f parsed member in rw given at v

  -- The control plane from its command line on. It exits, and its flags do not parse or its provider
  -- could not be made. Or it runs with the token that the command line or the environment sets and
  -- the client of its provider, which has the token for GitHub if one is set; an expiration of an
  -- hour and an interval of 30 seconds, if these are not set; and it registers its collector and
  -- does what Start does.
  pub controlplane_program-cases :
      (A : Github)
      → ((values : String → String) × (p : Transport) × (n : ℕ) × (cp : ControlPlane) × (K.parse
              control_plane_flags
            ≡ some values)
          × (new_provider A (read_flags K values).github ≡ ok (p, n))
          × (controlplane_program K A ≡ ok (runs (cp, main_actions cp)))
          × (set_value K control_plane_auth_token ≡ some cp.token)
          × (cp.provider.github ≡ p)
          × ((text : String)
              → set_value K provider_github_token ≡ some text
              → text ≢ ""
              → p ≡ oauth2 text)
          × (set_value K cache_expiration ≡ none → cp.cache_expiration ≡ K.duration "1h")
          × (set_value K cache_reconciler_interval ≡ none
              → cp.cache_reconciler_interval ≡ K.duration "30s"))
        ⊎ ((controlplane_program K A ≡ ok exits)
            × ((K.parse control_plane_flags ≡ none)
                ⊎ ((values : String → String) × (e : Error) × (K.parse control_plane_flags
                      ≡ some values)
                    × (new_provider A (read_flags K values).github ≡ err e))))
  unfolding controlplane_program read_flags
  controlplane_program-cases A = elim (Option-cases (K.parse control_plane_flags)) [
    | inl bad ↦ inr (rw (controlplane_program, bad) refl, inl bad)
    | inr (values, parsed) ↦ elim (controlplane_main-cases A (read_flags K values)) [
      | inr (e, q, done) ↦ inr (rw (controlplane_program, parsed) done, inr (values, e, parsed, q))
      | inl (p, n, cp, q, done, token, client, expiration, interval, oauth) ↦ inl (
        values,
        p,
        n,
        cp,
        parsed,
        q,
        rw (controlplane_program, parsed) done,
        required-value control_plane_flags values control_plane_auth_token parsed (inr (inl refl))
              refl
            ∙ ap some (sym token),
        client,
        (λ text given filled.
            let same =
              set-value control_plane_flags values provider_github_token text parsed
                (inr (inr (inl refl))) given in
            oauth (λ e. filled (sym same ∙ e)) ∙ ap oauth2 same),
        (λ unset.
            expiration
            ∙ ap K.duration (
                default-value control_plane_flags values cache_expiration "1h" parsed
                  (inr (inr (inr (inr (inr (inr (inl refl))))))) refl unset)),
        (λ unset.
            interval
            ∙ ap K.duration (
                default-value control_plane_flags values cache_reconciler_interval "30s" parsed
                  (inr (inr (inr (inr (inr (inr (inr (inl refl)))))))) refl unset)),
      )
    ]
  ]

  -- An agent that runs, where the pattern is read as documented, has the identifier that the command
  -- line or the environment sets, and with it every payload that it prepares: it is not empty and
  -- has no slashes, so that it is clean unless it is a reserved name.
  pub agent_program-IsAgentId :
      (R : GoRegexp) (M : Manager) (config : Config)
      → ReadsIdPattern R
      → agent_program K R M ≡ ok (runs config)
      → (tags : List (String × String)) (sv : SubjectVersion)
      → (id : String) × (set_value K agent_id ≡ some id)
        × ((prepare_the_payload config.id config.tags sv).agent_id ≡ id)
        × (id ≢ "")
        × (id ≢ "agents"
            → id ≢ "list"
            → id ≢ "github"
            → id ≢ "helm"
            → IsAgentId (prepare_the_payload config.id config.tags sv).agent_id)
  unfolding agent_program read_agent_flags
  agent_program-IsAgentId R M config reads e tags sv = elim (Option-cases (K.parse agent_flags)) [
    | inl bad ↦ absurd (cc (rw (agent_program, bad) at e))
    | inr (values, parsed) ↦
        let (same, filled, clean) =
          agent_main-IsAgentId R M (read_agent_flags K values) config reads
            (rw (agent_program, parsed) at e) tags sv in
        (
          values agent_id.name,
          required-value agent_flags values agent_id parsed (inr (inr (inl refl))) refl,
          same,
          filled,
          clean,
        )
  ]
