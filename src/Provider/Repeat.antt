-- ===== src/Provider/Repeat.antt =====
-- GetVersions of controlplane/providers, called twice at one time.
use opvic.Tracker.{RemoteVersion, github_strategy_releases, github_strategy_tags}
use opvic.Prelude.{
  ℕ, ◌≡◌, sym, ap, List, [], ◌∷◌, String, ok, some, inl, inr, Bool-cases, false, ◌||◌, ◌==◌,
}
use opvic.Prelude.State.{bind-again, lift_last-again, continue-eq-ok, pure, lift, Run}
use opvic.External.{GoVersion, GoRegexp, GoCache, IsCache}
use opvic.Utils.{or_error}
use opvic.Remote.Helm.{ChartVersion}
use opvic.Cache.{Value, State}
use opvic.Provider.{
  Sources, get_releases, get_index, get_tags, get_versions, github_get_versions, helm_get_versions,
  get_versions_from_releases, get_versions_from_tags, entries_of, select_versions, chart_field,
}
use opvic.Provider.Cached.{get_releases-again, get_tags-again, get_index-again, gauged}

module _ (G : GoVersion) (R : GoRegexp) (C : GoCache Value) (c : IsCache C) (fuel : ℕ)
    (W later : Sources) (conf : RemoteVersion) where
  from_releases-again :
      (n : ℕ) (s t : State C) (vs : List String)
      → get_versions_from_releases G R C W fuel conf s ≡ (ok vs, t)
      → get_versions_from_releases G R C later fuel conf (gauged n t) ≡ (ok vs, gauged n t)
  unfolding get_versions_from_releases
  from_releases-again n s t vs =
      lift_last-again (gauged n) (get_releases G R C W fuel conf.repo)
        (get_releases G R C later fuel conf.repo) s t vs
        (λ u l. get_releases-again G R C c fuel W later conf.repo n s u l) _

  from_tags-again :
      (n : ℕ) (s t : State C) (vs : List String)
      → get_versions_from_tags G R C W fuel conf s ≡ (ok vs, t)
      → get_versions_from_tags G R C later fuel conf (gauged n t) ≡ (ok vs, gauged n t)
  unfolding get_versions_from_tags
  from_tags-again n s t vs =
      lift_last-again (gauged n) (get_tags G R C W fuel conf.repo)
        (get_tags G R C later fuel conf.repo) s t vs
        (λ u l. get_tags-again G R C c fuel W later conf.repo n s u l) _

  -- The end of GetVersions of the Helm provider.
  abbrev from_entries : List ChartVersion → Run (State C) (List String)
  from_entries entries = elim entries [
    | [] ↦ pure []
    | v ∷ vs ↦
        lift
          (select_versions G R (λ v. false) (chart_field G R C W fuel conf.strategy) conf (v ∷ vs))
  ]

  from_entries-keeps :
      (entries : List ChartVersion) (vs : List String) (u v : State C)
      → from_entries entries u ≡ (ok vs, v)
      → (v ≡ u) × (from_entries entries u ≡ (ok vs, u))
  from_entries-keeps [] vs u v q = (sym (ap (λ p. p.1) q), ap (λ p. (p.0, u)) q)
  from_entries-keeps (x ∷ xs) vs u v q = (sym (ap (λ p. p.1) q), ap (λ p. (p.0, u)) q)

  helm-again :
      (s t : State C) (vs : List String)
      → helm_get_versions G R C W fuel conf s ≡ (ok vs, t)
      → helm_get_versions G R C later fuel conf t ≡ (ok vs, t)
  unfolding helm_get_versions
  helm-again s t vs =
      bind-again (λ u. u) (get_index G R C W fuel conf.repo) (get_index G R C later fuel conf.repo)
        s t vs (λ u i. get_index-again G R C c fuel W later conf.repo u.rate_limit_remaining s u i)
        _ (λ i u v q. from_entries-keeps (entries_of G R C W fuel conf.chart i.entries) vs u v q)

  github-again :
      (n : ℕ) (s t : State C) (vs : List String)
      → later.rate_limits t.now ≡ some n
      → github_get_versions G R C W fuel conf s ≡ (ok vs, t)
      → github_get_versions G R C later fuel conf t ≡ (ok vs, gauged n t)
  unfolding github_get_versions
  github-again n s t vs up e =
      let (m, a, d) = continue-eq-ok (or_error (W.rate_limits s.now)) _ s t vs e in
      elim (Bool-cases (conf.strategy == github_strategy_releases)) [
        | inl r ↦ rw (up, r) (from_releases-again n (gauged m s) t vs (rw r at d))
        | inr nr ↦ elim (Bool-cases (conf.strategy == github_strategy_tags)) [
          | inl g ↦ rw (up, nr, g) (from_tags-again n (gauged m s) t vs (rw (nr, g) at d))
          | inr ng ↦ absurd (cc (ap (λ p. p.0) (rw (nr, ng) at d)))
        ]
      ]

  -- After GetVersions of the providers has returned versions, it returns the same versions at that
  -- time, from the cache, whatever the remote sources would answer then but for the rate limit of
  -- GitHub, which it asks for again, and changes nothing but the gauge of that limit.
  pub get_versions-again :
      (n : ℕ) (s t : State C) (vs : List String)
      → later.rate_limits t.now ≡ some n
      → get_versions G R C W fuel conf s ≡ (ok vs, t)
      → (m : ℕ) × (get_versions G R C later fuel conf t ≡ (ok vs, gauged m t))
  unfolding get_versions
  get_versions-again n s t vs up e = elim (Bool-cases (conf.provider == "" || conf.repo == "")) [
    | inl none_named ↦
        (t.rate_limit_remaining, rw none_named (ap (λ p. (p.0, t)) (rw none_named at e)))
    | inr ne ↦ elim (Bool-cases (conf.provider == "github")) [
      | inl g ↦ (n, rw (ne, g) (github-again n s t vs up (rw (ne, g) at e)))
      | inr ng ↦ elim (Bool-cases (conf.provider == "helm")) [
        | inl h ↦ (t.rate_limit_remaining, rw (ne, ng, h) (helm-again s t vs (rw (ne, ng, h) at e)))
        | inr nh ↦ absurd (cc (ap (λ p. p.0) (rw (ne, ng, nh) at e)))
      ]
    ]
  ]
