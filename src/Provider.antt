-- ===== src/Provider.antt =====
-- controlplane/providers: GetVersions of providers.go, github/github.go and helm/helm.go. What the
-- GitHub API, the HTTP client and the YAML decoder answer at a time is a parameter.
pub mod Matching
pub mod Selection
pub mod Paging
pub mod Cached
pub mod Repo
pub mod Fetching
pub mod Keeping
pub mod Repeat
use opvic.Prelude.{
  ℕ, zero, suc, Bool, true, false, ◌||◌, List, [], ◌∷◌, ◌++◌, String, ◌==◌, Option, none, some, eqb,
  if◌then◌else◌, Outcome, ok, err, panic, unfinished, external, unknown_provider,
  unsupported_strategy, empty_index, filter_outcome,
}
use opvic.Prelude
use opvic.Prelude.State.{Run, pure, lift, gets, ◌>>=◌, ◌>>◌}
use opvic.External.{GoVersion, GoRegexp, GoCache}
use opvic.Utils.{match_pattern, meet_constraint, or_error}
use opvic.Tracker.{
  RemoteVersion, github_strategy_releases, github_strategy_tags, helm_strategy_chart_version,
  helm_strategy_app_version,
}
use opvic.Remote.Github
use opvic.Remote.Github.{Release, Tag, split_repo}
use opvic.Remote.Helm
use opvic.Remote.Helm.{ChartVersion, Index, append_index}
use opvic.Cache.{Value, releases, tags, index, State, cache_get, cache_set, assert_found}

-- `none` is an error. A page of a listing has its items and the number of the next page, 0 after
-- the last one.
pub record Sources : Type 0 where
  pub rate_limits : ℕ → Option ℕ
  pub list_releases : ℕ → String → String → ℕ → Option (List Release × ℕ)
  pub list_tags : ℕ → String → String → ℕ → Option (List Tag × ℕ)
  pub http_get : ℕ → String → Option String
  pub unmarshal : String → Option Index

abbrev pub as_releases : Value → Outcome (List Release)
as_releases (releases l) = ok l
as_releases _ = panic

abbrev pub as_tags : Value → Outcome (List Tag)
as_tags (tags l) = ok l
as_tags _ = panic

abbrev pub as_index : Value → Outcome Index
as_index (index i) = ok i
as_index _ = panic

-- The loop over the pages of a listing, on fuel.
pub fetch_pages {ℓ} : {A : Type ℓ} → (ℕ → Option (List A × ℕ)) → ℕ → ℕ → List A → Outcome (List A)
fetch_pages list zero page items = unfinished
fetch_pages list (suc fuel) page items = elim (list page) [
  | none ↦ err external
  | some (more, next_page) ↦ elim (eqb next_page 0) [
    | true ↦ ok (items ++ more)
    | false ↦ fetch_pages list fuel next_page (items ++ more)
  ]
]

-- The loop that extracts a version from the text of each element that is not skipped.
pub match_all :
    (R : GoRegexp) {A : Type 0}
    → (A → Bool)
    → (A → String)
    → RemoteVersion
    → List A
    → Outcome (List String)
match_all R skip text conf [] = ok []
match_all R skip text conf (x ∷ rest) =
    let later = match_all R skip text conf rest in
    if skip x
    then later
    else Prelude.◌>>=◌
        (match_pattern R conf.extraction.regex.pattern conf.extraction.regex.result (text x))
        λ m. Prelude.◌>>=◌ later λ vs. ok (if m.0 then m.1 ∷ vs else vs)

module _ (G : GoVersion) (R : GoRegexp) where
  -- The loop over the constraint, which all three providers end with.
  pub constrain : RemoteVersion → List String → Outcome (List String)
  constrain conf matched_versions =
      if conf.constraint == ""
      then ok matched_versions
      else filter_outcome (meet_constraint G conf.constraint) matched_versions

  -- The two loops together.
  unfoldable pub select_versions :
      {A : Type 0} → (A → Bool) → (A → String) → RemoteVersion → List A → Outcome (List String)
  unfolding match_all constrain
  select_versions skip text conf items =
      Prelude.◌>>=◌ (match_all R skip text conf items) (constrain conf)

  module _ (C : GoCache Value) (W : Sources) (fuel : ℕ) where
    abbrev pub get_cache_value : String → Run (State C) (Option Value)
    get_cache_value = cache_get C

    abbrev pub set_cache_value : String → Value → Run (State C) (Unit {0})
    set_cache_value = cache_set C

    unfoldable pub get_releases : String → Run (State C) (List Release)
    unfolding fetch_pages
    get_releases repo = do
      found ← get_cache_value (Github.releases_cache_key repo)
      cached ← lift (assert_found as_releases found)
      elim cached [
        | some r ↦ pure r
        | none ↦ do
          parts ← lift (split_repo repo)
          now ← gets (λ s. s.now)
          r ← lift (fetch_pages (W.list_releases now parts.0 parts.1) fuel 0 [])
          set_cache_value (Github.releases_cache_key repo) (releases r)
          pure r
      ]

    unfoldable pub get_tags : String → Run (State C) (List Tag)
    unfolding fetch_pages
    get_tags repo = do
      found ← get_cache_value (Github.tags_cache_key repo)
      cached ← lift (assert_found as_tags found)
      elim cached [
        | some t ↦ pure t
        | none ↦ do
          parts ← lift (split_repo repo)
          now ← gets (λ s. s.now)
          t ← lift (fetch_pages (W.list_tags now parts.0 parts.1) fuel 0 [])
          set_cache_value (Github.tags_cache_key repo) (tags t)
          pure t
      ]

    unfoldable pub get_versions_from_releases : RemoteVersion → Run (State C) (List String)
    get_versions_from_releases conf = do
      items ← get_releases conf.repo
      lift
          (select_versions (λ release. release.tag_name == "") (λ release. release.name) conf items)

    unfoldable pub get_versions_from_tags : RemoteVersion → Run (State C) (List String)
    get_versions_from_tags conf = do
      items ← get_tags conf.repo
      lift (select_versions (λ tag. tag.name == "") (λ tag. tag.name) conf items)

    -- GetVersions of the GitHub provider sets the gauge, and then lists by the strategy.
    unfoldable pub github_get_versions : RemoteVersion → Run (State C) (List String)
    github_get_versions conf = do
      now ← gets (λ s. s.now)
      remaining ← lift (or_error (W.rate_limits now))
      (λ s. (ok tt, record s { rate_limit_remaining = remaining }))
      if conf.strategy == github_strategy_releases
          then get_versions_from_releases conf
          else if conf.strategy == github_strategy_tags
          then get_versions_from_tags conf
          else lift (err (unsupported_strategy conf.strategy))

    -- LoadIndex, of the text of the response.
    unfoldable pub load_index : String → Outcome Index
    load_index body = if body == "" then err empty_index else or_error (W.unmarshal body)

    unfoldable pub get_index : String → Run (State C) Index
    get_index repo = do
      key ← lift (Helm.releases_cache_key repo)
      found ← get_cache_value key
      cached ← lift (assert_found as_index found)
      elim cached [
        | some i ↦ pure i
        | none ↦ do
          now ← gets (λ s. s.now)
          body ← lift (or_error (W.http_get now (append_index repo)))
          i ← lift (load_index body)
          set_cache_value key (index i)
          pure i
      ]

    -- `index.Entries[chart]`, nil if it is not there.
    pub entries_of : String → List (String × List ChartVersion) → List ChartVersion
    entries_of chart [] = []
    entries_of chart ((k, vs) ∷ rest) = if k == chart then vs else entries_of chart rest

    -- The field that the strategy names, "" for another strategy.
    abbrev pub chart_field : String → ChartVersion → String
    chart_field strategy v =
        if strategy == helm_strategy_chart_version
        then v.version
        else if strategy == helm_strategy_app_version
        then v.app_version
        else ""

    unfoldable pub helm_get_versions : RemoteVersion → Run (State C) (List String)
    unfolding entries_of
    helm_get_versions conf = do
      i ← get_index conf.repo
      elim (entries_of conf.chart i.entries) [
        | [] ↦ pure []
        | v ∷ vs ↦ lift (select_versions (λ v. false) (chart_field conf.strategy) conf (v ∷ vs))
      ]

    unfoldable pub get_versions : RemoteVersion → Run (State C) (List String)
    get_versions conf =
        if conf.provider == "" || conf.repo == ""
        then pure []
        else if conf.provider == "github"
        then github_get_versions conf
        else if conf.provider == "helm"
        then helm_get_versions conf
        else lift (err (unknown_provider conf.provider))
