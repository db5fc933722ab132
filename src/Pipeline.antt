-- ===== src/Pipeline.antt =====
-- From the resources of a cluster to the answer about their upgrades: Reconcile of agent/agent.go,
-- Post of agent/shipper.go, AuthMiddleware and AgentsPost of controlplane, and then CacheReconcile
-- of controlplane/cache.go.
use opvic.Prelude.{
  ℕ, ◌≡◌, ◌≢◌, ◌<◌, refl, ◌∙◌, List, ◌∷◌, Option, none, some, ok, err, external, Outcome, ap, Error,
  Bool-cases, inl, inr, false, String, ◌==◌, eq_iff,
}
use opvic.Prelude.State.{◌>>◌, Run}
use opvic.External.{GoVersion, GoRegexp, GoCache, IsCache, HasSegments, IsOrdered, KeepsOriginal}
use opvic.Tracker.{VersionTracker, ObjectList, set_defaults, validate, get_object_list}
use opvic.Api.{AgentPayload}
use opvic.Extract.{JsonPath, SubjectVersion, extract_subject_version}
use opvic.Http.{Codec, prepare_the_payload, serve_agents_post, post}
use opvic.Http.Shipping.{post-accepted}
use opvic.Agent.{
  Cluster, tracker, reconcile, reconcile_tracker, reconcile_items, Config, requeue, ship, has_none,
  list_options,
}
use opvic.Agent.Posting.{get_items-all}
use opvic.Cache.{Value, State}
use opvic.Cache.Keys.{IsAgentId}
use opvic.Registry.Reports.{reported, agents_post-ok}
use opvic.Provider.{Sources}
use opvic.Version.Tops.{IsReordering}
use opvic.Infos.{cache_reconcile}
use opvic.Infos.Tended.{IsTended, IsCleanVersion}
use opvic.Infos.Upgrades.{IsConcluded, begin_round, agents_post-cache_reconcile-IsAnswered}

-- What an agent finds in its cluster: a tracker that is valid with its defaults, and resources.
pub record Finds {J : JsonPath} (cluster : Cluster J) (v : VersionTracker) (items : List J.Resource)
    : Type 0 where
  pub found : cluster.get ≡ tracker v
  pub valid : validate (set_defaults v) ≡ ok tt
  pub selector : String
  pub selected : cluster.select (set_defaults v).spec.resources.selector ≡ some selector
  pub kind : ObjectList
  pub known : get_object_list (set_defaults v) ≡ ok kind
  pub listed : cluster.list_items kind (list_options (set_defaults v) selector) ≡ some items

-- What Post returns to the agent; a control plane that does not answer is an error of the transport.
abbrev pub refusal : Outcome (Unit {0}) → Option Error
refusal (ok u) = none
refusal (err e) = some e
refusal _ = some external

module _ (J : JsonPath) (R : GoRegexp) (config : Config) (send : AgentPayload → Option Error) where
  reconcile-shipped :
      (cluster : Cluster J) (v : VersionTracker) (i : J.Resource) (items : List J.Resource)
      (sv : SubjectVersion) (errors : ℕ)
      → Finds cluster v (i ∷ items)
      → extract_subject_version J R (set_defaults v) (i ∷ items) ≡ ok (sv, errors)
      → reconcile J R config send cluster ≡ ok (ship config send sv errors)
  unfolding reconcile reconcile_tracker reconcile_items
  reconcile-shipped cluster v i items sv errors f extracted =
      rw
        (
          reconcile,
          f.found,
          reconcile_tracker,
          f.valid,
          f.selected,
          f.known,
          f.listed,
          get_items-all f.kind (i ∷ items),
          extracted,
        )
        refl

ship-accepted :
    (config : Config) (send : AgentPayload → Option Error) (p : AgentPayload) (sv : SubjectVersion)
    (errors : ℕ)
    → prepare_the_payload config.id config.tags sv ≡ p
    → has_none sv.versions ≡ false
    → config.control_plane_url ≢ ""
    → send p ≡ none
    → ship config send sv errors ≡ record { result = requeue; errors = errors; posted = some p }
unfolding ship
ship-accepted config send p sv errors prepared some_version url accepted =
    elim (Bool-cases (config.control_plane_url == "")) [
      | inl e ↦ absurd (url ((eq_iff _ _).0 e))
      | inr ne ↦ rw (some_version, ne, ap send prepared ∙ accepted, prepared) refl
    ]

-- Post of an agent to a control plane that has the token.
abbrev pub deliver :
    (C : GoCache Value) → Codec → String → Config → AgentPayload → Run (State C) (Unit {0})
deliver C D token config = post C D (serve_agents_post C D token) config.control_plane_url token

module _ (G : GoVersion) (g : HasSegments G) (o : IsOrdered G) (k : KeepsOriginal G)
    (C : GoCache Value) (c : IsCache C) (R : GoRegexp) (W : Sources) (fuel : ℕ)
    (order : List (ℕ × List G.Version) → List (ℕ × List G.Version)) (visits : IsReordering order)
    (J : JsonPath) (D : Codec) (token : String) (config : Config) where
  -- With the laws of go-version: an agent with an identifier without slashes that is not reserved
  -- and with the URL and the token of the control plane finds a tracker and resources, from which it
  -- extracts a version at least. Where the control plane decodes what the agent encodes, and is in a
  -- tended state, and the payload is clean: Reconcile posts the payload of the extracted subject
  -- version and requeues. Once it is posted and CacheReconcile has run, with an expiration that is
  -- not 0, the GET handler of the infos answers with a report on that version against what
  -- GetVersions has returned for it in that round, unless GetVersions has returned an error, or a
  -- text in its answer or a running version does not parse; or CacheReconcile ends as a call of
  -- GetVersions for a collected version does, which panics or does not end. These calls are
  -- those that the loops make, from the state to which the first two parts of CacheReconcile lead: each
  -- in the state in which they come to its version.
  pub reconcile-IsAnswered :
      (cluster : Cluster J) (v : VersionTracker) (first : J.Resource) (items : List J.Resource)
      (sv : SubjectVersion) (errors : ℕ) (p : AgentPayload) (i : IsAgentId p.agent_id)
      (n : IsCleanVersion G p.version) (body : String) (expiration : ℕ) (s : State C)
      → Finds cluster v (first ∷ items)
      → extract_subject_version J R (set_defaults v) (first ∷ items) ≡ ok (sv, errors)
      → has_none sv.versions ≡ false
      → config.control_plane_url ≢ ""
      → prepare_the_payload config.id config.tags sv ≡ p
      → D.encode p ≡ some body
      → D.decode body ≡ some p
      → 0 < expiration
      → IsTended G C s
      → (reconcile J R config (λ q. refusal (deliver C D token config q s).0) cluster
          ≡ ok (record { result = requeue; errors = errors; posted = some p }))
        × ((middle : State C) × ((deliver C D token config p >> begin_round C expiration) s
              ≡ (ok tt, middle))
            × IsTended G C middle
            × IsConcluded G C c p i n g o k R W fuel order visits middle
                ((deliver C D token config p >> cache_reconcile C G R W fuel order expiration) s))
  reconcile-IsAnswered cluster v first items sv errors p i n body expiration s finds extracted
        some_version url prepared encoded decoded positive tended =
      let stored = agents_post-ok C c p i n.0 s tended.sound.well_typed in
      let sent : deliver C D token config p s ≡ (ok tt, reported C c p s) =
        post-accepted C c D token config.control_plane_url p body s (reported C c p s) encoded
          decoded stored in
      let shipped : ship config (λ q. refusal (deliver C D token config q s).0) sv errors
          ≡ record { result = requeue; errors = errors; posted = some p } =
        ship-accepted config _ p sv errors prepared some_version url (ap (λ q. refusal q.0) sent) in
      let (middle, begun, kept, concluded) =
        agents_post-cache_reconcile-IsAnswered G C c p i n g o k R W fuel order visits expiration s
          positive tended in
      (
        reconcile-shipped J R config _ cluster v first items sv errors finds extracted
            ∙ ap ok shipped,
        (middle, rw sent (rw stored at begun), kept, rw sent (rw stored at concluded)),
      )
