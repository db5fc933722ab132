-- ===== src/Agent.antt =====
-- Reconcile of agent/agent.go: one round for one tracker. What the API server answers, and whether
-- the control plane accepts a payload, are parameters.
pub mod Posting
pub mod Metrics
pub mod Namespaces
use opvic.Prelude.{
  ℕ, ◌+◌, Bool, true, false, ◌||◌, String, ◌==◌, Option, none, some, if◌then◌else◌, List, [], ◌∷◌,
  Outcome, ok, err, panic, unfinished, Error, external, ◌>>=◌, map, ◌++◌,
}
use opvic.External.{GoRegexp}
use opvic.Tracker.{VersionTracker, ObjectList, set_defaults, validate, get_object_list}
use opvic.Api.{AgentPayload}
use opvic.Extract.{JsonPath, SubjectVersion, get_items, extract_subject_version}
use opvic.Http.{prepare_the_payload}

-- Get of the tracker: there, not found, or another error.
pub data Fetched : Type 0 where
  tracker : VersionTracker → Fetched
  missing unavailable : Fetched

-- The options of a List of the Kubernetes client.
pub data ListOption : Type 0 where
  in_namespace matching_labels_selector : String → ListOption

-- `select` converts a label selector; `list_items` is List with its options; none is an error.
pub record Cluster (J : JsonPath) : Type 0 where
  pub get : Fetched
  pub select : String → Option String
  pub list_items : ObjectList → List ListOption → Option (List J.Resource)

-- The interval and the token are left out: the one is in Result, the other in the outcome of Post.
pub record Config : Type 0 where
  pub id : String
  pub tags : List (String × String)
  pub control_plane_url : String

-- Requeue after the interval, an empty result without an error, or an error.
pub data Result : Type 0 where
  requeue ignored : Result
  failed : Error → Result

-- `errors` counts reconciliationErrorsTotal.Inc; `posted` is the payload that was sent.
pub record Round : Type 0 where
  pub result : Result
  pub errors : ℕ
  pub posted : Option AgentPayload

-- An option for each namespace, and the selector.
unfoldable pub list_options : VersionTracker → String → List ListOption
list_options v selector =
    map in_namespace v.spec.resources.namespaces ++ matching_labels_selector selector ∷ []

abbrev pub give_up : Error → Outcome Round
give_up e = ok (record { result = failed e; errors = 1; posted = none })

abbrev pub has_none {ℓ} : {A : Type ℓ} → List A → Bool
has_none [] = true
has_none (x ∷ xs) = false

-- ShipToControlPlane, if there is a version and a URL. `send` is the outcome of Post: none, or an
-- error.
unfoldable pub ship : Config → (AgentPayload → Option Error) → SubjectVersion → ℕ → Round
ship config send sv errors =
    let payload = prepare_the_payload config.id config.tags sv in
    if has_none sv.versions || config.control_plane_url == ""
    then record { result = requeue; errors = errors; posted = none }
    else elim (send payload) [
      | none ↦ record { result = requeue; errors = errors; posted = some payload }
      | some e ↦ record { result = failed e; errors = errors + 1; posted = some payload }
    ]

module _ (J : JsonPath) (R : GoRegexp) (config : Config) (send : AgentPayload → Option Error) where
  unfoldable pub reconcile_items : VersionTracker → List J.Resource → Outcome Round
  unfolding ship
  reconcile_items v [] = ok (record { result = requeue; errors = 0; posted = none })
  reconcile_items v (i ∷ items) =
      extract_subject_version J R v (i ∷ items) >>= λ out. ok (ship config send out.0 out.1)

  unfoldable pub reconcile_tracker : Cluster J → VersionTracker → Outcome Round
  unfolding reconcile_items
  reconcile_tracker cluster v = elim (validate v) [
    | err e ↦ give_up e
    | panic ↦ panic
    | unfinished ↦ unfinished
    | ok u ↦ elim (cluster.select v.spec.resources.selector) [
      | none ↦ give_up external
      | some selector ↦ elim (get_object_list v) [
        | err e ↦ give_up e
        | panic ↦ panic
        | unfinished ↦ unfinished
        | ok kind ↦ elim (cluster.list_items kind (list_options v selector)) [
          | none ↦ give_up external
          | some items ↦ reconcile_items v (get_items (some kind) items)
        ]
      ]
    ]
  ]

  unfoldable pub reconcile : Cluster J → Outcome Round
  unfolding reconcile_tracker
  reconcile cluster = elim cluster.get [
    | missing ↦ ok (record { result = ignored; errors = 1; posted = none })
    | unavailable ↦ give_up external
    | tracker v ↦ reconcile_tracker cluster (set_defaults v)
  ]
