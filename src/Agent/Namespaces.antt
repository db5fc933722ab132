-- ===== src/Agent/Namespaces.antt =====
-- The list options of Reconcile of agent/agent.go, one for each namespace of a tracker.
use opvic.Prelude.{◌≡◌, refl, ap, ◌∙◌, List, [], ◌∷◌, ◌++◌, map, String, Option, some, ok}
use opvic.External.{GoRegexp}
use opvic.Api.{AgentPayload}
use opvic.Prelude.{Error}
use opvic.Tracker.{VersionTracker, ObjectList, set_defaults, validate, get_object_list}
use opvic.Extract.{JsonPath}
use opvic.Agent.{
  Cluster, Config, ListOption, in_namespace, matching_labels_selector, list_options, tracker,
  reconcile, reconcile_tracker, reconcile_items,
}
use opvic.Agent.Posting.{get_items-all}

-- The documented behaviour of the Kubernetes client: InNamespace sets the one namespace of a list,
-- so that of two in a row the second is in force.
pub record SetsNamespace {J : JsonPath} (cluster : Cluster J) : Type 0 where
  pub overrides :
      (kind : ObjectList) (a b : String) (options : List ListOption)
      → cluster.list_items kind (in_namespace a ∷ in_namespace b ∷ options)
        ≡ cluster.list_items kind (in_namespace b ∷ options)

set_defaults-resources : (v : VersionTracker) → (set_defaults v).spec.resources ≡ v.spec.resources
unfolding set_defaults
set_defaults-resources v = refl

module _ (J : JsonPath) (cluster : Cluster J) (k : SetsNamespace cluster) where
  last_option :
      (kind : ObjectList) (namespaces : List String) (n : String) (options : List ListOption)
      → cluster.list_items kind (map in_namespace (namespaces ++ n ∷ []) ++ options)
        ≡ cluster.list_items kind (in_namespace n ∷ options)
  last_option kind [] n options = refl
  last_option kind (a ∷ []) n options = k.overrides kind a n options
  last_option kind (a ∷ (b ∷ rest)) n options =
      k.overrides kind a b (map in_namespace (rest ++ n ∷ []) ++ options)
      ∙ last_option kind (b ∷ rest) n options

  list_options-last :
      (kind : ObjectList) (v : VersionTracker) (selector : String) (namespaces : List String)
      (n : String)
      → v.spec.resources.namespaces ≡ namespaces ++ n ∷ []
      → cluster.list_items kind (list_options v selector)
        ≡ cluster.list_items kind (in_namespace n ∷ matching_labels_selector selector ∷ [])
  unfolding list_options
  list_options-last kind v selector namespaces n e =
      rw e (last_option kind namespaces n (matching_labels_selector selector ∷ []))

  -- Where InNamespace sets the one namespace of a list, Reconcile of a tracker that is valid with
  -- its defaults works on what the last of its namespaces lists, and nothing that the others have.
  pub reconcile-last_namespace :
      (R : GoRegexp) (config : Config) (send : AgentPayload → Option Error) (v : VersionTracker)
      (kind : ObjectList) (selector : String) (namespaces : List String) (n : String)
      (items : List J.Resource)
      → cluster.get ≡ tracker v
      → validate (set_defaults v) ≡ ok tt
      → cluster.select v.spec.resources.selector ≡ some selector
      → get_object_list (set_defaults v) ≡ ok kind
      → v.spec.resources.namespaces ≡ namespaces ++ n ∷ []
      → cluster.list_items kind (in_namespace n ∷ matching_labels_selector selector ∷ [])
        ≡ some items
      → reconcile J R config send cluster ≡ reconcile_items J R config send (set_defaults v) items
  unfolding reconcile reconcile_tracker
  reconcile-last_namespace R config send v kind selector namespaces n items found valid selected
        known spread listed =
      let options : cluster.list_items kind (list_options (set_defaults v) selector) ≡ some items =
        list_options-last kind (set_defaults v) selector namespaces n
          (ap (λ r. r.namespaces) (set_defaults-resources v) ∙ spread)
        ∙ listed in
      let chosen : cluster.select (set_defaults v).spec.resources.selector ≡ some selector =
        ap (λ r. cluster.select r.selector) (set_defaults-resources v) ∙ selected in
      rw
        (
          reconcile,
          found,
          reconcile_tracker,
          valid,
          chosen,
          known,
          options,
          get_items-all kind items,
        )
        refl
