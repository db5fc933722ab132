-- ===== src/Tracker.antt =====
-- agent/api/v1alpha1/versiontracker_types.go: the VersionTracker resource. The label selector, which
-- only the Kubernetes client reads, is a text, and the JSON tags are left out.
pub mod Defaults
use opvic.Prelude.{
  Bool, List, String, ◌==◌, if◌then◌else◌, Outcome, ok, err, field_selector_required,
  unsupported_resource,
}

pub record Regex : Type 0 where
  pub pattern : String
  pub result : String

pub record Extraction : Type 0 where
  pub regex : Regex

pub record LocalVersion : Type 0 where
  pub strategy : String
  pub field_selector : String
  pub extraction : Extraction

pub record RemoteVersion : Type 0 where
  pub provider : String
  pub strategy : String
  pub repo : String
  pub chart : String
  pub extraction : Extraction
  pub constraint : String

pub record Resources : Type 0 where
  pub strategy : String
  pub namespaces : List String
  pub selector : String

pub record VersionTrackerSpec : Type 0 where
  pub name : String
  pub resources : Resources
  pub local_version : LocalVersion
  pub remote_version : RemoteVersion

-- `namespace` and `name` are those of the ObjectMeta.
pub record VersionTracker : Type 0 where
  pub namespace : String
  pub name : String
  pub spec : VersionTrackerSpec

abbrev pub field_selection : String
field_selection = "FieldSelection"

abbrev pub image_tag : String
image_tag = "ImageTag"

abbrev pub helm_strategy_chart_version : String
helm_strategy_chart_version = "chartVersion"

abbrev pub helm_strategy_app_version : String
helm_strategy_app_version = "appVersion"

abbrev pub github_strategy_releases : String
github_strategy_releases = "releases"

abbrev pub github_strategy_tags : String
github_strategy_tags = "tags"

abbrev pub image_tag_defaults : LocalVersion
image_tag_defaults = record {
  strategy = "";
  field_selector = ".spec.containers[0].image";
  extraction = record { regex = record { pattern = ".*:(.*)$"; result = "$1" } };
}

-- The default of a field that is "".
abbrev pub or_default : String → String → String
or_default s d = if s == "" then d else s

abbrev pub get_name : VersionTracker → String
get_name v = v.spec.name

unfoldable pub get_resource_kind : VersionTracker → String
get_resource_kind v = v.spec.resources.strategy

unfoldable pub get_local_version : VersionTracker → LocalVersion
get_local_version v = v.spec.local_version

unfoldable pub validate : VersionTracker → Outcome (Unit {0})
validate v =
    if v.spec.local_version.strategy == image_tag
    then ok tt
    else if v.spec.local_version.field_selector == ""
    then err field_selector_required
    else ok tt

-- The assignments to the fields of `lv`.
abbrev pub fill : LocalVersion → LocalVersion
fill lv = record lv {
  field_selector = or_default lv.field_selector image_tag_defaults.field_selector;
  extraction = record {
    regex = record {
      pattern = or_default lv.extraction.regex.pattern image_tag_defaults.extraction.regex.pattern;
      result = or_default lv.extraction.regex.result image_tag_defaults.extraction.regex.result;
    };
  };
}

abbrev pub default_local : LocalVersion → LocalVersion
default_local lv = if lv.strategy == image_tag then fill lv else lv

unfoldable pub set_defaults : VersionTracker → VersionTracker
set_defaults v = record v {
  spec = record (v.spec) { local_version = default_local v.spec.local_version };
}

-- The kinds of client.ObjectList that the agent queries.
pub data ObjectList : Type 0 where
  node_list pod_list deployment_list daemon_set_list stateful_set_list replica_set_list : ObjectList
  cron_job_list job_list : ObjectList

unfoldable pub get_object_list : VersionTracker → Outcome ObjectList
get_object_list v =
    let strategy = v.spec.resources.strategy in
    if strategy == "Nodes"
    then ok node_list
    else if strategy == "Pods"
    then ok pod_list
    else if strategy == "Deployments"
    then ok deployment_list
    else if strategy == "DaemonSets"
    then ok daemon_set_list
    else if strategy == "StatefulSets"
    then ok stateful_set_list
    else if strategy == "ReplicaSets"
    then ok replica_set_list
    else if strategy == "CronJobs"
    then ok cron_job_list
    else if strategy == "Jobs"
    then ok job_list
    else err (unsupported_resource strategy)
