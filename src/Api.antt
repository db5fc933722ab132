-- ===== src/Api.antt =====
-- controlplane/api/v1alpha1/api.go: what agents send and what the control plane answers. A map of
-- tags is a list of pairs; the counts, which the control plane only copies, are not negative.
use Prim.Native.String.{◌++◌}
use opvic.Prelude.{ℕ, Bool, List, map, String}
use opvic.Utils.{sort_strings}
use opvic.Tracker.{RemoteVersion}

abbrev pub api_version : String
api_version = "v1alpha1"

abbrev pub metrics_path : String
metrics_path = "/metrics"

abbrev pub ping_api_path : String
ping_api_path = "/ping"

abbrev pub agents_api_path : String
agents_api_path = "/agents"

abbrev pub agent_api_path : String
agent_api_path = "/agents/:id"

abbrev pub agents_subject_version_path : String
agents_subject_version_path = "/agents/:id/:versionId"

abbrev pub agents_subject_version_info_path : String
agents_subject_version_info_path = "/agents/:id/:versionId/versions"

abbrev pub overview_api_path : String
overview_api_path = "/overview"

abbrev pub api_group : String
api_group = "/api/" ++ api_version

abbrev pub get_api_endpoint : String → String
get_api_endpoint endpoint = api_group ++ endpoint

abbrev pub agents_api_endpoint : String
agents_api_endpoint = get_api_endpoint agents_api_path

pub record Agent : Type 0 where
  pub id : String
  pub tags : List (String × String)
  pub last_heartbeat : ℕ

unfoldable pub list_ids : List Agent → List String
list_ids a = sort_strings (map (λ agent. agent.id) a)

pub record Version : Type 0 where
  pub running_version : String
  pub resource_count : ℕ
  pub resource_kind : String
  pub extracted_from : String

pub record SubjectVersion : Type 0 where
  pub id : String
  pub namespace : String
  pub resource_count : ℕ
  pub running_versions : List String
  pub versions : List Version
  pub remote_version : RemoteVersion

pub record AgentPayload : Type 0 where
  pub agent_id : String
  pub agent_tags : List (String × String)
  pub version : SubjectVersion

pub record VersionInfo : Type 0 where
  pub running_version : String
  pub resource_count : ℕ
  pub resource_kind : String
  pub extracted_from : String
  pub latest_version : String
  pub available_versions : List String
  pub available_majors : List String
  pub available_minors : List String
  pub available_patches : List String
  pub major_available : Bool
  pub minor_available : Bool
  pub patch_available : Bool

pub record VersionInfos : Type 0 where
  pub id : String
  pub agent_id : String
  pub resource_count : ℕ
  pub running_versions : List String
  pub latest_version : String
  pub remote_provider : String
  pub remote_repo : String
  pub versions : List VersionInfo

unfoldable pub version_id_list : List VersionInfos → List String
version_id_list a = sort_strings (map (λ v. v.id) a)
