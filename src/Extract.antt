-- ===== src/Extract.antt =====
-- agent/extract_version.go and agent/utils.go: the versions that the resources of a tracker run. A
-- resource is a parameter, and so is the library that evaluates a JSONPath expression on it.
pub mod Counts
pub mod Loop
pub mod Totals
use opvic.Prelude.{
  ℕ, ◌+◌, ◌≡◌, ◌||◌, List, [], ◌∷◌, ◌++◌, map, String, ◌==◌, Option, none, some, if◌then◌else◌,
  Outcome, ok, err, panic, length, ◌>>=◌,
}
use opvic.External.{GoRegexp}
use opvic.Utils.{contains, must_compile}
use opvic.Tracker.{
  ObjectList, node_list, pod_list, deployment_list, daemon_set_list, stateful_set_list,
  replica_set_list, cron_job_list, job_list, VersionTracker, RemoteVersion, LocalVersion,
  get_local_version, get_resource_kind,
}

-- k8s.io/client-go/util/jsonpath, with the relaxed form of kubectl. `none` is an error; a found
-- value is the text that `%v` prints.
pub record JsonPath : Type 1 where
  pub Resource : Type 0
  pub Template : Type 0
  pub relaxed : String → Option String
  pub parse : String → Option Template
  pub find_results : Template → Resource → Option (List (List String))

pub record Version : Type 0 where
  pub resource_count : ℕ
  pub resource_kind : String
  pub extracted_from : String
  pub version : String

pub record SubjectVersion : Type 0 where
  pub id : String
  pub namespace : String
  pub total_resource_count : ℕ
  pub uniq_versions : List String
  pub versions : List Version
  pub remote_version : RemoteVersion

-- The zero value.
abbrev pub no_remote : RemoteVersion
no_remote = record {
  provider = "";
  strategy = "";
  repo = "";
  chart = "";
  extraction = record { regex = record { pattern = ""; result = "" } };
  constraint = "";
}

abbrev pub no_subject_version : SubjectVersion
no_subject_version = record {
  id = "";
  namespace = "";
  total_resource_count = 0;
  uniq_versions = [];
  versions = [];
  remote_version = no_remote;
}

-- The items of a list of resources, each copied by its index; a kind that the switch does not know,
-- here none, has no items.
unfoldable pub get_items {ℓ} : {A : Type ℓ} → Option ObjectList → List A → List A
get_items (some node_list) items = items
get_items (some pod_list) items = items
get_items (some deployment_list) items = items
get_items (some daemon_set_list) items = items
get_items (some replica_set_list) items = items
get_items (some stateful_set_list) items = items
get_items (some cron_job_list) items = items
get_items (some job_list) items = items
get_items none items = []

-- What the loop over the resources has so far; `errors` counts reconciliationErrorsTotal.Inc.
pub record Found : Type 0 where
  pub versions : List String
  pub unique_versions : List String
  pub entries : List Version
  pub errors : ℕ

-- `t.ResourceCount++` for each version that is the entry's.
pub count : List String → String → ℕ
count [] s = 0
count (v ∷ vs) s = if s == v then count vs s + 1 else count vs s

abbrev pub counted : List String → Version → Version
counted versions t = record t { resource_count = t.resource_count + count versions t.version }

-- The append to the lists, and the entry of a version that is new.
abbrev pub add_found : String → Found → String → String → Found
add_found kind found field_value version = record found {
  versions = found.versions ++ version ∷ [];
  unique_versions =
      if contains found.unique_versions version
      then found.unique_versions
      else found.unique_versions ++ version ∷ [];
  entries =
      if contains found.unique_versions version
      then found.entries
      else found.entries
        ++ record {
          resource_count = 0;
          resource_kind = kind;
          extracted_from = field_value;
          version = version;
        }
          ∷ [];
}

abbrev pub add_error : Found → Found
add_error found = record found { errors = found.errors + 1 }

abbrev pub step : String → Found → Option (String × String) → Found
step kind found none = add_error found
step kind found (some (field_value, version)) = add_found kind found field_value version

module _ (J : JsonPath) (R : GoRegexp) where
  abbrev concat {ℓ} : {A : Type ℓ} → List (List A) → List A
  concat [] = []
  concat (l ∷ ls) = l ++ concat ls

  unfoldable pub get_feilds : String → J.Resource → Option (List String)
  get_feilds json_path resource = elim (J.relaxed json_path) [
    | none ↦ none
    | some fields ↦ elim (J.parse fields) [
      | none ↦ none
      | some j ↦ elim (J.find_results j resource) [
        | none ↦ none
        | some values ↦ some (concat values)
      ]
    ]
  ]

  -- Unlike the function of this name in utils/utils.go it has no case for an empty pattern.
  unfoldable pub get_results_from_regex : String → String → String → Outcome String
  get_results_from_regex pattern tmpl content =
      must_compile R pattern >>= λ regex. ok (R.expand regex tmpl content (R.find regex content))

  -- The value of the field and the version in it; none where the loop counts an error.
  pub extract_from : LocalVersion → Option (List String) → Outcome (Option (String × String))
  unfolding get_results_from_regex
  extract_from lv (some (field_value ∷ [])) =
      get_results_from_regex lv.extraction.regex.pattern lv.extraction.regex.result field_value
      >>= λ version. ok (if version == "" then none else some (field_value, version))
  extract_from lv _ = ok none

  unfoldable pub extract : LocalVersion → J.Resource → Outcome (Option (String × String))
  unfolding extract_from
  extract lv i = extract_from lv (get_feilds lv.field_selector i)

  pub extract_loop : LocalVersion → String → List J.Resource → Found → Outcome Found
  unfolding extract
  extract_loop lv kind [] found = ok found
  extract_loop lv kind (i ∷ items) found =
      extract lv i >>= λ e. extract_loop lv kind items (step kind found e)

  -- The subject version and the number of errors counted.
  unfoldable pub extract_subject_version :
      VersionTracker → List J.Resource → Outcome (SubjectVersion × ℕ)
  unfolding extract_loop count
  extract_subject_version v [] = ok (no_subject_version, 0)
  extract_subject_version v (i ∷ items) =
      extract_loop (get_local_version v) (get_resource_kind v) (i ∷ items)
        (record { versions = []; unique_versions = []; entries = []; errors = 0 })
      >>= λ found. ok (
        record {
          id = v.spec.name;
          namespace = v.namespace;
          total_resource_count = length (i ∷ items);
          uniq_versions = found.unique_versions;
          versions = map (counted found.versions) found.entries;
          remote_version = v.spec.remote_version;
        },
        found.errors,
      )
