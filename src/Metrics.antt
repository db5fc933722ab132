-- ===== src/Metrics.antt =====
-- controlplane/metrics.go: the descriptors, and the samples that Collect sends on its channel. A
-- count is sent as a float, which holds it exactly up to 2 ^ 53.
pub mod Tags
pub mod Scrape
pub mod Unique
use Prim.Native.String.{◌++◌}
use opvic.Prelude.{ℕ, List, [], ◌∷◌, length, String, ◌==◌, not, if◌then◌else◌, Outcome, ok, map}
use opvic.Prelude
use opvic.Prelude.State.{Run, lift, pure, ◌>>=◌, ◌>>◌}
use mathlib.Core.List
use opvic.External.{GoCache, Desc, Sample, Exporter}
use opvic.Api.{Agent, VersionInfo, VersionInfos}
use opvic.Cache.{Value, State, get_agent_list_cache}
use opvic.Infos.{missing_latest, get_overall_version_infos}

abbrev pub metric_namespace : String
metric_namespace = "opvic"

abbrev pub metric_subsystem : String
metric_subsystem = "controlplane"

abbrev pub common_labels : List String
common_labels =
    "version_id" ∷ "agent_id" ∷ "running_version" ∷ "resource_kind" ∷ "remote_provider"
    ∷ "remote_repo" ∷ []

abbrev pub new_metric : String → String → List String → List String → Desc
new_metric metric_name doc_string common_labels_names label_names = record {
  fq_name = (metric_namespace, metric_subsystem, metric_name);
  help = doc_string;
  variable_labels = List.◌++◌ common_labels_names label_names;
}

abbrev pub version_resource_count_metric : Desc
version_resource_count_metric =
    new_metric "version_resource_count" "Number of resources running with a specific version"
      common_labels ("extracted_from" ∷ "latest_version" ∷ [])

abbrev pub available_major_version_metric : Desc
available_major_version_metric =
    new_metric "major_versions_count" "Number of available major versions to upgrade to"
      common_labels ("available_major_versions" ∷ [])

abbrev pub available_minor_version_metric : Desc
available_minor_version_metric =
    new_metric "minor_versions_count" "Number of available minor versions to upgrade to"
      common_labels ("available_minor_versions" ∷ [])

abbrev pub available_patch_version_metric : Desc
available_patch_version_metric =
    new_metric "patch_versions_count" "Number of available patch versions to upgrade to"
      common_labels ("available_patch_versions" ∷ [])

abbrev pub agent_metric : Desc
agent_metric =
    new_metric "agent_last_heartbeat" "Last time the agent was seen" [] ("agent_id" ∷ "tags" ∷ [])

-- What Describe sends.
abbrev pub describe : List Desc
describe =
    version_resource_count_metric ∷ available_major_version_metric ∷ available_minor_version_metric
    ∷ available_patch_version_metric ∷ []

-- strings.Join
pub join : String → List String → String
join sep [] = ""
join sep (s ∷ []) = s
join sep (s ∷ (t ∷ l)) = s ++ (sep ++ join sep (t ∷ l))

-- The loop over the tags of an agent, in the order in which Go visits them: `tags` is the text so far.
pub tags_text : String → List (String × String) → String
tags_text tags [] = tags
tags_text tags ((key, value) ∷ rest) =
    tags_text ((if not (tags == "") then tags ++ "," else tags) ++ (key ++ ("=" ++ value))) rest

-- The samples of each element, one after the other.
pub collect_from : {A : Type 0} → (A → Outcome (List Sample)) → List A → Outcome (List Sample)
collect_from f [] = ok []
collect_from f (x ∷ l) =
    Prelude.◌>>=◌ (f x) λ here. Prelude.◌>>=◌ (collect_from f l) λ rest. ok (List.◌++◌ here rest)

module _ (P : Exporter) where
  -- The six labels that the four metrics of a version share.
  abbrev pub common_values : VersionInfos → VersionInfo → List String → List String
  common_values version_infos v more =
      version_infos.id ∷ version_infos.agent_id ∷ v.running_version ∷ v.resource_kind
      ∷ version_infos.remote_provider ∷ version_infos.remote_repo ∷ more

  -- The body of the innermost loop of setVersionMetrics.
  unfoldable pub version_metrics : VersionInfos → VersionInfo → Outcome (List Sample)
  unfolding join
  version_metrics version_infos v =
      Prelude.◌>>=◌
        (P.must_new_const_metric version_resource_count_metric v.resource_count
          (common_values version_infos v (v.extracted_from ∷ v.latest_version ∷ [])))
        λ count.
          if v.latest_version == missing_latest
          then ok (count ∷ [])
          else Prelude.◌>>=◌
              (P.must_new_const_metric available_major_version_metric (length v.available_majors)
                (common_values version_infos v (join "," v.available_majors ∷ [])))
              λ majors.
                Prelude.◌>>=◌
                  (P.must_new_const_metric available_minor_version_metric
                    (length v.available_minors)
                    (common_values version_infos v (join "," v.available_minors ∷ [])))
                  λ minors.
                    Prelude.◌>>=◌
                      (P.must_new_const_metric available_patch_version_metric
                        (length v.available_patches)
                        (common_values version_infos v (join "," v.available_patches ∷ [])))
                      λ patches. ok (count ∷ majors ∷ minors ∷ patches ∷ [])

  -- The loops over the overview, over the infos of each version, and over their entries.
  unfoldable pub versions_metrics : List (String × List VersionInfos) → Outcome (List Sample)
  unfolding collect_from version_metrics
  versions_metrics = collect_from λ row.
      collect_from
        (λ (version_infos : VersionInfos).
          collect_from (version_metrics version_infos) version_infos.versions)
        row.1

  unfoldable pub agent_metrics : Agent → Outcome (List Sample)
  unfolding tags_text
  agent_metrics agent =
      Prelude.◌>>=◌
        (P.must_new_const_metric agent_metric agent.last_heartbeat
          (agent.id ∷ tags_text "" (P.visit_tags agent.id agent.tags) ∷ []))
        λ sample. ok (sample ∷ [])

  module _ (C : GoCache Value) where
    unfoldable pub set_version_metrics : Run (State C) (List Sample)
    set_version_metrics = do
      aggregated_data ← get_overall_version_infos C
      lift (versions_metrics aggregated_data)

    unfoldable pub set_agent_metrics : Run (State C) (List Sample)
    unfolding collect_from
    set_agent_metrics = do agents ← get_agent_list_cache C; lift (collect_from agent_metrics agents)

    -- What Collect sends, under the lock.
    unfoldable pub collect : Run (State C) (List Sample)
    collect = do
      versions ← set_version_metrics
      agents ← set_agent_metrics
      pure (List.◌++◌ versions agents)
