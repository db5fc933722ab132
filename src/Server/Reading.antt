-- ===== src/Server/Reading.antt =====
-- The handlers of controlplane/handlers.go and the collector of metrics write nothing to the cache.
use opvic.Prelude.{ℕ, List, arith, refl, String, Option-cases, inl, inr}
use opvic.Prelude.State.{IsReader, bind-IsReader}
use opvic.External.{GoCache, Exporter}
use opvic.Http.{Codec}
use opvic.Cache.{
  Value, get_agent_cache, get_subject_version_cache, get_subject_version_info_cache,
  get_agent_list_cache,
}
use opvic.Infos.{get_overall_version_infos}
use opvic.Infos.Reading.{
  get_agent_list_cache-IsReader, get_subject_version_info_cache-IsReader,
  get_overall_version_infos-IsReader,
}
use opvic.Metrics.{collect, set_version_metrics, set_agent_metrics}
use opvic.Registry.{
  agents_get, agent_get, agents_subject_version_get, agents_subject_versions_info_get,
}
use opvic.Server.{
  Web, Handler, prometheus_handler, ping, agents_post_handler, agents_get_handler,
  agent_get_handler, subject_version_get_handler, subject_versions_info_get_handler,
  overview_get_handler, Incoming, handle,
}

module _ (C : GoCache Value) where
  collect-IsReader : (P : Exporter) → IsReader (collect P C)
  unfolding collect set_version_metrics set_agent_metrics
  collect-IsReader P =
      bind-IsReader (set_version_metrics P C) _
        (bind-IsReader (get_overall_version_infos C) _ (get_overall_version_infos-IsReader C)
          (λ o s. refl))
        (λ v.
          bind-IsReader (set_agent_metrics P C) _
            (bind-IsReader (get_agent_list_cache C) _ (get_agent_list_cache-IsReader C)
              (λ o s. refl))
            (λ a s. refl))

  pub handle-IsReader :
      (W : Web) (P : Exporter) (D : Codec) (counts : List (String × String × ℕ)) (h : Handler)
      (param : String → String) (r : Incoming)
      → IsReader (handle W P C D counts h param r)
  unfolding handle agents_get agent_get agents_subject_version_get agents_subject_versions_info_get
      get_agent_cache get_subject_version_cache
  handle-IsReader W P D counts prometheus_handler param r =
      bind-IsReader (collect P C) _ (collect-IsReader P) (λ x s. refl)
  handle-IsReader W P D counts ping param r = λ s. refl
  handle-IsReader W P D counts agents_post_handler param r = λ s.
      elim (Option-cases (D.decode r.body)) [
        | inl e ↦ rw (handle, e) refl
        | inr (x, e) ↦ rw (handle, e) refl
      ]
  handle-IsReader W P D counts agents_get_handler param r =
      bind-IsReader (agents_get C) _
        (bind-IsReader (get_agent_list_cache C) _ (get_agent_list_cache-IsReader C) (λ x s. refl))
        (λ x s. refl)
  handle-IsReader W P D counts agent_get_handler param r = λ s. ground arith
  handle-IsReader W P D counts subject_version_get_handler param r = λ s. ground arith
  handle-IsReader W P D counts subject_versions_info_get_handler param r =
      bind-IsReader (agents_subject_versions_info_get C (param "id") (param "versionId")) _
        (bind-IsReader (get_subject_version_info_cache C (param "id") (param "versionId")) _
          (get_subject_version_info_cache-IsReader C (param "id") (param "versionId"))
          (λ x s. refl))
        (λ x s. refl)
  handle-IsReader W P D counts overview_get_handler param r =
      bind-IsReader (get_overall_version_infos C) _ (get_overall_version_infos-IsReader C)
        (λ x s. refl)
