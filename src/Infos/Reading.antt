-- ===== src/Infos/Reading.antt =====
-- Reading the cache of controlplane/cache.go, as the overviews of controlplane/version.go do, writes
-- nothing, also when it panics.
use opvic.Prelude.{arith, refl, List, [], ◌∷◌, String}
use opvic.Prelude.State.{IsReader, bind-IsReader}
use opvic.External.{GoCache}
use opvic.Api.{list_ids}
use opvic.Cache.{
  Value, get_subject_version_info_cache, get_agent_list_cache, get_agent_subject_version_list_cache,
}
use opvic.Infos.{all_version_ids, infos_of_version, overall_infos, get_overall_version_infos}

module _ (C : GoCache Value) where
  pub get_agent_list_cache-IsReader : IsReader (get_agent_list_cache C)
  unfolding get_agent_list_cache
  get_agent_list_cache-IsReader s = ground arith

  versions_list-IsReader : (a : String) → IsReader (get_agent_subject_version_list_cache C a)
  unfolding get_agent_subject_version_list_cache
  versions_list-IsReader a s = ground arith

  pub get_subject_version_info_cache-IsReader :
      (a v : String) → IsReader (get_subject_version_info_cache C a v)
  unfolding get_subject_version_info_cache
  get_subject_version_info_cache-IsReader a v s = ground arith

  all_version_ids-IsReader : (ids : List String) → IsReader (all_version_ids C ids)
  unfolding all_version_ids
  all_version_ids-IsReader [] s = ground arith
  all_version_ids-IsReader (a ∷ ids) s =
      bind-IsReader (get_agent_subject_version_list_cache C a) _ (versions_list-IsReader a)
        (λ l. bind-IsReader (all_version_ids C ids) _ (all_version_ids-IsReader ids) (λ r u. refl))
        s

  infos_of_version-IsReader : (v : String) (ids : List String) → IsReader (infos_of_version C v ids)
  unfolding infos_of_version
  infos_of_version-IsReader v [] s = ground arith
  infos_of_version-IsReader v (a ∷ ids) s =
      bind-IsReader (get_subject_version_info_cache C a v) _
        (get_subject_version_info_cache-IsReader a v)
        (λ found.
          bind-IsReader (infos_of_version C v ids) _ (infos_of_version-IsReader v ids)
            (λ l u. ground arith))
        s

  overall_infos-IsReader : (ids vs : List String) → IsReader (overall_infos C ids vs)
  unfolding overall_infos
  overall_infos-IsReader ids [] s = ground arith
  overall_infos-IsReader ids (v ∷ vs) s =
      bind-IsReader (infos_of_version C v ids) _ (infos_of_version-IsReader v ids)
        (λ l.
          bind-IsReader (overall_infos C ids vs) _ (overall_infos-IsReader ids vs) (λ r u. refl))
        s

  pub get_overall_version_infos-IsReader : IsReader (get_overall_version_infos C)
  unfolding get_overall_version_infos
  get_overall_version_infos-IsReader =
      bind-IsReader (get_agent_list_cache C) _ get_agent_list_cache-IsReader (λ l.
        bind-IsReader (all_version_ids C (list_ids l)) _ (all_version_ids-IsReader (list_ids l))
          (λ ids. overall_infos-IsReader (list_ids l) _))
