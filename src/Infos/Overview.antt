-- ===== src/Infos/Overview.antt =====
-- The overviews of controlplane/version.go, which OverviewGet answers and the metrics are made of.
use opvic.Prelude.{
  somes, concat_map, ◌≡◌, refl, List, [], ◌∷◌, map, String, Option, ok, All, All-append,
  Option-cases, inl, inr,
}
use opvic.External.{GoCache}
use opvic.Utils.{remove_duplicate_str}
use opvic.Utils.Sets.{remove_duplicate_str-All}
use opvic.Api.{VersionInfos, list_ids}
use opvic.Cache.{Value, State}
use opvic.Cache.Keys.{Key, IsAgentId, IsSlashFree}
use opvic.Cache.Typed.{
  IsWellTyped, read, get_agent_list_cache-ok, get_versions_list-ok, get_info-ok,
}
use opvic.Cache.Shapes.{version_infos_of}
use opvic.Infos.{
  collect_infos, get_agent_overall_version_infos, all_version_ids, infos_of_version, overall_infos,
  get_overall_version_infos,
}
use opvic.Registry.Collect.{listed}
use opvic.Registry.Views.{IsListedClean}
use opvic.Registry.Machine.{IsSound, registered_agents, clean_ids}

module _ (C : GoCache Value) (s : State C) where
  -- The infos that the cache has on a version of an agent.
  abbrev pub cached : String → String → Option VersionInfos
  cached a v = version_infos_of (read C s (Key.info a v))

  -- For each version that an agent of the list has listed: the cached infos of it, by agent.
  abbrev pub overview : List String → List (String × List VersionInfos)
  overview ids =
      map (λ v. (v, somes (map (λ a. cached a v) ids)))
        (remove_duplicate_str (concat_map (listed C s) ids))

  pub listed-All :
      IsListedClean C s
      → (ids : List String) → All IsAgentId ids
      → All IsSlashFree (concat_map (listed C s) ids)
  listed-All clean [] h = tt
  listed-All clean (a ∷ ids) (i, h) =
      All-append IsSlashFree (listed C s a) (concat_map (listed C s) ids) (clean a i)
        (listed-All clean ids h)

  module _ (w : IsWellTyped C s) (clean : IsListedClean C s) where
    collect_infos-ok :
        (a : String) (vs : List String)
        → IsAgentId a
        → All IsSlashFree vs
        → collect_infos C a vs s ≡ (ok (somes (map (cached a) vs)), s)
    unfolding collect_infos
    collect_infos-ok a [] i h = refl
    collect_infos-ok a (v ∷ vs) i (n, h) =
        rw (get_info-ok C s w a v i n, collect_infos-ok a vs i h)
          (elim (Option-cases (cached a v)) [ inl e ↦ rw e refl | inr (x, e) ↦ rw e refl ])

    all_version_ids-ok :
        (ids : List String)
        → All IsAgentId ids
        → all_version_ids C ids s ≡ (ok (concat_map (listed C s) ids), s)
    unfolding all_version_ids
    all_version_ids-ok [] h = refl
    all_version_ids-ok (a ∷ ids) (i, h) =
        rw (get_versions_list-ok C s w a i, all_version_ids-ok ids h) refl

    infos_of_version-ok :
        (v : String) (ids : List String)
        → IsSlashFree v
        → All IsAgentId ids
        → infos_of_version C v ids s ≡ (ok (somes (map (λ a. cached a v) ids)), s)
    unfolding infos_of_version
    infos_of_version-ok v [] n h = refl
    infos_of_version-ok v (a ∷ ids) n (i, h) =
        rw (get_info-ok C s w a v i n, infos_of_version-ok v ids n h)
          (elim (Option-cases (cached a v)) [ inl e ↦ rw e refl | inr (x, e) ↦ rw e refl ])

    overall_infos-ok :
        (ids vs : List String)
        → All IsAgentId ids
        → All IsSlashFree vs
        → overall_infos C ids vs s ≡ (ok (map (λ v. (v, somes (map (λ a. cached a v) ids))) vs), s)
    unfolding overall_infos
    overall_infos-ok ids [] h k = refl
    overall_infos-ok ids (v ∷ vs) h (n, k) =
        rw (infos_of_version-ok v ids n h, overall_infos-ok ids vs h k) refl

  -- In a sound state the overviews do not panic and change nothing. That of an agent has the cached
  -- infos of its listed versions, in the order of the list. The overall one has an entry for each
  -- version that some registered agent lists, sorted and once, with the infos that the cache has of
  -- it, in the order of the agents' identifiers.
  pub get_overall_version_infos-overview :
      IsSound C s
      → (get_overall_version_infos C s ≡ (ok (overview (list_ids (registered_agents C s))), s))
        × ((a : String)
            → IsAgentId a
            → get_agent_overall_version_infos C a s
              ≡ (let l = somes (map (cached a) (listed C s a)) in (ok (map (λ v. v.id) l, l), s)))
  unfolding get_overall_version_infos get_agent_overall_version_infos
  get_overall_version_infos-overview h =
      let ids = list_ids (registered_agents C s) in
      let w = h.well_typed in
      let vs = concat_map (listed C s) ids in
      let k = clean_ids C s h in
      (
        rw
            (
              get_agent_list_cache-ok C s w,
              all_version_ids-ok w h.clean_versions ids k,
              overall_infos-ok w h.clean_versions ids (remove_duplicate_str vs) k
                  (remove_duplicate_str-All IsSlashFree vs (listed-All h.clean_versions ids k)),
            )
            refl,
        λ a i.
            rw
              (
                get_versions_list-ok C s w a i,
                collect_infos-ok w h.clean_versions a (listed C s a) i (h.clean_versions a i),
              )
              refl,
      )
