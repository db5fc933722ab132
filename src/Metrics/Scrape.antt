-- ===== src/Metrics/Scrape.antt =====
-- What Collect of controlplane/metrics.go sends in a sound state.
use opvic.Cache.Typed.{get_agent_list_cache-ok}
use opvic.Cache.{Value, State}
use opvic.Registry.Machine.{IsSound, registered_agents}
use opvic.Prelude.{
  concat_map, ℕ, List, [], ◌∷◌, ◌++◌, refl, map, length, String, ◌==◌, if◌then◌else◌, ◌≡◌, ap, ◌∙◌,
  Bool-cases, sym, inl, inr, ok, Outcome,
}
use mathlib.Core.List.{append_assoc}
use opvic.External.{Desc, Sample, Exporter, IsExporter, GoCache}
use opvic.Api.{Agent, VersionInfo, VersionInfos, list_ids}
use opvic.Infos.{missing_latest}
use opvic.Infos.Overview.{overview, get_overall_version_infos-overview}
use opvic.Metrics.Tags.{tag_text, tags_text-join}
use opvic.Metrics.{
  join, common_values, version_resource_count_metric, available_major_version_metric,
  available_minor_version_metric, available_patch_version_metric, agent_metric, version_metrics,
  agent_metrics, collect_from, versions_metrics, collect, set_version_metrics, set_agent_metrics,
}

abbrev pub gauge : Desc → ℕ → List String → Sample
gauge d n values = record { desc = d; value = n; label_values = values }

-- The entries of an overview, each with the infos it stands in.
abbrev pub infos_entries : VersionInfos → List (VersionInfos × VersionInfo)
infos_entries i = map (λ v. (i, v)) i.versions

abbrev pub row_entries : String × List VersionInfos → List (VersionInfos × VersionInfo)
row_entries row = concat_map infos_entries row.1

abbrev pub entries : List (String × List VersionInfos) → List (VersionInfos × VersionInfo)
entries = concat_map row_entries

concat_map-single : {A B : Type 0} (f : A → B) (l : List A) → concat_map (λ x. f x ∷ []) l ≡ map f l
concat_map-single f [] = refl
concat_map-single f (x ∷ l) = ap (λ w. f x ∷ w) (concat_map-single f l)

module _ {A B : Type 0} (f : A → List B) where
  concat_map-append :
      (xs ys : List A) → concat_map f (xs ++ ys) ≡ concat_map f xs ++ concat_map f ys
  concat_map-append [] ys = refl
  concat_map-append (x ∷ xs) ys =
      rw (concat_map-append xs ys) (sym (append_assoc (f x) (concat_map f xs) (concat_map f ys)))

  concat_map-concat_map :
      {Z : Type 0} (g : Z → List A) (l : List Z)
      → concat_map f (concat_map g l) ≡ concat_map (λ z. concat_map f (g z)) l
  concat_map-concat_map g [] = refl
  concat_map-concat_map g (z ∷ l) =
      concat_map-append (g z) (concat_map g l)
      ∙ ap (λ w. concat_map f (g z) ++ w) (concat_map-concat_map g l)

  pub concat_map-map :
      {Z : Type 0} (g : Z → A) (l : List Z) → concat_map f (map g l) ≡ concat_map (λ z. f (g z)) l
  concat_map-map g [] = refl
  concat_map-map g (z ∷ l) = ap (λ w. f (g z) ++ w) (concat_map-map g l)

module _ (P : Exporter) where
  -- One sample if the latest version is missing, and else four.
  abbrev pub samples_of : VersionInfos × VersionInfo → List Sample
  samples_of (i, v) =
      let upgrades : Desc → List String → Sample =
        λ d vs. gauge d (length vs) (common_values P i v (join "," vs ∷ [])) in
      gauge version_resource_count_metric v.resource_count
        (common_values P i v (v.extracted_from ∷ v.latest_version ∷ []))
      ∷ (if v.latest_version == missing_latest
          then []
          else upgrades available_major_version_metric v.available_majors
            ∷ upgrades available_minor_version_metric v.available_minors
            ∷ upgrades available_patch_version_metric v.available_patches
            ∷ [])

  abbrev pub heartbeat : Agent → Sample
  heartbeat g =
      gauge agent_metric g.last_heartbeat
        (g.id ∷ join "," (map tag_text (P.visit_tags g.id g.tags)) ∷ [])

  module _ (p : IsExporter P) where
    version_metrics-ok :
        (i : VersionInfos) (v : VersionInfo) → version_metrics P i v ≡ ok (samples_of (i, v))
    unfolding version_metrics
    version_metrics-ok i v = elim (Bool-cases (v.latest_version == missing_latest)) [
      | inl e ↦ rw (p.consistent version_resource_count_metric v.resource_count _ refl, e) refl
      | inr n ↦
          rw
            (
              p.consistent version_resource_count_metric v.resource_count _ refl,
              n,
              p.consistent available_major_version_metric (length v.available_majors) _ refl,
              p.consistent available_minor_version_metric (length v.available_minors) _ refl,
              p.consistent available_patch_version_metric (length v.available_patches) _ refl,
            )
            refl
    ]

    agent_metrics-ok : (g : Agent) → agent_metrics P g ≡ ok (heartbeat g ∷ [])
    unfolding agent_metrics
    agent_metrics-ok g =
        rw
          (
            p.consistent agent_metric g.last_heartbeat _ refl,
            tags_text-join (P.visit_tags g.id g.tags),
          )
          refl

    collect_from-ok :
        {A : Type 0} (f : A → Outcome (List Sample)) (g : A → List Sample)
        → ((x : A) → f x ≡ ok (g x))
        → (l : List A) → collect_from f l ≡ ok (concat_map g l)
    unfolding collect_from
    collect_from-ok f g h [] = refl
    collect_from-ok f g h (x ∷ l) = rw (h x, collect_from-ok f g h l) refl

    versions_metrics-ok :
        (o : List (String × List VersionInfos))
        → versions_metrics P o ≡ ok (concat_map samples_of (entries o))
    unfolding versions_metrics
    versions_metrics-ok o =
        collect_from-ok _ (λ row. concat_map samples_of (row_entries row))
          (λ row.
            collect_from-ok _ (λ i. concat_map samples_of (infos_entries i))
              (λ i.
                collect_from-ok _ (λ v. samples_of (i, v)) (version_metrics-ok i) i.versions
                ∙ ap ok (sym (concat_map-map samples_of (λ v. (i, v)) i.versions)))
              row.1
            ∙ ap ok (sym (concat_map-concat_map samples_of infos_entries row.1)))
          o
        ∙ ap ok (sym (concat_map-concat_map samples_of row_entries o))

    -- In a sound state Collect does not panic and changes nothing. For each entry of the overview it
    -- sends the count of its resources, and, unless the latest version is missing, the numbers of
    -- the majors, minors and patches to upgrade to; then for each registered agent the time of its
    -- last report, with its tags as pairs that commas separate, in any order of the map. Each
    -- sample has as many label values as its descriptor has labels.
    pub collect-samples :
        (C : GoCache Value) (s : State C)
        → IsSound C s
        → collect P C s ≡ (
          ok (
              concat_map samples_of (entries (overview C s (list_ids (registered_agents C s))))
              ++ map heartbeat (registered_agents C s)),
          s,
        )
    unfolding collect set_version_metrics set_agent_metrics
    collect-samples C s h =
        let l = registered_agents C s in
        rw
          (
            (get_overall_version_infos-overview C s h).0,
            versions_metrics-ok (overview C s (list_ids l)),
            get_agent_list_cache-ok C s h.well_typed,
            collect_from-ok (agent_metrics P) (λ g. heartbeat g ∷ []) agent_metrics-ok l,
            concat_map-single heartbeat l,
          )
          refl
