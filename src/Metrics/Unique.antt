-- ===== src/Metrics/Unique.antt =====
-- No two samples that Collect of controlplane/metrics.go sends have one descriptor and the same
-- label values, which the metrics registry would refuse.
use opvic.Prelude.{
  ne_of_test, ◌≡◌, ◌≢◌, ◌⊎◌, refl, sym, ap, ◌∙◌, List, map, String, ◌==◌, ok, In, AllPairs,
  AllPairs-append, AllPairs-weaken, In-concat_map, concat_map-AllPairs, concat_map, In-somes,
  somes-AllPairs, somes, map-AllPairs, map-AllPairs_inverse, In-map_inverse, inl, inr, Bool-cases,
  false, All, All-In,
}
use opvic.External.{GoCache, Desc, Sample, Exporter, IsExporter}
use opvic.Api.{Agent, VersionInfo, VersionInfos, list_ids}
use opvic.Utils.{remove_duplicate_str}
use opvic.Cache.Keys.{IsAgentId, IsSlashFree}
use opvic.Registry.Views.{IsListedClean}
use opvic.Utils.Sets.{
  remove_duplicate_str-All, IsDistinct, IsDistinct-AllPairs, sort_strings-IsDistinct,
}
use opvic.Utils.Unique.{remove_duplicate_str-IsSortedSet}
use opvic.Cache.{Value, State}
use opvic.Infos.{missing_latest}
use opvic.Infos.Filed.{IsFiled}
use opvic.Infos.Overview.{overview, cached, listed-All}
use opvic.Registry.Collect.{listed}
use opvic.Registry.Fleet.{ids}
use opvic.Registry.Machine.{IsSound, registered_agents, clean_ids}
use opvic.Metrics.{common_values, collect}
use opvic.Metrics.Scrape.{
  samples_of, heartbeat, entries, row_entries, infos_entries, collect-samples, concat_map-map,
}

-- Two samples that differ in their descriptors or in their label values.
abbrev pub Apart : Sample → Sample → Type 0
Apart a b = (a.desc ≢ b.desc) ⊎ (a.label_values ≢ b.label_values)

-- Two entries that differ in the version, the agent or the running version.
abbrev Differ : VersionInfos × VersionInfo → VersionInfos × VersionInfo → Type 0
Differ (i, v) (j, w) =
    (i.id ≢ j.id) ⊎ (i.agent_id ≢ j.agent_id) ⊎ (v.running_version ≢ w.running_version)

desc-ne : (a b : Desc) → (a.fq_name.2 == b.fq_name.2) ≡ false → a ≢ b
desc-ne a b n = λ e. ne_of_test a.fq_name.2 b.fq_name.2 n (ap (λ (d : Desc). d.fq_name.2) e)

module _ (P : Exporter) where
  common_label_values :
      (e : VersionInfos × VersionInfo) (a : Sample)
      → In a (samples_of P e)
      → (more : List String) × (a.label_values ≡ common_values P e.0 e.1 more)
  common_label_values (i, v) a (inl e) = (_, ap (λ (x : Sample). x.label_values) e)
  common_label_values (i, v) a (inr m) = elim (Bool-cases (v.latest_version == missing_latest)) [
    | inl t ↦ absurd (rw t at m)
    | inr f ↦ elim (rw f at m) [
      | inl e ↦ (_, ap (λ (x : Sample). x.label_values) e)
      | inr (inl e) ↦ (_, ap (λ (x : Sample). x.label_values) e)
      | inr (inr (inl e)) ↦ (_, ap (λ (x : Sample). x.label_values) e)
      | inr (inr (inr e)) ↦ absurd e
    ]
  ]

  samples-AllPairs : (e : VersionInfos × VersionInfo) → AllPairs Apart (samples_of P e)
  samples-AllPairs (i, v) = elim (Bool-cases (v.latest_version == missing_latest)) [
    | inl t ↦ rw t (tt, tt)
    | inr f ↦ rw f (
      (inl (desc-ne _ _ refl), (inl (desc-ne _ _ refl), (inl (desc-ne _ _ refl), tt))),
      (
        (inl (desc-ne _ _ refl), (inl (desc-ne _ _ refl), tt)),
        ((inl (desc-ne _ _ refl), tt), (tt, tt)),
      ),
    )
  ]

  Differ-Apart :
      (e f : VersionInfos × VersionInfo)
      → Differ e f
      → (a b : Sample) → In a (samples_of P e)
      → In b (samples_of P f)
      → Apart a b
  Differ-Apart e f d a b m n =
      let (more, p) = common_label_values e a m in
      let (rest, q) = common_label_values f b n in
      elim d [
        | inl x ↦ inr (λ r. x (cc (p, q, r)))
        | inr (inl x) ↦ inr (λ r. x (cc (p, q, r)))
        | inr (inr x) ↦ inr (λ r. x (cc (p, q, r)))
      ]

module _ (C : GoCache Value) (s : State C) (f : IsFiled C s) where
  abbrev of_version : List String → String → List VersionInfos
  of_version agents v = somes (map (λ a. cached C s a v) agents)

  infos-Differ :
      (i : VersionInfos)
      → IsDistinct (map (λ e. e.running_version) i.versions)
      → AllPairs Differ (infos_entries i)
  infos-Differ i d =
      map-AllPairs (λ v. (i, v)) Differ i.versions
        (AllPairs-weaken i.versions (λ v w m n ne. inr (inr ne))
          (map-AllPairs_inverse (λ (e : VersionInfo). e.running_version) (λ a b. a ≢ b) i.versions
            (IsDistinct-AllPairs _ d)))

  -- Entries of infos of two agents.
  entry_agents :
      (i j : VersionInfos) (x y : VersionInfos × VersionInfo)
      → In x (infos_entries i)
      → In y (infos_entries j)
      → i.agent_id ≢ j.agent_id
      → x.0.agent_id ≢ y.0.agent_id
  entry_agents i j x y m n ne =
      let (_, _, e) = In-map_inverse (λ w. (i, w)) i.versions x m in
      let (_, _, e') = In-map_inverse (λ w. (j, w)) j.versions y n in
      λ r. ne (sym (ap (λ z. z.0.agent_id) e) ∙ r ∙ ap (λ z. z.0.agent_id) e')

  -- An entry of a row stands in infos of the row's version.
  entry_id :
      (agents : List String) (v : String) (p : VersionInfos × VersionInfo)
      → All IsAgentId agents
      → IsSlashFree v
      → In p (row_entries (v, of_version agents v))
      → p.0.id ≡ v
  entry_id agents v p k n m =
      let (i, j, l) = In-concat_map infos_entries (of_version agents v) p m in
      let (w, _, e) = In-map_inverse (λ w. (i, w)) i.versions p l in
      let (a, o, q) = In-somes (λ a. cached C s a v) agents i j in
      ap (λ x. x.0.id) e ∙ (f.filed a v i (All-In IsAgentId agents k a o) n q).0

  row-Differ :
      (agents : List String) (v : String)
      → All IsAgentId agents
      → IsSlashFree v
      → AllPairs (λ a b. a ≢ b) agents
      → AllPairs Differ (row_entries (v, of_version agents v))
  row-Differ agents v k n d =
      concat_map-AllPairs infos_entries Differ (of_version agents v)
        (λ i m.
          (let (a, o, q) = In-somes (λ a. cached C s a v) agents i m in
            infos-Differ i (f.filed a v i (All-In IsAgentId agents k a o) n q).2))
        (somes-AllPairs (λ a. cached C s a v) _ agents
          (AllPairs-weaken agents
            (λ a b o r ne i j p q x y m l. inr (
              inl (
                entry_agents i j x y m l (λ e. ne (
                  sym (f.filed a v i (All-In IsAgentId agents k a o) n p).1
                  ∙ e
                  ∙ (f.filed b v j (All-In IsAgentId agents k b r) n q).1)))))
            d))

  overview-Differ :
      (agents : List String)
      → All IsAgentId agents
      → IsListedClean C s
      → IsDistinct agents
      → AllPairs Differ (entries (overview C s agents))
  overview-Differ agents k clean d =
      let vs = remove_duplicate_str (concat_map (listed C s) agents) in
      let slash_free = remove_duplicate_str-All IsSlashFree _ (listed-All C s clean agents k) in
      rw (concat_map-map row_entries (λ v. (v, of_version agents v)) vs) (
        concat_map-AllPairs (λ v. row_entries (v, of_version agents v)) Differ vs
          (λ v m.
            row-Differ agents v k (All-In IsSlashFree vs slash_free v m)
              (IsDistinct-AllPairs agents d))
          (AllPairs-weaken vs
            (λ v w o r ne x y m n.
              let e = entry_id agents v x k (All-In IsSlashFree vs slash_free v o) m in
              let e' = entry_id agents w y k (All-In IsSlashFree vs slash_free w r) n in
              inl (λ q. ne (sym e ∙ q ∙ e')))
            (IsDistinct-AllPairs vs (remove_duplicate_str-IsSortedSet _).distinct)))

-- In a sound state, where the cache has under each agent and version infos of theirs with each
-- running version once, no two of the samples that Collect sends have one descriptor and the same
-- label values.
pub collect-AllPairs :
    (P : Exporter)
    → IsExporter P
    → (C : GoCache Value) (s : State C) → IsSound C s
    → IsFiled C s
    → (samples : List Sample) × (collect P C s ≡ (ok samples, s)) × AllPairs Apart samples
unfolding list_ids
collect-AllPairs P p C s h f =
    let l = registered_agents C s in
    let o = overview C s (list_ids l) in
    (
      _,
      collect-samples P p C s h,
      AllPairs-append Apart (concat_map (samples_of P) (entries o)) (map (heartbeat P) l)
          (concat_map-AllPairs (samples_of P) Apart (entries o) (λ e _. samples-AllPairs P e)
            (AllPairs-weaken (entries o) (λ x y _ _ d. Differ-Apart P x y d)
              (overview-Differ C s f (list_ids l) (clean_ids C s h) h.clean_versions
                (sort_strings-IsDistinct (ids l) h.distinct))))
          (map-AllPairs (heartbeat P) Apart l (
            AllPairs-weaken l (λ x y _ _ ne. inr (λ r. ne (cc r)))
              (map-AllPairs_inverse (λ (g : Agent). g.id) (λ a b. a ≢ b) l
                (IsDistinct-AllPairs (ids l) h.distinct))))
          (λ a b m n.
            (let (e, _, k) = In-concat_map (samples_of P) (entries o) a m in
              let (more, q) = common_label_values P e a k in
              let (g, _, r) = In-map_inverse (heartbeat P) l b n in inr (λ same. cc (q, r, same)))),
    )
