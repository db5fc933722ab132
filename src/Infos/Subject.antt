-- ===== src/Infos/Subject.antt =====
-- GetSubjectVersionInfos of controlplane/version.go, after the remote versions have been fetched.
use opvic.Prelude.{
  ℕ, List, [], ◌∷◌, ◌++◌, map, ◌≡◌, refl, ap, true, Bool, ◌↔◌, ◌⊎◌, inl, inr, some, none, In,
  Option-cases, String, ltb, ok, err, external, length, filter_bool, filter_bool-In, All2, In-map,
  map-eq-nil, Option,
}
use mathlib.Core.List.{append-nil, append_assoc}
use opvic.External.{GoVersion, HasSegments, IsOrdered, KeepsOriginal}
use opvic.Utils.{contains, first_occurrences}
use opvic.Utils.Seen.{add_new, add_all, add_all-eq-first_occurrences}
use opvic.Api
use opvic.Api.{SubjectVersion, VersionInfo, VersionInfos}
use opvic.Version.{
  Versions, latest, set_running_version, string_list, major_available, minor_available,
  patch_available,
}
use opvic.Version.Latest.{IsMaximum, latest-earliest-extremes}
use opvic.Version.Classes.{is_minor, is_patch, minors-ok, patches-ok, greater-ok}
use opvic.Version.Tops.{IsReordering}
use opvic.Version.Majors.{IsNewestPerMajor, last_majors-IsNewestPerMajor}
use opvic.Version.Availability.{string_list-In}
use opvic.Version.Parsing.{new_versions-Result}
use opvic.Infos.{version_info, info_loop, subject_infos, latest_text, missing_latest}

module _ (G : GoVersion) where
  -- The entry of one running version against the remote versions.
  pub record IsInfo (remotes : List G.Version) (latest : String) (v : Api.Version)
      (info : VersionInfo) : Type 0 where
    pub w : G.Version
    pub parsed : G.new_version v.running_version ≡ some w
    pub shown : info.running_version ≡ G.to_string w
    pub resource_count : info.resource_count ≡ v.resource_count
    pub resource_kind : info.resource_kind ≡ v.resource_kind
    pub extracted_from : info.extracted_from ≡ v.extracted_from
    pub latest_shown : info.latest_version ≡ latest
    pub versions :
        (s : String)
        → (contains info.available_versions s ≡ true)
          ↔ ((r : G.Version) × (In r remotes × (G.greater_than r w ≡ true)) × (G.original r ≡ s))
    pub majors : List G.Version
    pub majors_newest : IsNewestPerMajor G w remotes majors
    pub majors_shown :
        (s : String)
        → (contains info.available_majors s ≡ true)
          ↔ ((r : G.Version) × In r majors × (G.original r ≡ s))
    pub minors :
        (s : String)
        → (contains info.available_minors s ≡ true)
          ↔ ((r : G.Version) × (In r remotes × (is_minor G w r ≡ true)) × (G.original r ≡ s))
    pub patches :
        (s : String)
        → (contains info.available_patches s ≡ true)
          ↔ ((r : G.Version) × (In r remotes × (is_patch G w r ≡ true)) × (G.original r ≡ s))
    pub major_flag : info.major_available ≡ ltb 0 (length info.available_majors)
    pub minor_flag : info.minor_available ≡ ltb 0 (length info.available_minors)
    pub patch_flag : info.patch_available ≡ ltb 0 (length info.available_patches)

  module _ (s : HasSegments G) (o : IsOrdered G)
      (order : List (ℕ × List G.Version) → List (ℕ × List G.Version))
      (visits : IsReordering order) where
    string_list_filter :
        (v : Versions G) (q : G.Version → Bool) (t : String)
        → (contains
              (string_list G (record v { remote_versions = filter_bool q v.remote_versions }))
              t
            ≡ true)
          ↔ ((r : G.Version) × (In r v.remote_versions × (q r ≡ true)) × (G.original r ≡ t))
    string_list_filter v q t =
        let k = string_list-In G v (filter_bool q v.remote_versions) t in
        let f = filter_bool-In q v.remote_versions in
        (λ e. (let (r, i, p) = k.0 e in (r, (f r).0 i, p)), λ h. k.1 (h.0, (f h.0).1 h.1, h.2))

    abbrev with_running : Option G.Version → List G.Version → Versions G
    with_running w remotes = record { running_version = w; remote_versions = remotes }

    version_info-IsInfo :
        (remotes : List G.Version) (w : G.Version) (newest : String) (x : Api.Version)
        → G.new_version x.running_version ≡ some w
        → (info : VersionInfo) × (version_info G order (with_running (some w) remotes) newest x
            ≡ ok info)
          × IsInfo remotes newest x info
    unfolding version_info major_available minor_available patch_available
    version_info-IsInfo remotes w newest x p =
        let v = with_running (some w) remotes in
        let (majors, e, n) = last_majors-IsNewestPerMajor G s o order visits v w refl in
        (
          _,
          rw (greater-ok G s v w refl, e, minors-ok G s v w refl, patches-ok G s v w refl) refl,
          record {
            w = w;
            parsed = p;
            shown = refl;
            resource_count = refl;
            resource_kind = refl;
            extracted_from = refl;
            latest_shown = refl;
            versions = string_list_filter v (λ r. G.greater_than r w);
            majors = majors;
            majors_newest = n;
            majors_shown = string_list-In G v majors;
            minors = string_list_filter v (is_minor G w);
            patches = string_list_filter v (is_patch G w);
            major_flag = refl;
            minor_flag = refl;
            patch_flag = refl;
          },
        )

    info_loop-cases :
        (remotes : List G.Version) (newest : String) (vs : List Api.Version)
        → (w : Option G.Version) (infos : List VersionInfo) (seen : List String)
        → ((new : List VersionInfo) × (info_loop G order newest
                (with_running w remotes)
                vs
                infos
                seen
              ≡ ok (infos ++ new, add_all seen (map (λ v. v.running_version) vs)))
            × All2 (IsInfo remotes newest) vs new)
          ⊎ ((info_loop G order newest (with_running w remotes) vs infos seen ≡ err external)
              × ((v : Api.Version) × In v vs × (G.new_version v.running_version ≡ none)))
    unfolding info_loop set_running_version
    info_loop-cases remotes newest [] w infos seen = inl ([], rw append-nil refl, tt)
    info_loop-cases remotes newest (v ∷ vs) w infos seen =
        elim (Option-cases (G.new_version v.running_version)) [
          | inl bad ↦ inr (rw bad refl, (v, inl refl, bad))
          | inr (x, good) ↦
              let (info, e, h) = version_info-IsInfo remotes x newest v good in
              elim (info_loop-cases remotes newest vs (some x) (infos ++ info ∷ [])
                (add_new seen v.running_version)) [
                  | inl (new, q, k) ↦
                      inl (info ∷ new, rw (good, e, q) (rw append_assoc refl), (h, k))
                  | inr (q, (u, i, bad)) ↦ inr (rw (good, e) q, (u, inr i, bad))
                ]
        ]

  -- "missing", or the text of a greatest remote version.
  abbrev pub IsLatest : List G.Version → String → Type 0
  IsLatest remotes text =
      ((remotes ≡ []) × (text ≡ missing_latest))
      ⊎ ((m : G.Version) × IsMaximum G remotes m × (text ≡ G.to_string m))

  latest_text-cases :
      IsOrdered G
      → (v : Versions G) (remotes : List String) → map G.original v.remote_versions ≡ remotes
      → (text : String) × (latest_text G v remotes ≡ ok text) × IsLatest v.remote_versions text
  latest_text-cases o v [] e = (missing_latest, refl, inl (map-eq-nil _ _ e, refl))
  latest_text-cases o v (r ∷ rest) e =
      let extremes = latest-earliest-extremes G o v.remote_versions in
      elim (Option-cases (latest G v.remote_versions)) [
        | inl none_found ↦ absurd (cc (e, ap (map G.original) (extremes.0.0 none_found)))
        | inr (m, found) ↦
            (G.to_string m, rw (latest_text, found) refl, inr (m, extremes.2 m found, refl))
      ]

  -- What GetSubjectVersionInfos answers for the remote versions `remotes`.
  pub record IsReport (agent_id : String) (ver : SubjectVersion) (remotes : List G.Version)
      (infos : VersionInfos) : Type 0 where
    pub id : infos.id ≡ ver.id
    pub agent : infos.agent_id ≡ agent_id
    pub resource_count : infos.resource_count ≡ ver.resource_count
    pub provider : infos.remote_provider ≡ ver.remote_version.provider
    pub repo : infos.remote_repo ≡ ver.remote_version.repo
    pub latest : IsLatest remotes infos.latest_version
    pub running_versions :
        infos.running_versions ≡ first_occurrences [] (map (λ v. v.running_version) ver.versions)
    pub versions : All2 (IsInfo remotes infos.latest_version) ver.versions infos.versions

  module _ (s : HasSegments G) (o : IsOrdered G) (k : KeepsOriginal G)
      (order : List (ℕ × List G.Version) → List (ℕ × List G.Version))
      (visits : IsReordering order) where
    -- With the laws of go-version and for any order of the map: once the provider has returned
    -- `remotes`, GetSubjectVersionInfos does not panic. It reports on
    -- the parsed remote versions, with an entry for each running version in their order, the latest
    -- remote version, and each running version once; or it returns an error, and a remote version or
    -- a running version does not parse.
    pub subject_infos-IsReport :
        (agent_id : String) (ver : SubjectVersion) (remotes : List String)
        → ((parsed : List G.Version) × (infos : VersionInfos) × (subject_infos G order agent_id ver
                remotes
              ≡ ok infos)
            × (map G.original parsed ≡ remotes)
            × IsReport agent_id ver parsed infos)
          ⊎ ((subject_infos G order agent_id ver remotes ≡ err external)
              × ((text : String) × (In text remotes
                    ⊎ In text (map (λ v. v.running_version) ver.versions))
                  × (G.new_version text ≡ none)))
    unfolding subject_infos
    subject_infos-IsReport agent_id ver remotes = elim (new_versions-Result G k "" remotes) [
      | inr (t, i, bad, e) ↦
          inr (rw e refl, (t, elim i [ inl j ↦ inl j | inr j ↦ absurd (j.1 refl) ], bad))
      | inl (v, e, parsed, _, _) ↦
          let (newest, q, l) = latest_text-cases o v remotes parsed in
          elim (info_loop-cases s o order visits v.remote_versions newest ver.versions
            v.running_version [] []) [
              | inl (new, r, h) ↦ inl (
                v.remote_versions,
                _,
                rw (e, q, r) refl,
                parsed,
                record {
                  id = refl;
                  agent = refl;
                  resource_count = refl;
                  provider = refl;
                  repo = refl;
                  latest = l;
                  running_versions = add_all-eq-first_occurrences _;
                  versions = h;
                },
              )
              | inr (r, (u, i, bad)) ↦
                  inr (rw (e, q, r) refl, (u.running_version, inr (In-map _ _ u i), bad))
            ]
    ]
