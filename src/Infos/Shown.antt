-- ===== src/Infos/Shown.antt =====
-- The running versions in the infos of GetSubjectVersionInfos of controlplane/version.go: the texts of
-- the parsed versions, which can be equal where the reported texts are not.
use opvic.Prelude.{
  ◌≡◌, refl, sym, ◌∙◌, List, [], ◌∷◌, map, String, some, ok, All2, inl, inr, ℕ, ok-injective,
}
use mathlib.Core.Path.{subst}
use opvic.External.{GoVersion, HasSegments, IsOrdered, KeepsOriginal}
use opvic.Utils.Sets.{IsDistinct}
use opvic.Api
use opvic.Api.{SubjectVersion, VersionInfo, VersionInfos}
use opvic.Version.Tops.{IsReordering}
use opvic.Infos.{subject_infos}
use opvic.Infos.Subject.{IsInfo, subject_infos-IsReport}

module _ (G : GoVersion) where
  abbrev AreParsed : List Api.Version → List G.Version → Type 0
  AreParsed vs ws = All2 (λ (v : Api.Version) w. G.new_version v.running_version ≡ some w) vs ws

  -- The running versions are different versions, as they are shown.
  pub record IsShownOnce (ver : SubjectVersion) : Type 0 where
    pub once : (ws : List G.Version) → AreParsed ver.versions ws → IsDistinct (map G.to_string ws)

  infos-shown :
      (remotes : List G.Version) (newest : String) (vs : List Api.Version)
      → (infos : List VersionInfo) → All2 (IsInfo G remotes newest) vs infos
      → (ws : List G.Version) × AreParsed vs ws
        × (map (λ e. e.running_version) infos ≡ map G.to_string ws)
  infos-shown remotes newest [] [] h = ([], tt, refl)
  infos-shown remotes newest [] (x ∷ xs) h = absurd h
  infos-shown remotes newest (v ∷ vs) [] h = absurd h
  infos-shown remotes newest (v ∷ vs) (x ∷ xs) (h, hs) =
      let (ws, p, e) = infos-shown remotes newest vs xs hs in
      (h.w ∷ ws, (h.parsed, p), rw (h.shown, e) refl)

  -- The infos are filed under the identifiers of the version and the agent, and show each running
  -- version once.
  abbrev pub IsOf : String → SubjectVersion → VersionInfos → Type 0
  IsOf agent ver x =
      (x.id ≡ ver.id)
      × (x.agent_id ≡ agent)
      × IsDistinct (map (λ (e : VersionInfo). e.running_version) x.versions)

  pub subject_infos-IsOf :
      HasSegments G
      → IsOrdered G
      → KeepsOriginal G
      → (order : List (ℕ × List G.Version) → List (ℕ × List G.Version)) → IsReordering order
      → (agent : String) (ver : SubjectVersion) (remotes : List String) (x : VersionInfos)
      → IsShownOnce ver
      → subject_infos G order agent ver remotes ≡ ok x
      → IsOf agent ver x
  subject_infos-IsOf s o k order visits agent ver remotes x once e =
      elim (subject_infos-IsReport G s o k order visits agent ver remotes) [
        | inr (bad, _) ↦ absurd (cc (e, bad))
        | inl (parsed, infos, q, _, r) ↦
            let same : infos ≡ x = ok-injective infos x (sym q ∙ e) in
            let (ws, p, shown) =
              infos-shown parsed infos.latest_version ver.versions infos.versions r.versions in
            subst
              (λ y.
                (y.id ≡ ver.id)
                × (y.agent_id ≡ agent)
                × IsDistinct (map (λ (e : VersionInfo). e.running_version) y.versions))
              same (r.id, r.agent, rw shown (once.once ws p))
      ]
