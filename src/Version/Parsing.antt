-- ===== src/Version/Parsing.antt =====
-- NewVersions, SetRunningVersion and SetRemoteVersions of controlplane/version/version.go.
use opvic.Utils.{remove_duplicate_str}
use opvic.Prelude.{
  List, [], ◌∷◌, map, ◌≡◌, refl, ◌⊎◌, inl, inr, none, In, Option-cases, String, ok, err, external,
  ◌≢◌, ◌==◌, eq_iff, Bool-cases, ap, Option, Outcome, ◌>>=◌, some,
}
use opvic.External.{GoVersion, KeepsOriginal}
use opvic.Version.{parse_all, new_versions, string_list, Versions, parse_running}

module _ (G : GoVersion) where
  -- What a list of texts parses to, or a text of the list that does not parse.
  abbrev Parsed : List String → Type 0
  Parsed remotes =
      ((vs : List G.Version) × (parse_all G remotes ≡ ok vs)
        × (KeepsOriginal G → map G.original vs ≡ remotes))
      ⊎ ((s : String) × In s remotes
          × (G.new_version s ≡ none)
          × (parse_all G remotes ≡ err external))

  parse_all-cases : (remotes : List String) → Parsed remotes
  unfolding parse_all
  parse_all-cases [] = inl ([], refl, λ k. refl)
  parse_all-cases (s ∷ rest) = elim (Option-cases (G.new_version s)) [
    | inl bad ↦ inr (s, inl refl, bad, rw bad refl)
    | inr (v, good) ↦ elim (parse_all-cases rest) [
      | inl (vs, e, k) ↦ inl (v ∷ vs, rw (good, e) refl, λ o. cc (o.original s v good, k o))
      | inr (t, i, bad, e) ↦ inr (t, inr i, bad, rw (good, e) refl)
    ]
  ]

  -- The running version that a text stands for: none for "".
  abbrev pub Running : String → Option G.Version → Type 0
  Running running none = running ≡ ""
  Running running (some w) = (running ≢ "") × (G.new_version running ≡ some w)

  abbrev Result : String → List String → Outcome (Versions G) → Type 0
  Result running remotes out =
      ((v : Versions G) × (out ≡ ok v)
        × (map G.original v.remote_versions ≡ remotes)
        × (string_list G v ≡ remove_duplicate_str remotes)
        × Running running v.running_version)
      ⊎ ((s : String) × (In s remotes ⊎ ((s ≡ running) × (running ≢ "")))
          × (G.new_version s ≡ none)
          × (out ≡ err external))

  new_versions-cons :
      (running r : String) (rs : List String)
      → new_versions G running (r ∷ rs) ≡ (
          parse_all G (r ∷ rs) >>= λ vers. parse_running G running >>= λ running_ver.
          ok (record { running_version = running_ver; remote_versions = vers }))
  unfolding new_versions
  new_versions-cons running r rs = refl

  module _ (k : KeepsOriginal G) (running : String) (remotes : List String) where
    -- Both loops, without the shortcut for two empty arguments.
    parsed-Result : Result running remotes (
        parse_all G remotes >>= λ vers. parse_running G running >>= λ running_ver.
        ok (record { running_version = running_ver; remote_versions = vers }))
    unfolding string_list
    parsed-Result = elim (parse_all-cases remotes) [
      | inr (s, i, bad, e) ↦ inr (s, inl i, bad, rw e refl)
      | inl (vs, e, o) ↦ elim (Bool-cases (running == "")) [
        | inl blank ↦ inl (
          record { running_version = none; remote_versions = vs },
          rw (e, blank) refl,
          o k,
          ap remove_duplicate_str (o k),
          (eq_iff _ _).0 blank,
        )
        | inr given ↦
            let n : running ≢ "" = λ q. cc (given, (eq_iff running "").1 q) in
            elim (Option-cases (G.new_version running)) [
              | inl bad ↦ inr (running, inr (refl, n), bad, rw (e, given, bad) refl)
              | inr (w, good) ↦ inl (
                record { running_version = some w; remote_versions = vs },
                rw (e, given, good) refl,
                o k,
                ap remove_duplicate_str (o k),
                (n, good),
              )
            ]
      ]
    ]

  -- NewVersions never panics. It returns versions whose original texts are the given remotes, whose
  -- StringList is the sorted set of those and whose running version is that of the first argument
  -- (nil for ""), or it returns an error and one of the given texts does not parse.
  pub new_versions-Result :
      KeepsOriginal G
      → (running : String) (remotes : List String)
      → Result running remotes (new_versions G running remotes)
  unfolding new_versions
  new_versions-Result k running (r ∷ rs) = parsed-Result k running (r ∷ rs)
  new_versions-Result k running [] = elim (Bool-cases (running == "")) [
    | inl blank ↦ inl (
      record { running_version = none; remote_versions = [] },
      rw blank refl,
      refl,
      (unfold string_list in refl),
      (eq_iff _ _).0 blank,
    )
    | inr given ↦ rw given (rw given at (parsed-Result k running []))
  ]
