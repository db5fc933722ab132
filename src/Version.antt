-- ===== src/Version.antt =====
-- controlplane/version/version.go: the versions of a subject and what can be upgraded to.
-- A nil *version.Version is `none`; reading through it panics.
pub mod Latest
pub mod Classes
pub mod Grouping
pub mod Tops
pub mod Majors
pub mod Availability
pub mod Parsing
use opvic.Prelude.{
  ℕ, Bool, true, false, not, ◌&&◌, List, [], ◌∷◌, ◌++◌, map, Option, none, some, String, ◌==◌, ltb,
  eqb, if◌then◌else◌, Outcome, ok, err, panic, ◌>>=◌, filter_outcome, index, and_then, length,
}
use opvic.External.{GoVersion}
use opvic.Utils.{or_error, remove_duplicate_str}

pub record Versions (G : GoVersion) : Type 0 where
  pub running_version : Option G.Version
  pub remote_versions : List G.Version

abbrev is_empty {ℓ} : {A : Type ℓ} → List A → Bool
is_empty [] = true
is_empty (x ∷ xs) = false

-- `uniqueMajorVersions[major] = append(uniqueMajorVersions[major], version)`
pub add_version {ℓ} : {A : Type ℓ} → ℕ → A → List (ℕ × List A) → List (ℕ × List A)
add_version major version [] = (major, version ∷ []) ∷ []
add_version major version ((k, versions) ∷ m) =
    if eqb k major
    then (k, versions ++ version ∷ []) ∷ m
    else (k, versions) ∷ add_version major version m

module _ (G : GoVersion) where
  -- The body of the loop of RemoteVersions.Latest, and of Earliest.
  abbrev later : Option G.Version → G.Version → Option G.Version
  later none version = some version
  later (some latest) version = if G.greater_than version latest then some version else some latest

  abbrev sooner : Option G.Version → G.Version → Option G.Version
  sooner none version = some version
  sooner (some earliest) version =
      if G.less_than version earliest then some version else some earliest

  pub latest_from : Option G.Version → List G.Version → Option G.Version
  latest_from latest [] = latest
  latest_from latest (version ∷ rest) = latest_from (later latest version) rest

  pub earliest_from : Option G.Version → List G.Version → Option G.Version
  earliest_from earliest [] = earliest
  earliest_from earliest (version ∷ rest) = earliest_from (sooner earliest version) rest

  unfoldable pub latest : List G.Version → Option G.Version
  unfolding latest_from
  latest r = latest_from none r

  unfoldable pub earliest : List G.Version → Option G.Version
  unfolding earliest_from
  earliest r = earliest_from none r

  abbrev pub get_running_version : Versions G → Option G.Version
  get_running_version v = v.running_version

  -- Latest and Earliest of the remote versions.
  abbrev pub versions_latest : Versions G → Option G.Version
  versions_latest v = latest v.remote_versions

  abbrev pub versions_earliest : Versions G → Option G.Version
  versions_earliest v = earliest v.remote_versions

  pub parse_all : List String → Outcome (List G.Version)
  parse_all [] = ok []
  parse_all (v ∷ rest) = do
    version ← or_error (G.new_version v)
    vers ← parse_all rest
    ok (version ∷ vers)

  abbrev pub parse_running : String → Outcome (Option G.Version)
  parse_running running =
      if running == "" then ok none else (do ver ← or_error (G.new_version running); ok (some ver))

  unfoldable pub new_versions : String → List String → Outcome (Versions G)
  unfolding parse_all
  new_versions running remotes =
      if is_empty remotes && running == ""
      then ok (record { running_version = none; remote_versions = [] })
      else do
        vers ← parse_all remotes
        running_ver ← parse_running running
        ok (record { running_version = running_ver; remote_versions = vers })

  unfoldable pub set_running_version : Versions G → String → Outcome (Versions G)
  set_running_version v ver = do
    version ← or_error (G.new_version ver)
    ok (record v { running_version = some version })

  unfoldable pub set_remote_versions : Versions G → List String → Outcome (Versions G)
  unfolding parse_all
  set_remote_versions v remotes = do
    vers ← parse_all remotes
    ok (record v { remote_versions = vers })

  unfoldable pub string_list : Versions G → List String
  string_list v = remove_duplicate_str (map G.original v.remote_versions)

  -- `v.RunningVersion` where it is read through.
  abbrev pub running : Versions G → Outcome G.Version
  running v = elim v.running_version [ none ↦ panic | some w ↦ ok w ]

  -- `version.Segments()[i]`
  abbrev pub segment : G.Version → ℕ → Outcome ℕ
  segment version i = index (G.segments version) i

  -- `version.Segments()[i] == v.RunningVersion.Segments()[i]`, and `>`
  abbrev pub same_segment : Versions G → ℕ → G.Version → Outcome Bool
  same_segment v i version = do a ← segment version i; w ← running v; b ← segment w i; ok (eqb a b)

  abbrev pub greater_segment : Versions G → ℕ → G.Version → Outcome Bool
  greater_segment v i version = do
    a ← segment version i
    w ← running v
    b ← segment w i
    ok (ltb b a)

  -- The three loops of this shape keep the running version and some of the remote versions.
  abbrev keep_remotes : Versions G → (G.Version → Outcome Bool) → Outcome (Versions G)
  keep_remotes v test = do
    vers ← filter_outcome test v.remote_versions
    ok (record v { remote_versions = vers })

  unfoldable pub greater_than : Versions G → Outcome (Versions G)
  greater_than v = keep_remotes v (λ version. running v >>= λ w. ok (G.greater_than version w))

  unfoldable pub minors_greater_than : Versions G → Outcome (Versions G)
  minors_greater_than v =
      keep_remotes v (λ version. and_then (same_segment v 0 version) (greater_segment v 1 version))

  unfoldable pub patches_greater_than : Versions G → Outcome (Versions G)
  patches_greater_than v = keep_remotes v (λ version.
      and_then (same_segment v 0 version)
        (and_then (same_segment v 1 version) (greater_segment v 2 version)))

  -- The loop that fills the map from majors to versions.
  pub group_from : List (ℕ × List G.Version) → List G.Version → Outcome (List (ℕ × List G.Version))
  group_from m [] = ok m
  group_from m (version ∷ rest) = do
    major ← segment version 0
    group_from (add_version major version m) rest

  -- The loop over the map, its entries in some order. No entry is empty, so Latest is not nil.
  pub latests : List (ℕ × List G.Version) → Outcome (List G.Version)
  unfolding latest
  latests [] = ok []
  latests ((major, versions) ∷ m) = do
    top ← elim (latest versions) [ none ↦ panic | some top ↦ ok top ]
    rest ← latests m
    ok (top ∷ rest)

  -- `order` is the order in which Go ranges over the map. The list `uniqueMajors` of the source
  -- only gives the map's initial capacity.
  module _ (order : List (ℕ × List G.Version) → List (ℕ × List G.Version)) where
    unfoldable pub last_majors_greater_than : Versions G → Outcome (Versions G)
    unfolding group_from latests add_version
    last_majors_greater_than v = do
      vers ← filter_outcome (greater_segment v 0) v.remote_versions
      unique_major_versions ← group_from [] vers
      unique_major_latests ← latests (order unique_major_versions)
      ok (record v { remote_versions = unique_major_latests })

    unfoldable pub major_available : Versions G → Outcome Bool
    major_available v = do
      majors ← last_majors_greater_than v
      ok (ltb 0 (length (string_list majors)))

  unfoldable pub minor_available : Versions G → Outcome Bool
  minor_available v = do minors ← minors_greater_than v; ok (ltb 0 (length (string_list minors)))

  unfoldable pub patch_available : Versions G → Outcome Bool
  patch_available v = do patches ← patches_greater_than v; ok (ltb 0 (length (string_list patches)))
