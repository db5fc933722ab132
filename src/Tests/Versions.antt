-- ===== src/Tests/Versions.antt =====
-- Witnesses on utils and on the versions of a subject.
use opvic.Tracker.{VersionTracker}
use mathlib.Core.List.Permᴰ
use mathlib.Core.List.{reverse}
use opvic.Prelude.{
  ℕ, List, [], ◌∷◌, map, ◌≡◌, ◌↔◌, refl, String, some, none, In, ok, Bool, true, ◌⊎◌, ◌<◌, ◌||◌,
  ◌≢◌, err, external,
}
use opvic.Utils.{remove_duplicate_str}
use opvic.Utils.Unique.{IsSortedSet, remove_duplicate_str_iff}
use opvic.Version.{
  Versions, latest, last_majors_greater_than, new_versions, string_list, minor_available,
  major_available, patch_available, greater_than, minors_greater_than, patches_greater_than,
}
use opvic.Version.Latest.{latest-earliest-extremes, IsMaximum}
use opvic.Version.Classes.{minors-patches-disjoint, CoreLess}
use opvic.Version.Tops.{IsReordering}
use opvic.Version.Majors.{IsNewestPerMajor, last_majors-IsNewestPerMajor}
use opvic.Version.Availability.{available_flags}
use opvic.Version.Parsing.{new_versions-Result, Running}
use opvic.Tests.Instances.{
  Digits, digits, digits-HasSegments, digits-IsOrdered, digits-KeepsOriginal,
  digits-ComparesSegments,
}

abbrev ver : ℕ → ℕ → ℕ → String → Digits
ver a b c s = record { major = a; minor = b; patch = c; text = s }

abbrev running : Digits
running = ver 1 7 0 "1.7.0"

abbrev remotes : List Digits
remotes =
    ver 1 7 1 "1.7.1"
    ∷ ver 2 0 0 "2.0.0"
    ∷ ver 1 8 0 "1.8.0"
    ∷ ver 2 1 0 "2.1.0"
    ∷ ver 3 0 0 "3.0.0"
    ∷ ver 1 6 0 "1.6.0"
    ∷ []

abbrev coredns : Versions digits
coredns = record { running_version = some running; remote_versions = remotes }

same_order : IsReordering {A = ℕ × List Digits} (λ m. m)
same_order m = Permᴰ.refl m

pub back_to_front : IsReordering {A = ℕ × List Digits} reverse
back_to_front m = Permᴰ.reverse m

majors_test :
    last_majors_greater_than digits reverse coredns
    ≡ ok (record coredns { remote_versions = ver 3 0 0 "3.0.0" ∷ ver 2 1 0 "2.1.0" ∷ [] })
unfolding last_majors_greater_than
majors_test = refl

remove_duplicate_str_iff_example :
    (remove_duplicate_str ("b" ∷ "a" ∷ "b" ∷ []) ≡ "a" ∷ "b" ∷ [])
    ↔ IsSortedSet ("b" ∷ "a" ∷ "b" ∷ []) ("a" ∷ "b" ∷ [])
remove_duplicate_str_iff_example = remove_duplicate_str_iff ("b" ∷ "a" ∷ "b" ∷ []) ("a" ∷ "b" ∷ [])

latest-earliest-extremes_example : IsMaximum digits remotes (ver 3 0 0 "3.0.0")
unfolding latest
latest-earliest-extremes_example =
    (latest-earliest-extremes digits digits-IsOrdered remotes).2 (ver 3 0 0 "3.0.0") refl

minors-patches-disjoint_example :
    (newer minors patches : List Digits) × (greater_than digits coredns
      ≡ ok (record coredns { remote_versions = newer }))
    × (minors_greater_than digits coredns ≡ ok (record coredns { remote_versions = minors }))
    × (patches_greater_than digits coredns ≡ ok (record coredns { remote_versions = patches }))
    × ((r : Digits) → In r newer ↔ (In r remotes × (digits.greater_than r running ≡ true)))
    × ((r : Digits) → In r minors ↔ (In r remotes × (r.major ≡ 1) × (7 < r.minor)))
    × ((r : Digits) → In r patches ↔ (In r remotes × (r.major ≡ 1) × (r.minor ≡ 7) × (0 < r.patch)))
    × ((r : Digits) → In r minors → In r newer)
    × ((r : Digits) → In r patches → In r newer)
    × ((r : Digits) → In r minors → ¬ In r patches)
minors-patches-disjoint_example =
    minors-patches-disjoint digits digits-HasSegments coredns running refl digits-ComparesSegments

last_majors-IsNewestPerMajor_example :
    (out : List Digits) × (last_majors_greater_than digits reverse coredns
      ≡ ok (record coredns { remote_versions = out }))
    × IsNewestPerMajor digits running remotes out
last_majors-IsNewestPerMajor_example =
    last_majors-IsNewestPerMajor digits digits-HasSegments digits-IsOrdered reverse back_to_front
      coredns running refl

available_flags_example :
    (major minor patch : Bool) × (major_available digits reverse coredns ≡ ok major)
    × (minor_available digits coredns ≡ ok minor)
    × (patch_available digits coredns ≡ ok patch)
    × ((major ≡ true) ↔ ((r : Digits) × In r remotes × (1 < r.major)))
    × ((minor ≡ true) ↔ ((r : Digits) × In r remotes × ((r.major ≡ 1) × (7 < r.minor))))
    × ((patch ≡ true)
        ↔ ((r : Digits) × In r remotes × ((r.major ≡ 1) × (r.minor ≡ 7) × (0 < r.patch))))
    × (((major || minor || patch) ≡ true)
        ↔ ((r : Digits) × In r remotes × CoreLess digits running r))
available_flags_example =
    available_flags digits digits-HasSegments digits-IsOrdered reverse back_to_front coredns running
      refl

new_versions-Result_example :
    ((v : Versions digits) × (new_versions digits "1.7.0" ("2.0.0" ∷ "1.8.0" ∷ []) ≡ ok v)
      × (map digits.original v.remote_versions ≡ "2.0.0" ∷ "1.8.0" ∷ [])
      × (string_list digits v ≡ remove_duplicate_str ("2.0.0" ∷ "1.8.0" ∷ []))
      × Running digits "1.7.0" v.running_version)
    ⊎ ((s : String) × (In s ("2.0.0" ∷ "1.8.0" ∷ [])
          ⊎ ((s ≡ "1.7.0") × (◌≢◌ {A = String} "1.7.0" "")))
        × (digits.new_version s ≡ none)
        × (new_versions digits "1.7.0" ("2.0.0" ∷ "1.8.0" ∷ []) ≡ err external))
new_versions-Result_example =
    new_versions-Result digits digits-KeepsOriginal "1.7.0" ("2.0.0" ∷ "1.8.0" ∷ [])

abbrev pub tracker : VersionTracker
tracker = record {
  namespace = "opvic";
  name = "coredns";
  spec = record {
    name = "coredns";
    resources = record {
      strategy = "Pods";
      namespaces = "kube-system" ∷ [];
      selector = "app=coredns";
    };
    local_version = record {
      strategy = "ImageTag";
      field_selector = "";
      extraction = record { regex = record { pattern = ""; result = "" } };
    };
    remote_version = record {
      provider = "github";
      strategy = "releases";
      repo = "coredns/coredns";
      chart = "";
      extraction = record { regex = record { pattern = "^v(.*)$"; result = "$1" } };
      constraint = "";
    };
  };
}
