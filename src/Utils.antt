-- ===== src/Utils.antt =====
-- utils/utils.go: tests on slices, sorted texts without duplicates, and extraction by a pattern.
pub mod Sets
pub mod Order
pub mod Unique
pub mod Build
pub mod Members
pub mod Counting
pub mod Seen
use mathlib.Core.Option.{Option, none, some}
use opvic.Prelude.{
  ℕ, Bool, true, false, not, ◌||◌, List, [], ◌∷◌, String, ◌==◌, eqb, str_leb, if◌then◌else◌,
  Outcome, ok, err, panic, Error, external, ◌>>=◌,
}
use opvic.External.{GoVersion, GoRegexp}

unfoldable pub contains : List String → String → Bool
contains [] s = false
contains (a ∷ l) s = a == s || contains l s

unfoldable pub contains_int : List ℕ → ℕ → Bool
contains_int [] i = false
contains_int (a ∷ l) i = eqb a i || contains_int l i

-- The loop of RemoveDuplicateStr: `all_keys` holds the keys of its map.
pub first_occurrences : List String → List String → List String
first_occurrences all_keys [] = []
first_occurrences all_keys (item ∷ rest) =
    let old = first_occurrences all_keys rest in
    let new = item ∷ first_occurrences (item ∷ all_keys) rest in
    if contains all_keys item then old else new

-- sort.Strings. Equal texts are one text, so any sorting algorithm gives this list.
pub insert : String → List String → List String
insert s [] = s ∷ []
insert s (t ∷ l) = if str_leb s t then s ∷ t ∷ l else t ∷ insert s l

unfoldable pub sort_strings : List String → List String
unfolding insert
sort_strings [] = []
sort_strings (s ∷ l) = insert s (sort_strings l)

unfoldable pub remove_duplicate_str : List String → List String
unfolding first_occurrences sort_strings contains
remove_duplicate_str str_slice = sort_strings (first_occurrences [] str_slice)

-- regexp.MustCompile
abbrev pub must_compile : (R : GoRegexp) → String → Outcome R.Regexp
must_compile R pattern = elim (R.compile pattern) [ none ↦ panic | some regex ↦ ok regex ]

module _ (R : GoRegexp) where
  unfoldable pub get_results_from_regex : String → String → String → Outcome String
  get_results_from_regex pattern tmpl content =
      if pattern == "" || tmpl == "" then ok content else do
        regex ← must_compile R pattern
        let matches = R.find regex content
        ok (R.expand regex tmpl content matches)

  unfoldable pub match_pattern : String → String → String → Outcome (Bool × String)
  match_pattern pattern tmpl version = do
    result ← get_results_from_regex pattern tmpl version
    ok (not (result == ""), result)

-- An error of a library call, or its value.
abbrev pub or_error {ℓ} : {A : Type ℓ} → Option A → Outcome A
or_error none = err external
or_error (some a) = ok a

module _ (G : GoVersion) where
  unfoldable pub meet_constraint : String → String → Outcome Bool
  meet_constraint constraint ver = do
    v ← or_error (G.new_version ver)
    constraints ← or_error (G.new_constraint constraint)
    ok (G.check constraints v)
