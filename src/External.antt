-- ===== src/External.antt =====
-- The code outside the repository that the program calls, as records of operations, and what the
-- program relies on of it, as records of laws: github.com/hashicorp/go-version, Go's regexp and
-- github.com/patrickmn/go-cache.
use mathlib.Core.List.{Permᴰ}
use opvic.Prelude.{
  ℕ, ◌≤◌, ◌≡◌, ◌⊎◌, Bool, true, false, Option, none, some, List, String, ◌==◌, length,
  if◌then◌else◌, Outcome, ok,
}

-- hashicorp/go-version. `none` is an error.
pub record GoVersion : Type 1 where
  pub Version : Type 0
  pub Constraints : Type 0
  pub new_version : String → Option Version
  pub new_constraint : String → Option Constraints
  pub check : Constraints → Version → Bool
  pub greater_than : Version → Version → Bool
  pub less_than : Version → Version → Bool
  pub segments : Version → List ℕ
  pub original : Version → String
  pub to_string : Version → String

-- "Segments returns the numeric segments of the version as a slice of ints"; a version with fewer
-- than three is padded with zeros.
pub record HasSegments (G : GoVersion) : Type 0 where
  pub three : (v : G.Version) → 3 ≤ length (G.segments v)

-- GreaterThan and LessThan are the two strict halves of one comparison, which is a weak order
-- (equal versions may differ in their build metadata).
pub record IsOrdered (G : GoVersion) : Type 0 where
  pub converse : (v w : G.Version) → G.greater_than v w ≡ G.less_than w v
  pub irreflexive : (v : G.Version) → G.less_than v v ≡ false
  pub cotransitive :
      (u v w : G.Version)
      → G.less_than u w ≡ true
      → (G.less_than u v ≡ true) ⊎ (G.less_than v w ≡ true)
  pub transitive :
      (u v w : G.Version) → G.less_than u v ≡ true → G.less_than v w ≡ true → G.less_than u w ≡ true

-- "Original returns the original parsed version as-is".
pub record KeepsOriginal (G : GoVersion) : Type 0 where
  pub original : (s : String) (v : G.Version) → G.new_version s ≡ some v → G.original v ≡ s

-- Go's regexp. `compile` is none where MustCompile panics; a search that finds nothing is none.
pub record GoRegexp : Type 1 where
  pub Regexp : Type 0
  pub Submatches : Type 0
  pub compile : String → Option Regexp
  pub find : Regexp → String → Option Submatches
  pub expand : Regexp → String → String → Option Submatches → String

-- patrickmn/go-cache with the default expiration. Each call has the time at which it is made;
-- `fresh t u` says that an item set at `t` has not expired at `u`.
pub record GoCache (V : Type 0) : Type 1 where
  pub Cache : Type 0
  pub fresh : ℕ → ℕ → Bool
  pub get : Cache → ℕ → String → Option V
  pub set : Cache → ℕ → String → V → Cache
  pub delete_expired : Cache → ℕ → Cache

pub record IsCache {V : Type 0} (C : GoCache V) : Type 0 where
  -- An item is there at the time when it is set.
  pub fresh_now : (t : ℕ) → C.fresh t t ≡ true
  -- Get returns what was last set under the key, until it expires.
  pub get-set :
      (c : C.Cache) (t u : ℕ) (k j : String) (v : V)
      → C.get (C.set c t k v) u j
        ≡ (if k == j then (if C.fresh t u then some v else none) else C.get c u j)
  -- DeleteExpired deletes nothing that Get could still return.
  pub get-delete_expired :
      (c : C.Cache) (t u : ℕ) (k : String) → t ≤ u → C.get (C.delete_expired c t) u k ≡ C.get c u k
  -- Time only makes items expire.
  pub get_later :
      (c : C.Cache) (t u : ℕ) (k : String) (v : V)
      → t ≤ u
      → C.get c u k ≡ some v
      → C.get c t k ≡ some v

-- prometheus/client_golang. The arguments of NewDesc, with those of BuildFQName for the name.
pub record Desc : Type 0 where
  pub fq_name : String × String × String
  pub help : String
  pub variable_labels : List String

-- A constant gauge.
pub record Sample : Type 0 where
  pub desc : Desc
  pub value : ℕ
  pub label_values : List String

-- `visit_tags` is the order in which Go ranges over the map of the tags of an agent, for its sample.
pub record Exporter : Type 0 where
  pub visit_tags : String → List (String × String) → List (String × String)
  pub must_new_const_metric : Desc → ℕ → List String → Outcome Sample

-- "NewConstMetric returns an error if the length of labelValues is not consistent with the variable
-- labels in Desc"; MustNewConstMetric panics on it.
pub record IsExporter (P : Exporter) : Type 0 where
  -- A range visits each entry once.
  pub visits : (id : String) (tags : List (String × String)) → Permᴰ (P.visit_tags id tags) tags
  pub consistent :
      (desc : Desc) (value : ℕ) (label_values : List String)
      → length desc.variable_labels ≡ length label_values
      → P.must_new_const_metric desc value label_values
        ≡ ok (record { desc = desc; value = value; label_values = label_values })
