-- ===== src/Cache/Shapes.antt =====
-- The types of the values under each key of controlplane/cache.go: the values that a key reads, and
-- the type assertions that they pass.
use opvic.Prelude.{
  ◌≡◌, ◌⊎◌, refl, List, [], Option, none, some, ok, if◌then◌else◌, Bool, inl, inr, arith, String,
}
use opvic.Api.{Agent, SubjectVersion, VersionInfos}
use opvic.Cache.{
  Value, agents, subject_versions, subject_version, version_infos, strings, releases, tags, index,
  assert_found, as_agents, as_strings, as_subject_versions, as_subject_version, as_version_infos,
}
use opvic.Cache.Keys.{Key}

abbrev pub HasType : Key → Value → Type 0
HasType Key.agent_list (agents l) = Unit
HasType (Key.agent a) (subject_versions l) = Unit
HasType (Key.versions_of a) (strings l) = Unit
HasType (Key.subject a v) (subject_version x) = Unit
HasType (Key.info a v) (version_infos x) = Unit
HasType (Key.releases r) (releases l) = Unit
HasType (Key.tags r) (tags l) = Unit
HasType (Key.chart_index r) (index i) = Unit
HasType _ _ = ⊥

-- The values of a state at its types, empty where there is none.
abbrev pub agents_or : Option Value → List Agent
agents_or (some (agents l)) = l
agents_or _ = []

abbrev pub strings_or : Option Value → List String
strings_or (some (strings l)) = l
strings_or _ = []

abbrev pub subject_versions_of : Option Value → Option (List SubjectVersion)
subject_versions_of (some (subject_versions l)) = some l
subject_versions_of _ = none

abbrev pub subject_version_of : Option Value → Option SubjectVersion
subject_version_of (some (subject_version v)) = some v
subject_version_of _ = none

abbrev pub version_infos_of : Option Value → Option VersionInfos
version_infos_of (some (version_infos v)) = some v
version_infos_of _ = none

pub eq_of_fresh : (b : Bool) (v x : Value) → (if b then some v else none) ≡ some x → v ≡ x
eq_of_fresh b v x e = ground arith

-- Values of a type pass its assertion.
abbrev IsTyped : Key → Option Value → Type 0
IsTyped k o = (v : Value) → o ≡ some v → HasType k v

pub assert_agents :
    (o : Option Value)
    → IsTyped Key.agent_list o
    → (assert_found as_agents o ≡ ok none) × (agents_or o ≡ [])
      ⊎ (assert_found as_agents o ≡ ok (some (agents_or o)))
assert_agents none t = inl (refl, refl)
assert_agents (some (agents l)) t = inr refl
assert_agents (some v) t = absurd (t v refl)

pub assert_strings :
    (a : String) (o : Option Value)
    → IsTyped (Key.versions_of a) o
    → (assert_found as_strings o ≡ ok none) × (strings_or o ≡ [])
      ⊎ (assert_found as_strings o ≡ ok (some (strings_or o)))
assert_strings a none t = inl (refl, refl)
assert_strings a (some (strings l)) t = inr refl
assert_strings a (some v) t = absurd (t v refl)

pub assert_subject_versions :
    (a : String) (o : Option Value)
    → IsTyped (Key.agent a) o
    → assert_found as_subject_versions o ≡ ok (subject_versions_of o)
assert_subject_versions a none t = refl
assert_subject_versions a (some (subject_versions l)) t = refl
assert_subject_versions a (some v) t = absurd (t v refl)

pub assert_subject_version :
    (a i : String) (o : Option Value)
    → IsTyped (Key.subject a i) o
    → assert_found as_subject_version o ≡ ok (subject_version_of o)
assert_subject_version a i none t = refl
assert_subject_version a i (some (subject_version x)) t = refl
assert_subject_version a i (some v) t = absurd (t v refl)

pub assert_version_infos :
    (a i : String) (o : Option Value)
    → IsTyped (Key.info a i) o
    → assert_found as_version_infos o ≡ ok (version_infos_of o)
assert_version_infos a i none t = refl
assert_version_infos a i (some (version_infos x)) t = refl
assert_version_infos a i (some v) t = absurd (t v refl)
