-- ===== src/Cache.antt =====
-- controlplane/cache.go: what the control plane keeps in its cache, under which keys. The cache holds
-- interface{} values: reading one at another type panics. An operation runs at one time, `now`.
pub mod Keys
pub mod Shapes
pub mod Typed
use Prim.Native.String.{◌++◌}
use opvic.Prelude.{
  ℕ, Bool, List, [], ◌∷◌, String, Option, none, some, Outcome, ok, panic, if◌then◌else◌, not,
}
use opvic.Prelude.State.{Run, pure, lift, ◌>>=◌, ◌>>◌}
use opvic.External.{GoCache}
use opvic.Utils.{contains}
use opvic.Api.{Agent, SubjectVersion, VersionInfos}
use opvic.Remote.Github.{Release, Tag}
use opvic.Remote.Helm.{Index}

pub data Value : Type 0 where
  agents : List Agent → Value
  subject_versions : List SubjectVersion → Value
  subject_version : SubjectVersion → Value
  version_infos : VersionInfos → Value
  strings : List String → Value
  releases : List Release → Value
  tags : List Tag → Value
  index : Index → Value

abbrev pub agent_list_cache_key : String
agent_list_cache_key = "agents/list"

unfoldable pub agent_cache_key : String → String
agent_cache_key agent_id = "agents/" ++ agent_id

unfoldable pub subject_version_cache_key : String → String → String
subject_version_cache_key agent_id version_id = agent_id ++ ("/" ++ version_id)

unfoldable pub subject_version_info_cache_key : String → String → String
subject_version_info_cache_key agent_id version_id =
    agent_id ++ ("/" ++ (version_id ++ "/versions"))

unfoldable pub agent_subject_version_list_cache_key : String → String
agent_subject_version_list_cache_key agent_id = agent_id ++ "/versions/list"

-- The type assertions.
abbrev pub as_agents : Value → Outcome (List Agent)
as_agents (agents l) = ok l
as_agents _ = panic

abbrev pub as_subject_versions : Value → Outcome (List SubjectVersion)
as_subject_versions (subject_versions l) = ok l
as_subject_versions _ = panic

abbrev pub as_subject_version : Value → Outcome SubjectVersion
as_subject_version (subject_version v) = ok v
as_subject_version _ = panic

abbrev pub as_version_infos : Value → Outcome VersionInfos
as_version_infos (version_infos v) = ok v
as_version_infos _ = panic

abbrev pub as_strings : Value → Outcome (List String)
as_strings (strings l) = ok l
as_strings _ = panic

-- A value that was found, at its type.
abbrev pub assert_found : {A : Type 0} → (Value → Outcome A) → Option Value → Outcome (Option A)
assert_found cast none = ok none
assert_found cast (some v) = elim (cast v) [ ok a ↦ ok (some a) | _ ↦ panic ]

-- The cache, the time, and the gauge of the GitHub rate limit.
pub record State (C : GoCache Value) : Type 0 where
  pub cache : C.Cache
  pub now : ℕ
  pub rate_limit_remaining : ℕ

module _ (C : GoCache Value) where
  abbrev pub cache_get : String → Run (State C) (Option Value)
  cache_get key s = (ok (C.get s.cache s.now key), s)

  abbrev pub cache_set : String → Value → Run (State C) (Unit {0})
  cache_set key v s = (ok tt, record s { cache = C.set s.cache s.now key v })

  unfoldable pub set_agent_cache : String → List SubjectVersion → Run (State C) (Unit {0})
  set_agent_cache agent_id l = cache_set (agent_cache_key agent_id) (subject_versions l)

  unfoldable pub get_agent_cache : String → Run (State C) (Option (List SubjectVersion))
  get_agent_cache agent_id = do
    found ← cache_get (agent_cache_key agent_id)
    lift (assert_found as_subject_versions found)

  unfoldable pub set_subject_version_cache :
      String → String → SubjectVersion → Run (State C) (Unit {0})
  set_subject_version_cache agent_id version_id v =
      cache_set (subject_version_cache_key agent_id version_id) (subject_version v)

  unfoldable pub get_subject_version_cache : String → String → Run (State C) (Option SubjectVersion)
  get_subject_version_cache agent version_id = do
    found ← cache_get (subject_version_cache_key agent version_id)
    lift (assert_found as_subject_version found)

  unfoldable pub set_subject_version_info_cache :
      String → String → VersionInfos → Run (State C) (Unit {0})
  set_subject_version_info_cache agent_id version_id v =
      cache_set (subject_version_info_cache_key agent_id version_id) (version_infos v)

  unfoldable pub get_subject_version_info_cache :
      String → String → Run (State C) (Option VersionInfos)
  get_subject_version_info_cache agent_id version_id = do
    found ← cache_get (subject_version_info_cache_key agent_id version_id)
    lift (assert_found as_version_infos found)

  unfoldable pub set_agent_list_cache : List Agent → Run (State C) (Unit {0})
  set_agent_list_cache l = cache_set agent_list_cache_key (agents l)

  abbrev or_empty {ℓ} : {A : Type ℓ} → Option (List A) → List A
  or_empty none = []
  or_empty (some l) = l

  unfoldable pub get_agent_list_cache : Run (State C) (List Agent)
  get_agent_list_cache = do
    found ← cache_get agent_list_cache_key
    l ← lift (assert_found as_agents found)
    pure (or_empty l)

  unfoldable pub set_agent_subject_version_list_cache :
      String → List String → Run (State C) (Unit {0})
  set_agent_subject_version_list_cache agent_id list =
      cache_set (agent_subject_version_list_cache_key agent_id) (strings list)

  unfoldable pub get_agent_subject_version_list_cache : String → Run (State C) (List String)
  get_agent_subject_version_list_cache agent_id = do
    found ← cache_get (agent_subject_version_list_cache_key agent_id)
    l ← lift (assert_found as_strings found)
    pure (or_empty l)
