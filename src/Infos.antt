-- ===== src/Infos.antt =====
-- controlplane/version.go: what can be upgraded of a reported version, and the overviews; and the
-- reconcilers of controlplane/cache.go that call it. `order` is the order in which Go ranges over
-- the map of LastMajorsGreaterThan.
pub mod Subject
pub mod Kept
pub mod Reading
pub mod Overview
pub mod Filed
pub mod Shown
pub mod Tended
pub mod Tending
pub mod Refreshing
pub mod Answers
pub mod Rounds
pub mod Fresh
pub mod Reported
pub mod Upgrades
pub mod Reconcile
use opvic.Prelude.{
  ℕ, List, [], ◌∷◌, ◌++◌, map, String, ◌==◌, Option, none, some, if◌then◌else◌, Outcome, ok, err,
  panic, unfinished,
}
use opvic.Prelude
use opvic.Prelude.State.{Run, pure, lift, for_each, ◌>>=◌, ◌>>◌}
use opvic.External.{GoVersion, GoRegexp, GoCache}
use opvic.Utils.{contains, remove_duplicate_str}
use opvic.Api
use opvic.Api.{SubjectVersion, VersionInfo, VersionInfos, list_ids}
use opvic.Version.{
  Versions, versions_latest, new_versions, set_running_version, string_list, greater_than,
  last_majors_greater_than, minors_greater_than, patches_greater_than, major_available,
  minor_available, patch_available, running,
}
use opvic.Cache.{
  Value, State, get_agent_list_cache, get_agent_cache, get_agent_subject_version_list_cache,
  get_subject_version_info_cache, set_subject_version_info_cache,
}
use opvic.Registry.{agent_list_cache_reconcile, agent_cache_reconcile}
use opvic.Provider.{Sources, get_versions}

abbrev pub missing_latest : String
missing_latest = "missing"

module _ (G : GoVersion) where
  -- `subV.Latest().String()`, which panics on a nil version.
  abbrev pub latest_text : Versions G → List String → Outcome String
  latest_text sub_v [] = ok missing_latest
  latest_text sub_v (r ∷ remotes) = elim (versions_latest G sub_v) [
    | none ↦ panic
    | some v ↦ ok (G.to_string v)
  ]

module _ (G : GoVersion) (order : List (ℕ × List G.Version) → List (ℕ × List G.Version)) where
  -- The entry of one running version.
  unfoldable pub version_info : Versions G → String → Api.Version → Outcome VersionInfo
  version_info sub_v latest v = Prelude.◌>>=◌ (running G sub_v) λ w.
      Prelude.◌>>=◌ (greater_than G sub_v) λ newer.
        Prelude.◌>>=◌ (last_majors_greater_than G order sub_v) λ majors.
          Prelude.◌>>=◌ (minors_greater_than G sub_v) λ minors.
            Prelude.◌>>=◌ (patches_greater_than G sub_v) λ patches.
              Prelude.◌>>=◌ (major_available G order sub_v) λ major.
                Prelude.◌>>=◌ (minor_available G sub_v) λ minor.
                  Prelude.◌>>=◌ (patch_available G sub_v) λ patch. ok (record {
                    running_version = G.to_string w;
                    resource_count = v.resource_count;
                    resource_kind = v.resource_kind;
                    extracted_from = v.extracted_from;
                    latest_version = latest;
                    available_versions = string_list G newer;
                    available_majors = string_list G majors;
                    available_minors = string_list G minors;
                    available_patches = string_list G patches;
                    major_available = major;
                    minor_available = minor;
                    patch_available = patch;
                  })

  -- The loop over the running versions: the entries and the running versions so far.
  pub info_loop :
      String
      → Versions G
      → List Api.Version
      → List VersionInfo
      → List String
      → Outcome (List VersionInfo × List String)
  unfolding version_info
  info_loop latest sub_v [] infos running_versions = ok (infos, running_versions)
  info_loop latest sub_v (v ∷ rest) infos running_versions =
      Prelude.◌>>=◌ (set_running_version G sub_v v.running_version) λ sub_v.
        Prelude.◌>>=◌ (version_info sub_v latest v) λ info.
          info_loop latest sub_v rest (infos ++ info ∷ []) (
            if contains running_versions v.running_version
            then running_versions
            else running_versions ++ v.running_version ∷ [])

  -- GetSubjectVersionInfos after the provider has returned the remote versions.
  unfoldable pub subject_infos : String → SubjectVersion → List String → Outcome VersionInfos
  unfolding info_loop
  subject_infos agent_id ver remotes = Prelude.◌>>=◌ (new_versions G "" remotes) λ sub_v.
      Prelude.◌>>=◌ (latest_text G sub_v remotes) λ latest.
        Prelude.◌>>=◌ (info_loop latest sub_v ver.versions [] []) λ out. ok (record {
          id = ver.id;
          agent_id = agent_id;
          resource_count = ver.resource_count;
          running_versions = out.1;
          latest_version = latest;
          remote_provider = ver.remote_version.provider;
          remote_repo = ver.remote_version.repo;
          versions = out.0;
        })

module _ (C : GoCache Value) where
  -- The loop of GetAgentOverallVersionInfos.
  pub collect_infos : String → List String → Run (State C) (List VersionInfos)
  collect_infos agent_id [] = pure []
  collect_infos agent_id (subver_id ∷ rest) = do
    found ← get_subject_version_info_cache C agent_id subver_id
    later ← collect_infos agent_id rest
    elim found [ none ↦ pure later | some ver_info ↦ pure (ver_info ∷ later) ]

  unfoldable pub get_agent_overall_version_infos :
      String → Run (State C) (List String × List VersionInfos)
  unfolding collect_infos
  get_agent_overall_version_infos agent_id = do
    subver_ids ← get_agent_subject_version_list_cache C agent_id
    ver_infos ← collect_infos agent_id subver_ids
    pure (map (λ v. v.id) ver_infos, ver_infos)

  -- The first loop of GetOverallVersionInfos.
  pub all_version_ids : List String → Run (State C) (List String)
  all_version_ids [] = pure []
  all_version_ids (agent_id ∷ rest) = do
    ids ← get_agent_subject_version_list_cache C agent_id
    later ← all_version_ids rest
    pure (ids ++ later)

  -- The inner loop of the second: the agents that have infos of one version.
  pub infos_of_version : String → List String → Run (State C) (List VersionInfos)
  infos_of_version version_id [] = pure []
  infos_of_version version_id (agent_id ∷ rest) = do
    found ← get_subject_version_info_cache C agent_id version_id
    later ← infos_of_version version_id rest
    elim found [ none ↦ pure later | some ver_info ↦ pure (ver_info ∷ later) ]

  pub overall_infos : List String → List String → Run (State C) (List (String × List VersionInfos))
  unfolding infos_of_version
  overall_infos agent_ids [] = pure []
  overall_infos agent_ids (version_id ∷ rest) = do
    infos ← infos_of_version version_id agent_ids
    later ← overall_infos agent_ids rest
    pure ((version_id, infos) ∷ later)

  unfoldable pub get_overall_version_infos : Run (State C) (List (String × List VersionInfos))
  unfolding all_version_ids overall_infos
  get_overall_version_infos = do
    agents ← get_agent_list_cache C
    ids ← all_version_ids (list_ids agents)
    overall_infos (list_ids agents) (remove_duplicate_str ids)

  module _ (G : GoVersion) (R : GoRegexp) (W : Sources) (fuel : ℕ)
      (order : List (ℕ × List G.Version) → List (ℕ × List G.Version)) where
    unfoldable pub get_subject_version_infos : String → SubjectVersion → Run (State C) VersionInfos
    get_subject_version_infos agent_id ver = do
      remotes ← get_versions G R C W fuel ver.remote_version
      lift (subject_infos G order agent_id ver remotes)

    -- An error is logged and the loop goes on.
    abbrev pub caught : {A : Type 0} → Outcome A → State C → Outcome (Option A) × State C
    caught (ok a) t = (ok (some a), t)
    caught (err e) t = (ok none, t)
    caught panic t = (panic, t)
    caught unfinished t = (unfinished, t)

    abbrev pub catch : {A : Type 0} → Run (State C) A → Run (State C) (Option A)
    catch m s = caught (m s).0 (m s).1

    unfoldable pub refresh : String → SubjectVersion → Run (State C) (Unit {0})
    refresh agent ver = do
      found ← catch (get_subject_version_infos agent ver)
      elim found [
        | none ↦ pure tt
        | some ver_infos ↦ set_subject_version_info_cache C agent ver.id ver_infos
      ]

    unfoldable pub refresh_agent : String → Run (State C) (Unit {0})
    refresh_agent agent = do
      found ← get_agent_cache C agent
      elim found [ none ↦ pure tt | some appvers ↦ for_each appvers (refresh agent) ]

    unfoldable pub subject_version_info_cache_reconcile : Run (State C) (Unit {0})
    subject_version_info_cache_reconcile = do
      agents ← get_agent_list_cache C
      for_each (list_ids agents) refresh_agent

    unfoldable pub cache_reconcile : ℕ → Run (State C) (Unit {0})
    cache_reconcile expiration = do
      (λ s. (ok tt, record s { cache = C.delete_expired s.cache s.now }))
      agent_list_cache_reconcile C expiration
      agent_cache_reconcile C
      subject_version_info_cache_reconcile
