-- ===== src/Infos/Kept.antt =====
-- What SubjectVersionInfoCacheReconcile of controlplane/cache.go does with the answer for one subject
-- version, and with the cached versions of one agent.
use opvic.Prelude.{ℕ, List, String, Option, none, some}
use opvic.Prelude.State.{Run, for_each, pure}
use opvic.External.{GoVersion, GoRegexp, GoCache}
use opvic.Api.{VersionInfos, SubjectVersion}
use opvic.Cache.{Value, State, set_subject_version_info_cache}
use opvic.Provider.{Sources}
use opvic.Infos.{refresh}

module _ (C : GoCache Value) (G : GoVersion) (R : GoRegexp) (W : Sources) (fuel : ℕ)
    (order : List (ℕ × List G.Version) → List (ℕ × List G.Version)) where
  abbrev pub keep : String → String → Option VersionInfos → Run (State C) (Unit {0})
  keep agent id none = pure tt
  keep agent id (some ver_infos) = set_subject_version_info_cache C agent id ver_infos

  abbrev pub refresh_all : String → Option (List SubjectVersion) → Run (State C) (Unit {0})
  refresh_all agent none = pure tt
  refresh_all agent (some appvers) = for_each appvers (refresh C G R W fuel order agent)
