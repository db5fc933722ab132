-- ===== src/Infos/Tended.antt =====
-- What every state of the cache of controlplane/cache.go satisfies that reports, reconcilers and time
-- lead to, as Tending has it: a sound registry, with its reported versions and infos filed under their identifiers.
use opvic.Infos.Overview.{cached}
use opvic.Infos.Shown.{IsShownOnce}
use opvic.Registry.Collect.{stored}
use opvic.Prelude.{◌≡◌, sym, ap, List, [], ◌∷◌, String, Option, none, some, All, ◌∙◌, All2, ◌≢◌}
use mathlib.Core.Path.{subst}
use opvic.External.{GoVersion, GoCache}
use opvic.Api.{VersionInfos, SubjectVersion}
use opvic.Cache.{Value, State}
use opvic.Cache.Keys.{Key, IsAgentId, IsSlashFree, IsClean}
use opvic.Cache.Shapes.{subject_versions_of, subject_version_of, version_infos_of}
use opvic.Cache.Typed.{read}
use opvic.Registry.Machine.{IsSound}
use opvic.Provider.Fetching.{IsProviderKey}
use opvic.Infos.Filed.{IsFiled}

module _ (G : GoVersion) where
  -- A version whose identifier has no slashes, and whose running versions are shown as different
  -- texts.
  abbrev pub IsCleanVersion : SubjectVersion → Type 0
  IsCleanVersion v = IsSlashFree v.id × IsShownOnce G v

  abbrev pub AreCleanVersions : Option (List SubjectVersion) → Type 0
  AreCleanVersions none = Unit
  AreCleanVersions (some l) = All IsCleanVersion l

  -- Versions that are found under clean identifiers, which are theirs, are clean.
  pub found-AreClean :
      (f : String → Option SubjectVersion) (vs : List String) (xs : List SubjectVersion)
      → ((v : String)
          → IsSlashFree v
          → (x : SubjectVersion) → f v ≡ some x
          → (x.id ≡ v) × IsShownOnce G x)
      → All IsSlashFree vs
      → All2 (λ v x. f v ≡ some x) vs xs
      → All IsCleanVersion xs
  found-AreClean f [] [] h n m = tt
  found-AreClean f [] (x ∷ xs) h n m = absurd m
  found-AreClean f (v ∷ vs) [] h n m = absurd m
  found-AreClean f (v ∷ vs) (x ∷ xs) h (n, ns) (m, ms) =
      let (e, once) = h v n x m in
      ((subst IsSlashFree (sym e) n, once), found-AreClean f vs xs h ns ms)

  module _ (C : GoCache Value) where
    -- A sound state with its infos filed, in which the stored versions have the identifiers that
    -- they are stored under and show each running version once, and the versions collected under
    -- the agents are clean.
    pub record IsTended (s : State C) : Type 0 where
      pub sound : IsSound C s
      pub filed : IsFiled C s
      pub same_id :
          (a v : String)
          → IsAgentId a
          → IsSlashFree v
          → (x : SubjectVersion) → stored C s a v ≡ some x
          → (x.id ≡ v) × IsShownOnce G x
      pub collected :
          (a : String)
          → IsAgentId a
          → AreCleanVersions (subject_versions_of (read C s (Key.agent a)))

    pub IsTended-transfer :
        (s t : State C)
        → IsSound C t
        → ((a v : String) (x : VersionInfos)
            → IsAgentId a
            → IsSlashFree v
            → cached C t a v ≡ some x
            → cached C s a v ≡ some x)
        → ((a v : String) (x : SubjectVersion)
            → IsAgentId a
            → IsSlashFree v
            → stored C t a v ≡ some x
            → stored C s a v ≡ some x)
        → ((a : String)
            → IsAgentId a
            → AreCleanVersions (subject_versions_of (read C s (Key.agent a)))
            → AreCleanVersions (subject_versions_of (read C t (Key.agent a))))
        → IsTended s
        → IsTended t
    IsTended-transfer s t sound infos subjects views h = record {
      sound = sound;
      filed = record { filed = λ a v x i n e. h.filed.filed a v x i n (infos a v x i n e) };
      same_id = λ a v i n x e. h.same_id a v i n x (subjects a v x i n e);
      collected = λ a i. views a i (h.collected a i);
    }

    -- What holds of a state holds of one with the same under the keys of the reports and the infos.
    pub IsTended-same :
        (s t : State C)
        → IsSound C t
        → ((j : Key)
            → IsClean j
            → (IsProviderKey j → ⊥)
            → j ≢ Key.agent_list
            → read C t j ≡ read C s j)
        → IsTended s
        → IsTended t
    IsTended-same s t sound same =
        IsTended-transfer s t sound
          (λ a v x i n e.
            ap version_infos_of (sym (same (Key.info a v) (i, n) (λ q. q) (λ q. cc))) ∙ e)
          (λ a v x i n e.
            ap subject_version_of (sym (same (Key.subject a v) (i, n) (λ q. q) (λ q. cc))) ∙ e)
          (λ a i k. rw (same (Key.agent a) i (λ q. q) (λ q. cc)) k)
