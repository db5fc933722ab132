-- ===== src/Infos/Answers.antt =====
-- What becomes of one version in SubjectVersionInfoCacheReconcile of controlplane/cache.go.
use opvic.Prelude.{
  ℕ, ◌≡◌, ◌⊎◌, refl, ◌∙◌, List, map, String, Option, none, some, Outcome, ok, err, panic,
  unfinished, Error, In, inl, inr,
}
use opvic.External.{GoVersion, GoRegexp, GoCache}
use opvic.Api.{VersionInfos, SubjectVersion, list_ids}
use opvic.Registry.Machine.{registered_agents}
use opvic.Prelude.State.{Meets}
use opvic.Infos.{refresh, refresh_agent}
use opvic.Cache.{Value, State}
use opvic.Cache.Keys.{Key, IsAgentId, IsSlashFree}
use opvic.Cache.Shapes.{subject_versions_of}
use opvic.Cache.Typed.{read}
use opvic.Provider.{Sources, get_versions}
use opvic.Infos.Subject.{IsReport}
use opvic.Infos.Overview.{cached}
use opvic.Infos.Tended.{IsTended}

module _ (G : GoVersion) (C : GoCache Value) where
  -- The versions that are collected under an agent.
  abbrev pub view : State C → String → Option (List SubjectVersion)
  view s a = subject_versions_of (read C s (Key.agent a))

  abbrev pub IsIn : SubjectVersion → Option (List SubjectVersion) → Type 0
  IsIn ver none = ⊥
  IsIn ver (some l) = In ver l

  module _ (R : GoRegexp) (W : Sources) (fuel : ℕ)
      (order : List (ℕ × List G.Version) → List (ℕ × List G.Version)) (s0 : State C) where
    -- A version that is collected under a registered agent when the round starts.
    abbrev pub IsCollected : String → SubjectVersion → Type 0
    IsCollected a ver = In a (list_ids (registered_agents C s0)) × IsIn ver (view s0 a)

    -- The loops of the round that starts in `s0`, over the registered agents and the versions that
    -- are collected under each, come to a version of an agent in the state `asked`.
    pub record IsAsked (a : String) (ver : SubjectVersion) (asked : State C) : Type 0 where
      pub entered : State C
      pub agent_turn :
          Meets (refresh_agent C G R W fuel order) (list_ids (registered_agents C s0)) s0 a entered
      pub listed : List SubjectVersion
      pub collected : view s0 a ≡ some listed
      pub version_turn : Meets (refresh C G R W fuel order a) listed entered ver asked

    -- What holds of the states of the round that starts in `s0`.
    pub record IsDuring (t : State C) : Type 0 where
      pub tended : IsTended G C t
      pub clock : t.now ≡ s0.now
      pub views : (a : String) → IsAgentId a → view t a ≡ view s0 a

    abbrev pub answers : SubjectVersion → State C → Outcome (List String)
    answers ver u = (get_versions G R C W fuel ver.remote_version u).0

    -- The cache has infos of a version that this round has worked out, from what GetVersions has
    -- returned in it for a version collected under the agent.
    pub record IsComputed (a v : String) (t : State C) : Type 0 where
      pub infos : VersionInfos
      pub found : cached C t a v ≡ some infos
      pub ver : SubjectVersion
      pub member : IsCollected a ver
      pub same_id : ver.id ≡ v
      pub asked : State C
      pub called : IsAsked a ver asked
      pub during : IsDuring asked
      pub remotes : List String
      pub answered : answers ver asked ≡ ok remotes
      pub parsed : List G.Version
      pub texts : map G.original parsed ≡ remotes
      pub report : IsReport G a ver parsed infos

    -- No infos come of a version: GetVersions has returned an error, or a text does not parse.
    pub record IsRefused (a : String) (ver : SubjectVersion) : Type 0 where
      pub asked : State C
      pub called : IsAsked a ver asked
      pub during : IsDuring asked
      pub reason :
          ((e : Error) × (answers ver asked ≡ err e))
          ⊎ ((remotes : List String) × (answers ver asked ≡ ok remotes)
              × ((text : String) × (In text remotes
                    ⊎ In text (map (λ v. v.running_version) ver.versions))
                  × (G.new_version text ≡ none)))

    -- The round does not end here, since GetVersions does not.
    pub record IsStopped (a : String) (ver : SubjectVersion) (r : Outcome (Unit {0})) : Type 0 where
      pub asked : State C
      pub called : IsAsked a ver asked
      pub during : IsDuring asked
      pub reason :
          ((r ≡ panic) × (answers ver asked ≡ panic))
          ⊎ ((r ≡ unfinished) × (answers ver asked ≡ unfinished))

    abbrev pub IsServed : String → SubjectVersion → State C → Type 0
    IsServed a ver t = IsComputed a ver.id t ⊎ IsRefused a ver

    -- From one state of the round to a later one the infos stay, or are worked out.
    pub record IsOnward (s t : State C) : Type 0 where
      pub during : IsDuring t
      pub infos :
          (a v : String)
          → IsAgentId a
          → IsSlashFree v
          → (cached C t a v ≡ cached C s a v) ⊎ IsComputed a v t

    IsComputed-later :
        (a v : String) (s t : State C)
        → IsAgentId a
        → IsSlashFree v
        → IsOnward s t
        → IsComputed a v s
        → IsComputed a v t
    IsComputed-later a v s t i n h x = elim (h.infos a v i n) [
      | inr y ↦ y
      | inl e ↦ record {
        infos = x.infos;
        found = e ∙ x.found;
        ver = x.ver;
        member = x.member;
        same_id = x.same_id;
        asked = x.asked;
        called = x.called;
        during = x.during;
        remotes = x.remotes;
        answered = x.answered;
        parsed = x.parsed;
        texts = x.texts;
        report = x.report;
      }
    ]

    pub IsOnward-refl : (s : State C) → IsDuring s → IsOnward s s
    IsOnward-refl s h = record { during = h; infos = λ a v i n. inl refl }

    pub IsOnward-trans : (s t u : State C) → IsOnward s t → IsOnward t u → IsOnward s u
    IsOnward-trans s t u h k = record {
      during = k.during;
      infos = λ a v i n. elim (k.infos a v i n) [
        | inr x ↦ inr x
        | inl e ↦ elim (h.infos a v i n) [
          | inl q ↦ inl (e ∙ q)
          | inr x ↦ inr (IsComputed-later a v t u i n k x)
        ]
      ];
    }

    pub IsServed-later :
        (a : String) (ver : SubjectVersion) (s t : State C)
        → IsAgentId a
        → IsSlashFree ver.id
        → IsOnward s t
        → IsServed a ver s
        → IsServed a ver t
    IsServed-later a ver s t i n h (inl x) = inl (IsComputed-later a ver.id s t i n h x)
    IsServed-later a ver s t i n h (inr x) = inr x
