-- ===== src/Infos/Rounds.antt =====
-- SubjectVersionInfoCacheReconcile of controlplane/cache.go as one round over the collected versions of
-- all agents.
use mathlib.Core.Path.{subst}
use opvic.Prelude.{
  ℕ, ◌≡◌, ◌⊎◌, refl, sym, ap, ◌∙◌, List, map, String, none, some, Outcome, ok, err, panic,
  unfinished, Error, In, inl, inr, external,
}
use opvic.Prelude.State.{continue, lift}
use opvic.External.{GoVersion, GoRegexp, GoCache, IsCache, HasSegments, IsOrdered, KeepsOriginal}
use opvic.Api.{VersionInfos, SubjectVersion}
use opvic.Cache.{Value, State, version_infos, set_subject_version_info_cache}
use opvic.Cache.Keys.{Key, IsAgentId, IsSlashFree}
use opvic.Cache.Shapes.{subject_versions_of, version_infos_of}
use opvic.Cache.Typed.{read-write_self}
use opvic.Provider.{Sources, get_versions}
use opvic.Provider.Keeping.{get_versions-IsSound, get_versions-clock}
use opvic.Version.Tops.{IsReordering}
use opvic.Infos.{refresh, get_subject_version_infos, subject_infos}
use opvic.Infos.Subject.{IsReport, subject_infos-IsReport}
use opvic.Infos.Filed.{filed_state, cached_after, other}
use opvic.Infos.Overview.{cached}
use opvic.Infos.Tended.{IsTended, IsCleanVersion}
use opvic.Infos.Refreshing.{answered-IsTended, refresh-IsTended}
use opvic.Infos.Answers.{
  IsAsked, IsCollected, IsDuring, IsComputed, IsStopped, IsServed, IsOnward, IsOnward-trans,
  answers,
}

module _ (G : GoVersion) (g : HasSegments G) (o : IsOrdered G) (k : KeepsOriginal G)
    (C : GoCache Value) (c : IsCache C) (R : GoRegexp) (W : Sources) (fuel : ℕ)
    (order : List (ℕ × List G.Version) → List (ℕ × List G.Version)) (visits : IsReordering order)
    (s0 : State C) where
  -- What GetSubjectVersionInfos makes of an answer of the provider.
  infos_of :
      String → SubjectVersion → Outcome (List String) → State C → Outcome VersionInfos × State C
  infos_of a ver r t = continue r (λ remotes. lift (subject_infos G order a ver remotes)) t

  infos_of-cases :
      (a : String) (ver : SubjectVersion) (r : Outcome (List String)) (t : State C)
      → ((x : VersionInfos) × (remotes : List String) × (parsed : List G.Version) × (infos_of a ver
              r t
            ≡ (ok x, t))
          × (r ≡ ok remotes)
          × (map G.original parsed ≡ remotes)
          × IsReport G a ver parsed x)
        ⊎ ((e : Error) × (infos_of a ver r t ≡ (err e, t))
            × (((x : Error) × (r ≡ err x))
                ⊎ ((remotes : List String) × (r ≡ ok remotes)
                    × ((text : String) × (In text remotes
                          ⊎ In text (map (λ v. v.running_version) ver.versions))
                        × (G.new_version text ≡ none)))))
        ⊎ ((infos_of a ver r t ≡ (panic, t)) × (r ≡ panic))
        ⊎ ((infos_of a ver r t ≡ (unfinished, t)) × (r ≡ unfinished))
  unfolding infos_of
  infos_of-cases a ver (ok remotes) t =
      elim (subject_infos-IsReport G g o k order visits a ver remotes) [
        | inl (parsed, x, e, texts, report) ↦
            inl (x, remotes, parsed, rw e refl, refl, texts, report)
        | inr (e, bad) ↦ inr (inl (external, rw e refl, inr (remotes, refl, bad)))
      ]
  infos_of-cases a ver (err e) t = inr (inl (e, refl, inl (e, refl)))
  infos_of-cases a ver panic t = inr (inr (inl (refl, refl)))
  infos_of-cases a ver unfinished t = inr (inr (inr (refl, refl)))

  answered-IsOnward :
      (ver : SubjectVersion) (s : State C)
      → IsDuring G C R W fuel order s0 s
      → IsOnward G C R W fuel order s0 s (get_versions G R C W fuel ver.remote_version s).1
  answered-IsOnward ver s h =
      let kept = get_versions-IsSound C c G R W fuel ver.remote_version s h.tended.sound in
      record {
        during = record {
          tended = answered-IsTended G C c g o k R W fuel order visits ver s h.tended;
          clock = get_versions-clock C c G R W fuel ver.remote_version s ∙ h.clock;
          views = λ b i. ap subject_versions_of (kept (Key.agent b) i (λ x. x)).1 ∙ h.views b i;
        };
        infos = λ b v i n. inl (ap version_infos_of (kept (Key.info b v) (i, n) (λ x. x)).1);
      }

  -- The infos are stored for the version.
  module _ (a : String) (ver : SubjectVersion) (x : VersionInfos) (remotes : List String)
      (parsed : List G.Version) (i : IsAgentId a) (n : IsSlashFree ver.id)
      (m : IsCollected G C R W fuel order s0 a ver) (texts : map G.original parsed ≡ remotes)
      (report : IsReport G a ver parsed x) (s u : State C) (h : IsDuring G C R W fuel order s0 s)
      (q : answers G C R W fuel order s0 ver s ≡ ok remotes)
      (tended : IsTended G C (filed_state C c u a ver.id x i n))
      (called : IsAsked G C R W fuel order s0 a ver s) where
    abbrev after : State C
    after = filed_state C c u a ver.id x i n

    computed :
        (v : String)
        → ver.id ≡ v
        → cached C after a v ≡ some x
        → IsComputed G C R W fuel order s0 a v after
    computed v e found = record {
      infos = x;
      found = found;
      ver = ver;
      member = m;
      same_id = e;
      asked = s;
      called = called;
      during = h;
      remotes = remotes;
      answered = q;
      parsed = parsed;
      texts = texts;
      report = report;
    }

    stored-IsOnward : IsDuring G C R W fuel order s0 u → IsOnward G C R W fuel order s0 u after
    stored-IsOnward d = record {
      during = record {
        tended = tended;
        clock = d.clock;
        views = λ b j.
            ap subject_versions_of (other C c u a ver.id x i n (Key.agent b) j (λ e. cc))
            ∙ d.views b j;
      };
      infos = λ b w j l. elim (cached_after C c u a ver.id x i n b w j l) [
        | inr e ↦ inl e
        | inl (e, e', found) ↦ inr (
            subst (λ b. IsComputed G C R W fuel order s0 b w after) (sym e)
              (computed w (sym e') (subst (λ b. cached C after b w ≡ some x) e found)))
      ];
    }

    stored-IsComputed : IsComputed G C R W fuel order s0 a ver.id after
    stored-IsComputed =
        computed ver.id refl
          (ap version_infos_of (read-write_self C c u (Key.info a ver.id) (version_infos x)))

  -- One version is served, or the round ends with its call of GetVersions.
  abbrev IsRound : String → SubjectVersion → State C → Outcome (Unit {0}) × State C → Type 0
  IsRound a ver s p =
      ((p.0 ≡ ok tt)
        × IsOnward G C R W fuel order s0 s p.1
        × IsServed G C R W fuel order s0 a ver p.1)
      ⊎ IsStopped G C R W fuel order s0 a ver p.0

  pub refresh-IsRound :
      (a : String) (ver : SubjectVersion) (s : State C)
      → IsAgentId a
      → IsCleanVersion G ver
      → IsCollected G C R W fuel order s0 a ver
      → IsDuring G C R W fuel order s0 s
      → IsAsked G C R W fuel order s0 a ver s
      → IsRound a ver s (refresh C G R W fuel order a ver s)
  unfolding refresh get_subject_version_infos infos_of set_subject_version_info_cache
  refresh-IsRound a ver s i n m h called =
      let u = (get_versions G R C W fuel ver.remote_version s).1 in
      let on = answered-IsOnward ver s h in
      elim (infos_of-cases a ver (answers G C R W fuel order s0 ver s) u) [
        | inl (x, remotes, parsed, e, q, texts, report) ↦
            let tended : IsTended G C (filed_state C c u a ver.id x i n.0) =
              rw e at (refresh-IsTended G C c g o k R W fuel order visits a i ver n s h.tended) in
            rw e (
              inl (
                refl,
                IsOnward-trans G C R W fuel order s0 s u _ on (
                    stored-IsOnward a ver x remotes parsed i n.0 m texts report s u h q tended
                      called on.during),
                inl (
                    stored-IsComputed a ver x remotes parsed i n.0 m texts report s u h q tended
                      called),
              ))
        | inr (inl (e, q, bad)) ↦
            rw q (
              inl (refl, on, inr (record { asked = s; called = called; during = h; reason = bad })))
        | inr (inr (inl (e, q))) ↦
            rw e (inr (record { asked = s; called = called; during = h; reason = inl (refl, q) }))
        | inr (inr (inr (e, q))) ↦
            rw e (inr (record { asked = s; called = called; during = h; reason = inr (refl, q) }))
      ]
