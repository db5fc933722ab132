-- ===== src/Infos/Upgrades.antt =====
-- A report of an agent, and CacheReconcile of controlplane/cache.go after it: what the control plane
-- then answers on the upgrades of the reported version.
use mathlib.Core.Path.{subst}
use opvic.Prelude.{ℕ, ◌≡◌, ◌⊎◌, ◌<◌, refl, List, map, Outcome, String, ok, All-In, inl, inr}
use opvic.Prelude.State.{Run, ◌>>◌}
use opvic.External.{GoVersion, GoRegexp, GoCache, IsCache, HasSegments, IsOrdered, KeepsOriginal}
use opvic.Api.{AgentPayload, VersionInfos, list_ids}
use opvic.Cache.{Value, State}
use opvic.Cache.Keys.{IsAgentId}
use opvic.Cache.Typed.{get_info-ok}
use opvic.Registry.{agents_post, status_ok, agents_subject_versions_info_get}
use opvic.Registry.Machine.{registered_agents}
use opvic.Registry.Reports.{reported, agents_post-ok}
use opvic.Provider.{Sources, get_versions}
use opvic.Version.Tops.{IsReordering}
use opvic.Infos.{cache_reconcile}
use opvic.Infos.Subject.{IsReport}
use opvic.Registry.{agent_list_cache_reconcile, agent_cache_reconcile}
use opvic.Infos.Tended.{IsTended, IsCleanVersion}
use opvic.Infos.Answers.{IsRefused, IsAsked, IsDuring, IsComputed}
use opvic.Infos.Fresh.{StopsAt, subject_version_info_cache_reconcile-AllServed}
use opvic.Infos.Reported.{IsShownFor, reported-IsReported, sweep-shown}

-- CacheReconcile up to SubjectVersionInfoCacheReconcile.
abbrev pub begin_round : (C : GoCache Value) → ℕ → Run (State C) (Unit {0})
begin_round C expiration = do
  (λ s. (ok tt, record s { cache = C.delete_expired s.cache s.now }))
  agent_list_cache_reconcile C expiration
  agent_cache_reconcile C

module _ (G : GoVersion) (C : GoCache Value) (c : IsCache C) (p : AgentPayload)
    (i : IsAgentId p.agent_id) (n : IsCleanVersion G p.version) where
  module _ (g : HasSegments G) (o : IsOrdered G) (k : KeepsOriginal G) (R : GoRegexp) (W : Sources)
      (fuel : ℕ) (order : List (ℕ × List G.Version) → List (ℕ × List G.Version))
      (visits : IsReordering order) where
    -- The GET handler of the infos answers with a report on what GetVersions has returned for the
    -- version in the round that starts in `middle`.
    pub record IsAnswered (middle t : State C) : Type 0 where
      pub infos : VersionInfos
      pub answer :
          agents_subject_versions_info_get C p.agent_id p.version.id t ≡ (ok (status_ok infos), t)
      pub asked : State C
      pub called : IsAsked G C R W fuel order middle p.agent_id p.version asked
      pub during : IsDuring G C R W fuel order middle asked
      pub remotes : List String
      pub answered : (get_versions G R C W fuel p.version.remote_version asked).0 ≡ ok remotes
      pub parsed : List G.Version
      pub texts : map G.original parsed ≡ remotes
      pub report : IsReport G p.agent_id p.version parsed infos

    IsComputed-IsAnswered :
        (middle t : State C)
        → IsShownFor G C c p i n middle
        → IsTended G C t
        → IsComputed G C R W fuel order middle p.agent_id p.version.id t
        → IsAnswered middle t
    unfolding agents_subject_versions_info_get
    IsComputed-IsAnswered middle t shown h x =
        let same : x.ver ≡ p.version = shown.only x.ver x.member.1 x.same_id in
        record {
          infos = x.infos;
          answer =
              rw (get_info-ok C t h.sound.well_typed p.agent_id p.version.id i n.0, x.found) refl;
          asked = x.asked;
          called =
              subst (λ v. IsAsked G C R W fuel order middle p.agent_id v x.asked) same x.called;
          during = x.during;
          remotes = x.remotes;
          answered =
              subst (λ v. (get_versions G R C W fuel v.remote_version x.asked).0 ≡ ok x.remotes)
                same x.answered;
          parsed = x.parsed;
          texts = x.texts;
          report = subst (λ v. IsReport G p.agent_id v x.parsed x.infos) same x.report;
        }

    -- A round of SubjectVersionInfoCacheReconcile that starts in `middle` and ends with `q`.
    abbrev pub IsConcluded : State C → Outcome (Unit {0}) × State C → Type 0
    IsConcluded middle q =
        ((q.0 ≡ ok tt)
          × IsTended G C q.1
          × (IsAnswered middle q.1 ⊎ IsRefused G C R W fuel order middle p.agent_id p.version))
        ⊎ ((a : String) × StopsAt G g o k C c R W fuel order visits middle a q.0)

    -- With the laws of go-version, from a tended state, and for a clean payload and an expiration
    -- that is not 0: after AgentsPost and then CacheReconcile the GET handler of the infos answers
    -- with a report on the reported version against what GetVersions has returned for it in that
    -- round, unless GetVersions has returned an error, or a text in its answer or a running version
    -- does not parse; the state is tended again. Or CacheReconcile ends as a call of GetVersions for
    -- a collected version does, which panics or does not end. These calls are those that the
    -- loops make, from the state to which the first two parts of CacheReconcile lead: each in the
    -- state in which they come to its version.
    pub agents_post-cache_reconcile-IsAnswered :
        (expiration : ℕ) (s : State C)
        → 0 < expiration
        → IsTended G C s
        → (middle : State C) × ((agents_post C p >> begin_round C expiration) s ≡ (ok tt, middle))
          × IsTended G C middle
          × IsConcluded middle
              ((agents_post C p >> cache_reconcile C G R W fuel order expiration) s)
    unfolding cache_reconcile
    agents_post-cache_reconcile-IsAnswered expiration s pos h =
        let (t, u, e, f, shown) =
          sweep-shown G C c p i n expiration (reported C c p s) pos
            (reported-IsReported G C c p i n s h) in
        let round =
          subject_version_info_cache_reconcile-AllServed G g o k C c R W fuel order visits t
            shown.tended in
        (
          t,
          rw (agents_post-ok C c p i n.0 s h.sound.well_typed, e, f) refl,
          shown.tended,
          rw (agents_post-ok C c p i n.0 s h.sound.well_typed, e, f)
              (elim round [
                | inr (a, m, stop) ↦ inr (a, stop)
                | inl (done, on, served) ↦ inl (
                  done,
                  on.during.tended,
                  elim (All-In _ (list_ids (registered_agents C t)) served p.agent_id
                      shown.registered p.version shown.member) [
                        | inl x ↦ inl (IsComputed-IsAnswered t _ shown on.during.tended x)
                        | inr x ↦ inr x
                      ],
                )
              ]),
        )
