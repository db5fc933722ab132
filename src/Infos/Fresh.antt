-- ===== src/Infos/Fresh.antt =====
-- SubjectVersionInfoCacheReconcile of controlplane/cache.go serves every collected version, or does not
-- end.
use opvic.Prelude.{
  ℕ, ◌≡◌, ◌⊎◌, refl, sym, List, String, Option, none, some, Outcome, ok, panic, unfinished, All, In,
  All-In, All-of_In, inl, inr,
}
use opvic.Prelude.State.{Meets, for_each-Done}
use opvic.External.{GoVersion, GoRegexp, GoCache, IsCache, HasSegments, IsOrdered, KeepsOriginal}
use opvic.Api.{SubjectVersion, list_ids}
use opvic.Cache.{Value, State}
use opvic.Cache.Keys.{IsAgentId, IsSlashFree}
use opvic.Cache.Typed.{get_agent_list_cache-ok, get_agent_cache-ok}
use opvic.Registry.Machine.{clean_ids, registered_agents}
use opvic.Provider.{Sources}
use opvic.Version.Tops.{IsReordering}
use opvic.Infos.{refresh, refresh_agent, subject_version_info_cache_reconcile}
use opvic.Infos.Tended.{IsTended, IsCleanVersion, AreCleanVersions}
use opvic.Infos.Kept.{refresh_all}
use opvic.Infos.Answers.{
  view, IsIn, IsAsked, IsDuring, IsStopped, IsServed, IsOnward, IsOnward-refl, IsOnward-trans,
  IsServed-later,
}
use opvic.Infos.Rounds.{refresh-IsRound}

module _ (G : GoVersion) (g : HasSegments G) (o : IsOrdered G) (k : KeepsOriginal G)
    (C : GoCache Value) (c : IsCache C) (R : GoRegexp) (W : Sources) (fuel : ℕ)
    (order : List (ℕ × List G.Version) → List (ℕ × List G.Version)) (visits : IsReordering order)
    (s0 : State C) where
  abbrev Onward : State C → State C → Type 0
  Onward = IsOnward G C R W fuel order s0

  IsStopped-outcome :
      (a : String) (ver : SubjectVersion) (r : Outcome (Unit {0}))
      → IsStopped G C R W fuel order s0 a ver r
      → (r ≡ panic) ⊎ (r ≡ unfinished)
  IsStopped-outcome a ver r h = elim h.reason [ inl e ↦ inl e.0 | inr e ↦ inr e.0 ]

  -- The loop over the registered agents comes to the agent in the state.
  abbrev IsTurn : String → State C → Type 0
  IsTurn = Meets (refresh_agent C G R W fuel order) (list_ids (registered_agents C s0)) s0

  -- Every version collected under the agent is served.
  abbrev pub AllServed : String → State C → Type 0
  AllServed a t =
      (ver : SubjectVersion) → IsIn G C ver (view G C s0 a) → IsServed G C R W fuel order s0 a ver t

  -- The round ends with a version collected under the agent.
  abbrev pub StopsAt : String → Outcome (Unit {0}) → Type 0
  StopsAt a r =
      (ver : SubjectVersion) × IsIn G C ver (view G C s0 a)
      × IsStopped G C R W fuel order s0 a ver r

  abbrev IsAgentRound : String → State C → Outcome (Unit {0}) × State C → Type 0
  IsAgentRound a s p = ((p.0 ≡ ok tt) × Onward s p.1 × AllServed a p.1) ⊎ StopsAt a p.0

  refresh_all-IsAgentRound :
      (a : String) (found : Option (List SubjectVersion)) (s : State C)
      → IsAgentId a
      → In a (list_ids (registered_agents C s0))
      → view G C s0 a ≡ found
      → AreCleanVersions G found
      → IsDuring G C R W fuel order s0 s
      → IsTurn a s
      → IsAgentRound a s (refresh_all C G R W fuel order a found s)
  refresh_all-IsAgentRound a none s i known e n h turn =
      inl (refl, IsOnward-refl G C R W fuel order s0 s h, λ ver m. absurd (rw e at m))
  refresh_all-IsAgentRound a (some l) s i known e n h turn =
      let member : (ver : SubjectVersion) → In ver l → IsIn G C ver (view G C s0 a) =
        λ ver m. rw e m in
      elim (for_each-Done (IsDuring G C R W fuel order s0) Onward (IsServed G C R W fuel order s0 a)
        (IsStopped G C R W fuel order s0 a) (λ ver. IsCleanVersion G ver × In ver l)
        (IsAsked G C R W fuel order s0 a) (refresh C G R W fuel order a)
        (IsOnward-refl G C R W fuel order s0) (IsOnward-trans G C R W fuel order s0)
        (λ s t on. on.during)
        (λ ver q s t on d. IsServed-later G C R W fuel order s0 a ver s t i q.0.0 on d)
        (IsStopped-outcome a)
        (λ ver q s d called.
          refresh-IsRound G g o k C c R W fuel order visits s0 a ver s i q.0 (known, member ver q.1)
            d called)
        l (All-of_In _ l (λ ver m. (All-In (IsCleanVersion G) l n ver m, m))) s h
        (λ ver u m. record {
          entered = s;
          agent_turn = turn;
          listed = l;
          collected = e;
          version_turn = m;
        })) [
          | inl (r, on, d) ↦ inl (r, on, λ ver m. All-In _ l d ver (rw e at m))
          | inr (ver, m, stop) ↦ inr (ver, member ver m, stop)
        ]

  IsIn-clean :
      (ver : SubjectVersion) (found : Option (List SubjectVersion))
      → AreCleanVersions G found
      → IsIn G C ver found
      → IsSlashFree ver.id
  IsIn-clean ver none n m = absurd m
  IsIn-clean ver (some l) n m = (All-In (IsCleanVersion G) l n ver m).0

  IsDuring-start : IsTended G C s0 → IsDuring G C R W fuel order s0 s0
  IsDuring-start h = record { tended = h; clock = refl; views = λ a i. refl }

  refresh_agent-IsAgentRound :
      IsTended G C s0
      → (a : String) → IsAgentId a × In a (list_ids (registered_agents C s0))
      → (s : State C) → IsDuring G C R W fuel order s0 s
      → IsTurn a s
      → IsAgentRound a s (refresh_agent C G R W fuel order a s)
  unfolding refresh_agent
  refresh_agent-IsAgentRound h0 a (i, known) s h turn =
      rw (get_agent_cache-ok C s h.tended.sound.well_typed a i) (
        refresh_all-IsAgentRound a (view G C s a) s i known (sym (h.views a i))
          (h.tended.collected a i) h turn)

  -- With the laws of go-version and from a tended state: SubjectVersionInfoCacheReconcile returns,
  -- and for every version that is collected under a registered agent the cache has infos that this
  -- round has worked out from what GetVersions returned in it, or GetVersions has returned an error,
  -- or a text in its answer or a running version does not parse, and all other infos are those of
  -- before or worked out in the round; or it ends as a call of GetVersions for such a version does,
  -- which panics or does not end. These calls are those that the loops make, each in the
  -- state in which they come to its version.
  pub subject_version_info_cache_reconcile-AllServed :
      IsTended G C s0
      → let p = subject_version_info_cache_reconcile C G R W fuel order s0 in
        ((p.0 ≡ ok tt)
          × Onward s0 p.1
          × All (λ a. AllServed a p.1) (list_ids (registered_agents C s0)))
        ⊎ ((a : String) × In a (list_ids (registered_agents C s0)) × StopsAt a p.0)
  unfolding subject_version_info_cache_reconcile
  subject_version_info_cache_reconcile-AllServed h =
      rw (get_agent_list_cache-ok C s0 h.sound.well_typed) (
        for_each-Done (IsDuring G C R W fuel order s0) Onward AllServed StopsAt
          (λ a. IsAgentId a × In a (list_ids (registered_agents C s0))) IsTurn
          (refresh_agent C G R W fuel order) (IsOnward-refl G C R W fuel order s0)
          (IsOnward-trans G C R W fuel order s0) (λ s t on. on.during)
          (λ a i s t on d ver m.
            IsServed-later G C R W fuel order s0 a ver s t i.0
              (IsIn-clean ver (view G C s0 a) (h.collected a i.0) m) on (d ver m))
          (λ a r stop. IsStopped-outcome a stop.0 r stop.2) (refresh_agent-IsAgentRound h)
          (list_ids (registered_agents C s0))
          (All-of_In _ (list_ids (registered_agents C s0)) (λ a m.
            (All-In IsAgentId (list_ids (registered_agents C s0)) (clean_ids C s0 h.sound) a m, m)))
          s0 (IsDuring-start h) (λ a s m. m))
