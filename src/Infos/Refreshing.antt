-- ===== src/Infos/Refreshing.antt =====
-- SubjectVersionInfoCacheReconcile of controlplane/cache.go as a whole, whatever the providers do.
use opvic.Version.Tops.{IsReordering}
use opvic.Infos.Shown.{IsShownOnce, IsOf, subject_infos-IsOf}
use opvic.Prelude.{
  ℕ, ◌≡◌, refl, sym, ap, List, [], ◌∷◌, String, Option, none, some, Outcome, ok, err, panic,
  unfinished, All, ◌∙◌,
}
use mathlib.Core.Path.{subst}
use opvic.Prelude.State.{Run, continue, for_each, lift_last, lift_last-ok}
use opvic.External.{GoVersion, GoRegexp, GoCache, IsCache, HasSegments, IsOrdered, KeepsOriginal}
use opvic.Api.{VersionInfos, SubjectVersion, list_ids}
use opvic.Cache.{Value, State, set_subject_version_info_cache}
use opvic.Cache.Keys.{Key, IsAgentId, IsSlashFree}
use opvic.Cache.Shapes.{subject_versions_of, subject_version_of}
use opvic.Cache.Typed.{read, get_agent_list_cache-ok, get_agent_cache-ok}
use opvic.Registry.Machine.{clean_ids, registered_agents}
use opvic.Provider.{Sources, get_versions}
use opvic.Provider.Keeping.{get_versions-IsSound}
use opvic.Infos.{
  caught, refresh, refresh_agent, subject_version_info_cache_reconcile, get_subject_version_infos,
  subject_infos,
}
use opvic.Infos.Kept.{keep, refresh_all}
use opvic.Infos.Filed.{filed_state-IsSound, other, filed_state-IsFiled}
use opvic.Infos.Tended.{IsTended, IsTended-same, IsCleanVersion, AreCleanVersions}

-- What holds before a step and after all that may follow holds after the chain.
continue-keeps :
    {S A B : Type 0} (P : S → Type 0) (first : Outcome A) (next : A → Run S B) (s : S)
    → P s
    → ((a : A) → first ≡ ok a → P (next a s).1)
    → P (continue first next s).1
continue-keeps P (ok a) next s p h = h a refl
continue-keeps P (err e) next s p h = p
continue-keeps P panic next s p h = p
continue-keeps P unfinished next s p h = p

for_each-keeps :
    {S A : Type 0} (P : S → Type 0) (Q : A → Type 0) (body : A → Run S (Unit {0}))
    → ((x : A) → Q x → (s : S) → P s → P (body x s).1)
    → (l : List A) → All Q l
    → (s : S) → P s
    → P (for_each l body s).1
for_each-keeps P Q body h [] q s p = p
for_each-keeps P Q body h (x ∷ l) (q, qs) s p =
    let t = h x q s p in
    continue-keeps P (body x s).0 (λ u. for_each l body) (body x s).1 t
      (λ u _. for_each-keeps P Q body h l qs (body x s).1 t)

module _ (G : GoVersion) (C : GoCache Value) (c : IsCache C) (g : HasSegments G) (o : IsOrdered G)
    (k : KeepsOriginal G) (R : GoRegexp) (W : Sources) (fuel : ℕ)
    (order : List (ℕ × List G.Version) → List (ℕ × List G.Version))
    (visits : IsReordering order) where
  pub answered-IsTended :
      (ver : SubjectVersion) (s : State C)
      → IsTended G C s
      → IsTended G C (get_versions G R C W fuel ver.remote_version s).1
  answered-IsTended ver s h =
      let k = get_versions-IsSound C c G R W fuel ver.remote_version s h.sound in
      IsTended-same G C s _ (k Key.agent_list tt (λ x. x)).0 (λ j jc n _. (k j jc n).1) h

  get_infos-IsTended :
      (agent : String) (ver : SubjectVersion) (s : State C)
      → IsTended G C s
      → IsTended G C (get_subject_version_infos C G R W fuel order agent ver s).1
  unfolding get_subject_version_infos
  get_infos-IsTended agent ver s h =
      subst (IsTended G C) (sym (lift_last (get_versions G R C W fuel ver.remote_version) _ s))
        (answered-IsTended ver s h)

  get_infos-IsOf :
      (agent : String) (ver : SubjectVersion) (s : State C) (x : VersionInfos)
      → IsShownOnce G ver
      → (get_subject_version_infos C G R W fuel order agent ver s).0 ≡ ok x
      → IsOf G agent ver x
  unfolding get_subject_version_infos
  get_infos-IsOf agent ver s x once e =
      let (remotes, q) =
        lift_last-ok (get_versions G R C W fuel ver.remote_version s).0
          (subject_infos G order agent ver) (get_versions G R C W fuel ver.remote_version s).1 x
          e in
      subject_infos-IsOf G g o k order visits agent ver remotes x once q

  caught-same : {A : Type 0} (r : Outcome A) (t : State C) → (caught C G R W fuel order r t).1 ≡ t
  caught-same (ok a) t = refl
  caught-same (err e) t = refl
  caught-same panic t = refl
  caught-same unfinished t = refl

  caught-some :
      {A : Type 0} (r : Outcome A) (t : State C) (a : A)
      → (caught C G R W fuel order r t).0 ≡ ok (some a)
      → r ≡ ok a
  caught-some (ok b) t a e = cc e
  caught-some (err x) t a e = absurd (cc e)
  caught-some panic t a e = absurd (cc e)
  caught-some unfinished t a e = absurd (cc e)

  keep-IsTended :
      (agent : String) (ver : SubjectVersion) (found : Option VersionInfos)
      → IsAgentId agent
      → IsSlashFree ver.id
      → ((x : VersionInfos) → found ≡ some x → IsOf G agent ver x)
      → (s : State C) → IsTended G C s
      → IsTended G C (keep C G R W fuel order agent ver.id found s).1
  unfolding set_subject_version_info_cache
  keep-IsTended agent ver none i n of s h = h
  keep-IsTended agent ver (some x) i n of s h =
      let rest = other C c s agent ver.id x i n in
      let (e, e', d) = of x refl in
      record {
        sound = filed_state-IsSound C c s agent ver.id x i n h.sound;
        filed = filed_state-IsFiled C c s agent ver.id x i n e e' d h.filed;
        same_id = λ a v j m y q.
            h.same_id a v j m y
              (ap subject_version_of (sym (rest (Key.subject a v) (j, m) (λ r. cc))) ∙ q);
        collected =
            λ a j. rw (ap subject_versions_of (rest (Key.agent a) j (λ r. cc))) (h.collected a j);
      }

  pub refresh-IsTended :
      (agent : String)
      → IsAgentId agent
      → (ver : SubjectVersion) → IsCleanVersion G ver
      → (s : State C) → IsTended G C s
      → IsTended G C (refresh C G R W fuel order agent ver s).1
  unfolding refresh
  refresh-IsTended agent i ver n s h =
      let m = get_subject_version_infos C G R W fuel order agent ver s in
      let t = subst (IsTended G C) (sym (caught-same m.0 m.1)) (get_infos-IsTended agent ver s h) in
      continue-keeps (IsTended G C) (caught C G R W fuel order m.0 m.1).0
        (keep C G R W fuel order agent ver.id) (caught C G R W fuel order m.0 m.1).1 t
        (λ found e.
          keep-IsTended agent ver found i n.0
            (λ x q. get_infos-IsOf agent ver s x n.1 (caught-some m.0 m.1 x (e ∙ ap ok q))) _ t)

  refresh_all-IsTended :
      (agent : String) (found : Option (List SubjectVersion))
      → IsAgentId agent
      → AreCleanVersions G found
      → (s : State C) → IsTended G C s
      → IsTended G C (refresh_all C G R W fuel order agent found s).1
  refresh_all-IsTended agent none i n s h = h
  refresh_all-IsTended agent (some l) i n s h =
      for_each-keeps (IsTended G C) (IsCleanVersion G) _ (refresh-IsTended agent i) l n s h

  refresh_agent-IsTended :
      (agent : String)
      → IsAgentId agent
      → (s : State C) → IsTended G C s
      → IsTended G C (refresh_agent C G R W fuel order agent s).1
  unfolding refresh_agent
  refresh_agent-IsTended agent i s h = rw (get_agent_cache-ok C s h.sound.well_typed agent i) (
      refresh_all-IsTended agent (subject_versions_of (read C s (Key.agent agent))) i
        (h.collected agent i) s h)

  -- SubjectVersionInfoCacheReconcile, whatever the remote sources answer and however it ends,
  -- leaves a tended state from one.
  pub subject_version_info_cache_reconcile-IsTended :
      (s : State C)
      → IsTended G C s
      → IsTended G C (subject_version_info_cache_reconcile C G R W fuel order s).1
  unfolding subject_version_info_cache_reconcile
  subject_version_info_cache_reconcile-IsTended s h =
      rw (get_agent_list_cache-ok C s h.sound.well_typed) (
        for_each-keeps (IsTended G C) IsAgentId _ refresh_agent-IsTended
          (list_ids (registered_agents C s)) (clean_ids C s h.sound) s h)
