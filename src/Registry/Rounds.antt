-- ===== src/Registry/Rounds.antt =====
-- AgentCacheReconcile of controlplane/cache.go over all agents.
use mathlib.Core.Path.{subst}
use opvic.Prelude.{
  Bool, ◌≡◌, ◌≢◌, refl, sym, ◌∙◌, List, [], ◌∷◌, some, ok, String, ◌==◌, eq_iff, All, All2, All-In,
  Bool-cases, inl, inr, true, false, ◌||◌, arith,
}
use opvic.Prelude.State.{for_each}
use opvic.External.{GoCache, IsCache}
use opvic.Utils.{contains}
use opvic.Api.{list_ids}
use opvic.Cache.{Value, State}
use opvic.Cache.Keys.{Key, IsAgentId, IsSlashFree}
use opvic.Cache.Typed.{IsWellTyped, read, get_agent_list_cache-ok}
use opvic.Cache.Shapes.{agents_or}
use opvic.Registry.{reconcile_agent, agent_cache_reconcile}
use opvic.Registry.Collect.{
  collected, collected-All2, collected-In, collected-All, listed, stored, reconcile_agent-ok,
  reconciled-IsWellTyped, listed-reconciled, view-reconciled,
}
use opvic.Registry.Views.{
  IsView, IsListedClean, IsReconciled, one, stored-one, registered-one, infos-one, listed-one_ne,
  view-one_ne, versions-one, listed-one_clean,
}

All2-weaken :
    {A B : Type 0} (P : A → Type 0) (Q R : A → B → Type 0)
    → ((a : A) (b : B) → P a → Q a b → R a b)
    → (xs : List A) (ys : List B) → All P xs
    → All2 Q xs ys
    → All2 R xs ys
All2-weaken P Q R f [] [] p q = tt
All2-weaken P Q R f [] (y ∷ ys) p q = absurd q
All2-weaken P Q R f (x ∷ xs) [] p q = absurd q
All2-weaken P Q R f (x ∷ xs) (y ∷ ys) (p, ps) (q, qs) = (f x y p q, All2-weaken P Q R f xs ys ps qs)

or_false : (x y : Bool) → (x || y) ≡ false → (x ≡ false) × (y ≡ false)
or_false x y e = ground arith

or_left : (x y : Bool) → (x || y) ≡ true → y ≡ false → x ≡ true
or_left x y e f = ground arith

module _ (C : GoCache Value) (c : IsCache C) where
  module _ (b : String) (s : State C) (i : IsAgentId b) (n : IsListedClean C s) (t : State C) where
    -- A view after a later round is one after this round too.
    earlier-IsView : (a : String) → IsAgentId a → IsView C (one C c b s i) t a → IsView C s t a
    earlier-IsView a j later =
        let m = listed-one_clean C c b s i n in
        record {
          versions = λ v. (
            λ k.
                (let (here, (x, e)) = (later.versions v).0 k in
                  let p = All-In IsSlashFree _ (m a j) v here in
                  (versions-one C c b s i a j v).0
                    (here, (x, sym (stored-one C c b s i a v j p) ∙ e))),
            λ k.
                (let p = All-In IsSlashFree _ (n a j) v k.0 in
                  let (here, (x, e)) = (versions-one C c b s i a j v).1 k in
                  (later.versions v).1 (here, (x, stored-one C c b s i a v j p ∙ e))),
          );
          view = later.view;
        }

    -- The agent of this round, if no later round is for it.
    last-IsView :
        (ids : List String)
        → IsReconciled C ids (one C c b s i) t
        → contains ids b ≡ false
        → IsView C s t b
    last-IsView ids r gone =
        let out = collected (stored C s b) (listed C s b) in
        let e : listed C t b ≡ out.1 = r.others_listed b i gone ∙ listed-reconciled C c b s i in
        let same : (v : String) → IsSlashFree v → stored C t b v ≡ stored C s b v =
          (λ v p. r.subjects b v i p ∙ stored-one C c b s i b v i p) in
        record {
          versions = λ v. rw e (collected-In (stored C s b) (listed C s b) v);
          view = (
            out.0,
            r.others_view b i gone ∙ view-reconciled C c b s i,
            rw e (
                All2-weaken IsSlashFree (λ v x. stored C s b v ≡ some x)
                  (λ v x. stored C t b v ≡ some x) (λ v x p q. same v p ∙ q) out.1 out.0
                  (collected-All IsSlashFree (stored C s b) (listed C s b) (n b i))
                  (collected-All2 (stored C s b) (listed C s b))),
          );
        }

  IsReconciled-cons :
      (b : String) (ids : List String) (s : State C) (i : IsAgentId b)
      → IsListedClean C s
      → (t : State C) → IsReconciled C ids (one C c b s i) t
      → IsReconciled C (b ∷ ids) s t
  unfolding contains
  IsReconciled-cons b ids s i n t r =
      let ne : (a : String) → contains (b ∷ ids) a ≡ false → b ≢ a =
        (λ a e q. cc ((eq_iff b a).1 q, (or_false (b == a) (contains ids a) e).0)) in
      record {
        well_typed = r.well_typed;
        clock = r.clock;
        registered = r.registered ∙ registered-one C c b s i;
        subjects = λ a v j p. r.subjects a v j p ∙ stored-one C c b s i a v j p;
        infos = λ a v j p. r.infos a v j p ∙ infos-one C c b s i a v j p;
        others_listed = λ a j e.
            r.others_listed a j (or_false (b == a) (contains ids a) e).1
            ∙ listed-one_ne C c b s i a j (ne a e);
        others_view = λ a j e.
            r.others_view a j (or_false (b == a) (contains ids a) e).1
            ∙ view-one_ne C c b s i a j (ne a e);
        agents = λ a j e. elim (Bool-cases (contains ids a)) [
          | inl later ↦ earlier-IsView b s i n t a j (r.agents a j later)
          | inr gone ↦
              let q : b ≡ a = (eq_iff b a).0 (or_left (b == a) (contains ids a) e gone) in
              subst (λ x. IsView C s t x) q (last-IsView b s i n t ids r (rw q gone))
        ];
      }

  rounds :
      (ids : List String) (s : State C)
      → IsWellTyped C s
      → All IsAgentId ids
      → IsListedClean C s
      → (t : State C) × (for_each ids (reconcile_agent C) s ≡ (ok tt, t)) × IsReconciled C ids s t
  rounds [] s h _ n = (
    s,
    refl,
    record {
      well_typed = h;
      clock = refl;
      registered = refl;
      subjects = λ a v j p. refl;
      infos = λ a v j p. refl;
      others_listed = λ a j e. refl;
      others_view = λ a j e. refl;
      agents = λ a j e. absurd (unfold contains in cc e);
    },
  )
  rounds (b ∷ ids) s h (i, is) n =
      let s1 = one C c b s i in
      let (t, e, r) =
        rounds ids s1 (reconciled-IsWellTyped C c b s i h) is (listed-one_clean C c b s i n) in
      (t, rw (reconcile_agent-ok C b s h i (n b i)) e, IsReconciled-cons b ids s i n t r)

  -- In a well-typed state, in which the registered agents have identifiers without slashes that are
  -- not reserved and the listed versions have identifiers without slashes, AgentCacheReconcile does
  -- not panic and leaves a well-typed state. Of each registered agent the versions that stay listed
  -- are exactly those that are still stored, and what the GET handler shows of the agent are the
  -- stored versions of that list, in its order. The stored versions and the list of agents do not
  -- change.
  pub agent_cache_reconcile-IsReconciled :
      (s : State C)
      → IsWellTyped C s
      → All IsAgentId (list_ids (agents_or (read C s Key.agent_list)))
      → IsListedClean C s
      → (t : State C) × (agent_cache_reconcile C s ≡ (ok tt, t))
        × IsReconciled C (list_ids (agents_or (read C s Key.agent_list))) s t
  unfolding agent_cache_reconcile
  agent_cache_reconcile-IsReconciled s h is n =
      rw (get_agent_list_cache-ok C s h)
        (rounds (list_ids (agents_or (read C s Key.agent_list))) s h is n)
