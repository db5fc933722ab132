-- ===== src/Registry/Silence.antt =====
-- An agent that falls silent leaves the registry of controlplane/cache.go, and stays away.
use opvic.Prelude.{
  ℕ, ◌+◌, ◌≤◌, ◌≡◌, ◌≢◌, ◌⊎◌, refl, sym, ap, ◌∙◌, String, eq_iff, List, Option, none, some, ok, ltb,
  inl, inr, arith, Bool-cases,
}
use opvic.External.{GoCache, IsCache}
use opvic.Cache.{Value, State}
use opvic.Registry.{agent_list_cache_reconcile}
use opvic.Registry.Live.{swept, agent_list_cache_reconcile-ok}
use opvic.Registry.Fleet.{Fleet, register, expire, keep_live}
use opvic.Registry.Machine.{
  IsSound, report, sweep, show, wait, Reach, here, later, Step-IsSound, Reach-IsSound,
}
use opvic.Registry.Timeline.{
  fleet, fleet-reported, fleet-swept, after_report, after_sweep, after_show, fleet-later,
}

-- What an agent without a report is in the map later: what it was, or nothing.
abbrev pub Fades :
    Option (List (String × String) × ℕ) → Option (List (String × String) × ℕ) → Type 0
Fades x y = (y ≡ none) ⊎ (y ≡ x)

Fades-trans : {x y z : Option (List (String × String) × ℕ)} → Fades x y → Fades y z → Fades x z
Fades-trans h (inl e) = inl e
Fades-trans (inl d) (inr e) = inl (e ∙ d)
Fades-trans (inr d) (inr e) = inr (e ∙ d)

register-Fades :
    (a b : String) (tags : List (String × String)) (now : ℕ) (f : Fleet)
    → a ≢ b
    → Fades (f b) (register a tags now f b)
register-Fades a b tags now f n = inr (ground (arith, eq_iff a b, n))

keep_live-Fades :
    (expiration now : ℕ) (x : Option (List (String × String) × ℕ))
    → Fades x (keep_live expiration now x)
keep_live-Fades expiration now none = inl refl
keep_live-Fades expiration now (some (tags, heartbeat)) =
    elim (Bool-cases (ltb now (expiration + heartbeat))) [
      | inl live ↦ inr (rw live refl)
      | inr dead ↦ inl (rw dead refl)
    ]

-- An entry whose time is over is dropped.
expire-over :
    (expiration now : ℕ) (f : Fleet) (b : String) (tags : List (String × String)) (heartbeat : ℕ)
    → Fades (some (tags, heartbeat)) (f b)
    → expiration + heartbeat ≤ now
    → expire expiration now f b ≡ none
expire-over expiration now f b tags heartbeat (inl e) over = rw e refl
expire-over expiration now f b tags heartbeat (inr e) over = rw e (ground (arith, over))

module _ (C : GoCache Value) where
  -- The agent does not report in the run.
  abbrev pub IsSilent : {expiration : ℕ} {s t : State C} → String → Reach C expiration s t → Type 0
  IsSilent a here = Unit
  IsSilent a (later r (report p i n done)) = (p.agent_id ≢ a) × IsSilent a r
  IsSilent a (later r _) = IsSilent a r

  module _ (c : IsCache C) (a : String) where
    silent_run :
        {expiration : ℕ} {s t : State C} (r : Reach C expiration s t)
        → IsSound C s
        → IsSilent a r
        → Fades (fleet C c s a) (fleet C c t a)
    silent_run here h q = inr refl
    silent_run {expiration} (later {t} {u} r (report p i n done)) h (ne, q) =
        let g = (Reach-IsSound C c h r).0 in
        let e : fleet C c u ≡ register p.agent_id p.agent_tags t.now (fleet C c t) =
          ap (fleet C c) (sym (after_report C c p i n g done)) ∙ fleet-reported C c p i n t g in
        Fades-trans (silent_run r h q)
          (rw e (register-Fades p.agent_id a p.agent_tags t.now (fleet C c t) ne))
    silent_run {expiration} (later {t} {u} r (sweep done)) h q =
        let g = (Reach-IsSound C c h r).0 in
        let e : fleet C c u ≡ expire expiration t.now (fleet C c t) =
          ap (fleet C c) (sym (after_sweep C c expiration g done))
          ∙ fleet-swept C c expiration t g in
        Fades-trans (silent_run r h q) (rw e (keep_live-Fades expiration t.now (fleet C c t a)))
    silent_run {expiration} (later {t} {u} r (show done)) h q =
        Fades-trans (silent_run r h q)
          (inr (ap (λ f. f a) (after_show C c (Reach-IsSound C c h r).0 done).1))
    silent_run {expiration} (later {t} {u} r (wait n e)) h q =
        Fades-trans (silent_run r h q) (elim (fleet-later C c t n u e) [
          | inl gone ↦ inl (ap (λ f. f a) gone)
          | inr same ↦ inr (ap (λ f. f a) same)
        ])

    -- When an agent of a sound state has been silent and the expiration has passed since its last
    -- report, AgentListCacheReconcile returns, and the agent is in no later state of the registry
    -- until it reports again.
    pub IsSilent-gone :
        {expiration : ℕ} {s t : State C} (tags : List (String × String)) (heartbeat : ℕ)
        → IsSound C s
        → fleet C c s a ≡ some (tags, heartbeat)
        → (r : Reach C expiration s t) → IsSilent a r
        → expiration + heartbeat ≤ t.now
        → (u : State C) × (agent_list_cache_reconcile C expiration t ≡ (ok tt, u))
          × ((v : State C) (r' : Reach C expiration u v) → IsSilent a r' → fleet C c v a ≡ none)
    IsSilent-gone {expiration} {s} {t} tags heartbeat h known r q over =
        let g = (Reach-IsSound C c h r).0 in
        let done = agent_list_cache_reconcile-ok C c expiration t g.well_typed in
        let u = swept C c expiration t in
        let f : Fades (some (tags, heartbeat)) (fleet C c t a) = rw known at (silent_run r h q) in
        let out : fleet C c u a ≡ none =
          ap (λ x. x a) (fleet-swept C c expiration t g)
          ∙ expire-over expiration t.now (fleet C c t) a tags heartbeat f over in
        (
          u,
          done,
          λ v r' q'. elim (silent_run r' (Step-IsSound C c g (sweep done)) q') [
            | inl e ↦ e
            | inr e ↦ e ∙ out
          ],
        )
