-- ===== src/Server/Runs.antt =====
-- Runs of the control plane: requests, the goroutines that store payloads, CacheReconcile, its parts
-- and time, in any order.
use opvic.Metrics.Unique.{Apart, collect-AllPairs}
use opvic.Metrics.{collect}
use opvic.Infos.Reconcile.{cache_reconcile-IsTended}
use opvic.Infos.Tended.{IsTended, IsCleanVersion}
use opvic.Infos.Tending.{reported-IsTended, sweep-IsTended, show-IsTended, wait-IsTended}
use opvic.Infos.{cache_reconcile}
use opvic.Version.Tops.{IsReordering}
use opvic.Provider.{Sources}
use opvic.Registry.{agent_list_cache_reconcile, agent_cache_reconcile}
use opvic.Prelude.{
  ◌≡◌, refl, sym, ap, ◌∙◌, List, [], ◌∷◌, ◌++◌, Option, none, some, ok, err, panic, unfinished,
  Outcome, All, inl, inr, ℕ, String, AllPairs, ◌+◌,
}
use mathlib.Core.Path.{subst}
use opvic.External.{
  GoCache, IsCache, Exporter, GoVersion, GoRegexp, HasSegments, IsOrdered, KeepsOriginal,
  IsExporter, Sample,
}
use opvic.Api.{AgentPayload}
use opvic.Http.{Codec}
use opvic.Cache.{Value, State}
use opvic.Cache.Keys.{IsAgentId, IsSlashFree}
use opvic.Registry.Machine.{IsSound}
use opvic.Registry.Reports.{agents_post-ok, reported}
use opvic.Server.{Web, Incoming, Response, dispatch}
use opvic.Server.Middlewares.{Server, serve, run_goroutine, count_request, metrics_middleware}
use opvic.Server.Safety.{serve-state, serve-after}
use opvic.Server.Payloads.{dispatched_payload}

All-split :
    {A : Type 0} (Q : A → Type 0) (xs : List A) (x : A) (ys : List A)
    → All Q (xs ++ x ∷ ys)
    → Q x × All Q (xs ++ ys)
All-split Q [] x ys h = h
All-split Q (z ∷ xs) x ys (q, h) = let (p, k) = All-split Q xs x ys h in (p, (q, k))

-- A payload with clean identifiers, whose running versions are shown as different texts.
abbrev pub IsCleanPayload : GoVersion → AgentPayload → Type 0
IsCleanPayload G payload = IsAgentId payload.agent_id × IsCleanVersion G payload.version

-- A request with a clean payload, if its body decodes.
abbrev pub IsCleanRequest : GoVersion → Codec → Incoming → Type 0
IsCleanRequest G D r =
    (payload : AgentPayload) → D.decode r.body ≡ some payload → IsCleanPayload G payload

module _ (G : GoVersion) (R : GoRegexp) (W : Web) (P : Exporter) (C : GoCache Value) (D : Codec)
    (token : String) (expiration : ℕ) where
  -- The remote sources, the pages of a listing and the order of a map are any, in each round.
  pub data ServerStep (s t : Server C) : Type 0 where
    request :
        (r : Incoming) → IsCleanRequest G D r → t ≡ (serve W P C D token r s).1 → ServerStep s t
    store :
        (later rest : List AgentPayload) (payload : AgentPayload)
        → s.pending ≡ later ++ payload ∷ rest
        → run_goroutine W P C D later payload rest s ≡ (ok tt, t)
        → ServerStep s t
    sweep :
        t ≡ record s { state = (agent_list_cache_reconcile C expiration s.state).1 }
        → ServerStep s t
    show : t ≡ record s { state = (agent_cache_reconcile C s.state).1 } → ServerStep s t
    reconcile :
        (S : Sources) (fuel : ℕ)
        → (order : List (ℕ × List G.Version) → List (ℕ × List G.Version)) → IsReordering order
        → t ≡ record s { state = (cache_reconcile C G R S fuel order expiration s.state).1 }
        → ServerStep s t
    wait :
        (n : ℕ) → t ≡ record s { state = record s.state { now = s.state.now + n } } → ServerStep s t

  pub data ServerReach (s : Server C) : Server C → Type 0 where
    here : ServerReach s s
    later : {t u : Server C} → ServerReach s t → ServerStep t u → ServerReach s u

  -- A tended cache, and clean payloads that wait.
  pub record IsSafe (s : Server C) : Type 0 where
    pub tended : IsTended G C s.state
    pub clean : All (IsCleanPayload G) s.pending

  spawned :
      (r : Incoming) (s : Server C) (x : State C) (o : Outcome (Response × Option AgentPayload))
      → ((p : Response) (q : AgentPayload) → o ≡ ok (p, some q) → IsCleanPayload G q)
      → All (IsCleanPayload G) s.pending
      → All (IsCleanPayload G) (count_request W P C D r s x o).1.pending
  spawned r s x (ok (p, none)) h k = k
  spawned r s x (ok (p, some q)) h k = (h p q refl, k)
  spawned r s x (err e) h k = k
  spawned r s x panic h k = k
  spawned r s x unfinished h k = k

  module _ (g : HasSegments G) (o : IsOrdered G) (k : KeepsOriginal G) (c : IsCache C) where
    request-IsSafe :
        (r : Incoming) (s : Server C)
        → IsCleanRequest G D r
        → IsSafe s
        → IsSafe (serve W P C D token r s).1
    unfolding metrics_middleware
    request-IsSafe r s clean h = record {
      tended = rw (serve-state W P C D token r s) h.tended;
      clean = elim (serve-after W P C D token r s) [
        | inl e ↦ subst (λ (x : Server C). All (IsCleanPayload G) x.pending) (sym e) h.clean
        | inr e ↦
            let o = dispatch W P C D s.req_count token r s.state in
            subst (λ (x : Server C). All (IsCleanPayload G) x.pending) (sym e)
              (spawned r s o.1 o.0
                (λ p q e. clean q (dispatched_payload W P C D token s.req_count r s.state p q e))
                h.clean)
      ];
    }

    run_goroutine-ok :
        (front back : List AgentPayload) (payload : AgentPayload) (s : Server C)
        → IsAgentId payload.agent_id
        → IsSlashFree payload.version.id
        → IsSound C s.state
        → run_goroutine W P C D front payload back s
          ≡ (ok tt, record s { state = reported C c payload s.state; pending = front ++ back })
    unfolding run_goroutine
    run_goroutine-ok front back payload s i n h =
        rw (agents_post-ok C c payload i n s.state h.well_typed) refl

    store-IsSafe :
        (front back : List AgentPayload) (payload : AgentPayload) (s t : Server C)
        → s.pending ≡ front ++ payload ∷ back
        → run_goroutine W P C D front payload back s ≡ (ok tt, t)
        → IsSafe s
        → IsSafe t
    store-IsSafe front back payload s t split done h =
        let ((i, n), rest) =
          All-split (IsCleanPayload G) front payload back (rw split at h.clean) in
        let e = run_goroutine-ok front back payload s i n.0 h.tended.sound in
        subst (λ x. IsSafe x) (ap (λ x. x.1) (sym e ∙ done))
          (record { tended = reported-IsTended G C c payload s.state i n h.tended; clean = rest })

    -- A step that only changes the cache.
    cache-IsSafe :
        (s t : Server C) (x : State C)
        → IsSafe s
        → IsTended G C x
        → t ≡ record s { state = x }
        → IsSafe t
    cache-IsSafe s t x h y e =
        subst (λ u. IsSafe u) (sym e) (record { tended = y; clean = h.clean })

    step-IsSafe : {s t : Server C} → IsSafe s → ServerStep s t → IsSafe t
    step-IsSafe {s} h (request r clean e) = rw e (request-IsSafe r s clean h)
    step-IsSafe {s} {t} h (store front back payload split done) =
        store-IsSafe front back payload s t split done h
    step-IsSafe {s} {t} h (sweep e) =
        let (x, q, y) = sweep-IsTended G C c expiration s.state h.tended in
        cache-IsSafe s t _ h (subst (IsTended G C) (ap (λ p. p.1) (sym q)) y) e
    step-IsSafe {s} {t} h (show e) =
        let (x, q, y) = show-IsTended G C c s.state h.tended in
        cache-IsSafe s t _ h (subst (IsTended G C) (ap (λ p. p.1) (sym q)) y) e
    step-IsSafe {s} {t} h (reconcile S fuel order visits e) =
        cache-IsSafe s t _ h
          (cache_reconcile-IsTended G g o k C c R S fuel order visits expiration s.state h.tended) e
    step-IsSafe {s} {t} h (wait n e) =
        cache-IsSafe s t _ h (wait-IsTended G C c s.state n h.tended) e

    reach-IsSafe : {s t : Server C} → IsSafe s → ServerReach s t → IsSafe t
    reach-IsSafe h here = h
    reach-IsSafe h (later r st) = step-IsSafe (reach-IsSafe h r) st

    -- Every state of the control plane that requests, the goroutines that store their payloads,
    -- CacheReconcile, its first parts and time lead to from a safe one is safe, in whatever order
    -- they come, whole goroutines one at a time, and whatever the remote sources answer, if the
    -- payloads of the requests have clean identifiers and running versions that are shown as
    -- different texts. In it every goroutine that waits returns, and Collect returns samples of
    -- which no two have one descriptor and the same label values.
    pub ServerReach-IsSafe :
        IsExporter P
        → {s t : Server C} → IsSafe s
        → ServerReach s t
        → IsSafe t
          × ((front back : List AgentPayload) (payload : AgentPayload)
              → t.pending ≡ front ++ payload ∷ back
              → (u : Server C) × (run_goroutine W P C D front payload back t ≡ (ok tt, u)))
          × ((samples : List Sample) × (collect P C t.state ≡ (ok samples, t.state))
              × AllPairs Apart samples)
    ServerReach-IsSafe p {s} {t} h r =
        let safe = reach-IsSafe h r in
        (
          safe,
          λ front back payload split.
              (let (i, n) =
                  (All-split (IsCleanPayload G) front payload back (rw split at safe.clean)).0 in
                (_, run_goroutine-ok front back payload t i n.0 safe.tended.sound)),
          collect-AllPairs P p C t.state safe.tended.sound safe.tended.filed,
        )
