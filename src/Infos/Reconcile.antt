-- ===== src/Infos/Reconcile.antt =====
-- CacheReconcile of controlplane/cache.go: the deletion of what has expired and the three reconcilers.
use opvic.Prelude.{ℕ, List}
use opvic.External.{GoVersion, GoRegexp, GoCache, IsCache, HasSegments, IsOrdered, KeepsOriginal}
use opvic.Cache.{Value, State}
use opvic.Provider.{Sources}
use opvic.Version.Tops.{IsReordering}
use opvic.Infos.{cache_reconcile}
use opvic.Infos.Refreshing.{subject_version_info_cache_reconcile-IsTended}
use opvic.Infos.Tended.{IsTended}
use opvic.Infos.Tending.{purged, purged-IsTended, sweep-IsTended, show-IsTended}

module _ (G : GoVersion) (g : HasSegments G) (o : IsOrdered G) (k : KeepsOriginal G)
    (C : GoCache Value) (c : IsCache C) where
  -- With the laws of go-version CacheReconcile, whatever the remote sources answer and however it
  -- ends, leaves a tended state from
  -- one: with a sound registry, the infos filed under their agents and versions with each running
  -- version once, the stored versions under their identifiers, and clean collected versions.
  pub cache_reconcile-IsTended :
      (R : GoRegexp) (W : Sources) (fuel : ℕ)
      (order : List (ℕ × List G.Version) → List (ℕ × List G.Version))
      → IsReordering order
      → (expiration : ℕ) (s : State C) → IsTended G C s
      → IsTended G C (cache_reconcile C G R W fuel order expiration s).1
  unfolding cache_reconcile
  cache_reconcile-IsTended R W fuel order visits expiration s h =
      let (u, e, hu) =
        sweep-IsTended G C c expiration (purged G C c s) (purged-IsTended G C c s h) in
      let (t, e', ht) = show-IsTended G C c u hu in
      rw (e, e')
        (subject_version_info_cache_reconcile-IsTended G C c g o k R W fuel order visits t ht)
