-- ===== src/Provider/Cached.antt =====
-- The listings and the indexes of controlplane/providers that are answered from the cache.
use opvic.Prelude.{
  ℕ, ◌≡◌, refl, ap, List, [], String, Outcome, ok, panic, none, some, Option-cases, inl, inr,
  eq_refl, ◌⊎◌,
}
use opvic.Prelude.State.{Run, continue, continue-eq-ok, pure, ◌>>◌}
use opvic.External.{GoVersion, GoRegexp, GoCache, IsCache}
use opvic.Utils.{or_error}
use opvic.Remote.Github
use opvic.Remote.Github.{Release, Tag, split_repo}
use opvic.Remote.Helm
use opvic.Remote.Helm.{Index, append_index}
use opvic.Cache.{cache_set, Value, releases, tags, index, State, assert_found}
use opvic.Provider.{
  Sources, get_releases, get_tags, get_index, fetch_pages, load_index, as_releases, as_tags,
  as_index,
}

-- A state with another rate limit in the gauge.
abbrev pub gauged : {C : GoCache Value} → ℕ → State C → State C
gauged n t = record t { rate_limit_remaining = n }

module _ (C : GoCache Value) (c : IsCache C) where
  Holds : String → Value → State C → Type 0
  Holds key v t = C.get t.cache t.now key ≡ some v

  stored : (s : State C) (key : String) (v : Value) → Holds key v (cache_set C key v s).1
  unfolding Holds
  stored s key v = rw (c.get-set s.cache s.now s.now key key v, eq_refl key, c.fresh_now s.now) refl

  -- A value of one type that is read from the cache, or else worked out in two steps and stored.
  module _ {A P : Type 0} (key : String) (cast : Value → Outcome A) (wrap : A → Value) where
    abbrev through_cache : (ℕ → Outcome P) → (ℕ → P → Outcome A) → Run (State C) A
    through_cache first second s =
        continue (assert_found cast (C.get s.cache s.now key))
          (λ cached. elim cached [
            | some r ↦ pure r
            | none ↦ λ s.
                continue (first s.now)
                  (λ p s. continue (second s.now p) (λ r. cache_set C key (wrap r) >> pure r) s) s
          ])
          s

    module _ (hit : (a : A) → assert_found cast (some (wrap a)) ≡ ok (some a))
        (cast-cases : (v : Value)
          → ((a : A) × (v ≡ wrap a)) ⊎ (assert_found cast (some v) ≡ panic)) where
      held :
          (first : ℕ → Outcome P) (second : ℕ → P → Outcome A) (n : ℕ) (t : State C) (r : A)
          → Holds key (wrap r) t
          → through_cache first second (gauged n t) ≡ (ok r, gauged n t)
      unfolding Holds
      held first second n t r e = rw (e, hit r) refl

      through_cache-Holds :
          (first : ℕ → Outcome P) (second : ℕ → P → Outcome A) (s t : State C) (r : A)
          → through_cache first second s ≡ (ok r, t)
          → Holds key (wrap r) t
      unfolding Holds
      through_cache-Holds first second s t r e = elim (Option-cases (C.get s.cache s.now key)) [
        | inr (v, found) ↦ elim (cast-cases v) [
          | inl (old, same) ↦
              let q : (ok old, s) ≡ (ok r, t) = rw (found, same, hit old) at e in
              cc (
                ap (λ (u : State C). C.get u.cache u.now key) (ap (λ p. p.1) q),
                found,
                same,
                ap (λ p. p.0) q,
              )
          | inr not_one ↦ absurd (cc (ap (λ p. p.0) (rw (found, not_one) at e)))
        ]
        | inl missing ↦
            let (p, _, d) = continue-eq-ok (first s.now) _ s t r (rw missing at e) in
            let (a, _, w) =
              continue-eq-ok (second s.now p) (λ a. cache_set C key (wrap a) >> pure a) s t r d in
            cc (
              ap (λ (u : State C). C.get u.cache u.now key) (ap (λ p. p.1) w),
              stored s key (wrap a),
              ap (λ p. p.0) w,
            )
      ]

      through_cache-again :
          (first later_first : ℕ → Outcome P) (second later_second : ℕ → P → Outcome A) (n : ℕ)
          (s t : State C) (r : A)
          → through_cache first second s ≡ (ok r, t)
          → through_cache later_first later_second (gauged n t) ≡ (ok r, gauged n t)
      through_cache-again first later_first second later_second n s t r e =
          held later_first later_second n t r (through_cache-Holds first second s t r e)

releases-cases :
    (v : Value)
    → ((l : List Release) × (v ≡ releases l)) ⊎ (assert_found as_releases (some v) ≡ panic)
releases-cases (releases l) = inl (l, refl)
releases-cases _ = inr refl

tags-cases : (v : Value) → ((l : List Tag) × (v ≡ tags l)) ⊎ (assert_found as_tags (some v) ≡ panic)
tags-cases (tags l) = inl (l, refl)
tags-cases _ = inr refl

index-cases : (v : Value) → ((i : Index) × (v ≡ index i)) ⊎ (assert_found as_index (some v) ≡ panic)
index-cases (index i) = inl (i, refl)
index-cases _ = inr refl

module _ (G : GoVersion) (R : GoRegexp) (C : GoCache Value) (c : IsCache C) (fuel : ℕ)
    (W later : Sources) (repo : String) (n : ℕ) (s t : State C) where
  pub get_releases-again :
      (r : List Release)
      → get_releases G R C W fuel repo s ≡ (ok r, t)
      → get_releases G R C later fuel repo (gauged n t) ≡ (ok r, gauged n t)
  unfolding get_releases
  get_releases-again r e =
      through_cache-again C c (Github.releases_cache_key repo) as_releases releases (λ a. refl)
        releases-cases (λ now. split_repo repo) (λ now. split_repo repo)
        (λ now parts. fetch_pages (W.list_releases now parts.0 parts.1) fuel 0 [])
        (λ now parts. fetch_pages (later.list_releases now parts.0 parts.1) fuel 0 []) n s t r e

  pub get_tags-again :
      (r : List Tag)
      → get_tags G R C W fuel repo s ≡ (ok r, t)
      → get_tags G R C later fuel repo (gauged n t) ≡ (ok r, gauged n t)
  unfolding get_tags
  get_tags-again r e =
      through_cache-again C c (Github.tags_cache_key repo) as_tags tags (λ a. refl) tags-cases
        (λ now. split_repo repo) (λ now. split_repo repo)
        (λ now parts. fetch_pages (W.list_tags now parts.0 parts.1) fuel 0 [])
        (λ now parts. fetch_pages (later.list_tags now parts.0 parts.1) fuel 0 []) n s t r e

  pub get_index-again :
      (i : Index)
      → get_index G R C W fuel repo s ≡ (ok i, t)
      → get_index G R C later fuel repo (gauged n t) ≡ (ok i, gauged n t)
  unfolding get_index
  get_index-again i e =
      let (key, k, rest) = continue-eq-ok (Helm.releases_cache_key repo) _ s t i e in
      rw k (
        through_cache-again C c key as_index index (λ a. refl) index-cases
          (λ now. or_error (W.http_get now (append_index repo)))
          (λ now. or_error (later.http_get now (append_index repo)))
          (λ now. load_index G R C W fuel) (λ now. load_index G R C later fuel) n s t i rest)
