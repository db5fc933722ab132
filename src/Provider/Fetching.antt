-- ===== src/Provider/Fetching.antt =====
-- What controlplane/providers write to the cache: listings and indexes under their own keys.
use Prim.Native.String.{◌++◌}
use opvic.Prelude.{ℕ, ◌≡◌, ◌⊎◌, refl, List, [], String, Option-cases, inl, inr, panic, ok}
use opvic.Prelude.State.{continue-cases}
use opvic.External.{GoVersion, GoRegexp, GoCache}
use opvic.Utils.{or_error}
use opvic.Remote.Github
use opvic.Remote.Github.{Release, Tag, split_repo}
use opvic.Remote.Helm
use opvic.Remote.Helm.{append_index, drop_bytes, Index}
use opvic.Cache.{Value, releases, State, tags, index}
use opvic.Cache.Keys.{Key}
use opvic.Cache.Shapes.{HasType}
use opvic.Cache.Typed.{write}
use opvic.Provider.{Sources, get_releases, fetch_pages, load_index, get_index, get_tags}

-- The keys of the providers, and of what agents report and the control plane works out.
abbrev pub IsProviderKey : Key → Type 0
IsProviderKey (Key.releases repo) = Unit
IsProviderKey (Key.tags repo) = Unit
IsProviderKey (Key.chart_index repo) = Unit
IsProviderKey _ = ⊥

index_key-cases :
    (repo : String)
    → (Helm.releases_cache_key repo ≡ panic)
      ⊎ ((rest : String) × (Helm.releases_cache_key repo ≡ ok ("helm/" ++ rest)))
unfolding Helm.releases_cache_key
index_key-cases repo = elim (Option-cases (drop_bytes 8 repo)) [
  | inl short ↦ inl (rw (Helm.releases_cache_key, short) refl)
  | inr (rest, long) ↦ inr (rest, rw (Helm.releases_cache_key, long) refl)
]

module _ (C : GoCache Value) where
  -- Nothing is written, or a value of its type under a key of the providers.
  abbrev pub IsFetch : State C → State C → Type 0
  IsFetch s t =
      (t ≡ s) ⊎ ((k : Key) × (v : Value) × IsProviderKey k × HasType k v × (t ≡ write C s k v))

  module _ (G : GoVersion) (R : GoRegexp) (W : Sources) (fuel : ℕ) where
    pub get_releases-IsFetch :
        (repo : String) (s : State C) → IsFetch s (get_releases G R C W fuel repo s).1
    unfolding get_releases
    get_releases-IsFetch repo s =
        elim (Option-cases (C.get s.cache s.now (Github.releases_cache_key repo))) [
          | inr (releases old, found) ↦ inl (rw found refl)
          | inr (v, found) ↦ inl (rw found refl)
          | inl missing ↦ elim (continue-cases {S = State C} (split_repo repo) (List Release)) [
            | inr stop ↦ inl (rw missing (stop _ s))
            | inl (parts, p) ↦
                elim (continue-cases {S = State C}
                  (fetch_pages (W.list_releases s.now parts.0 parts.1) fuel 0 []) (List Release)) [
                    | inr stop ↦ inl (rw (missing, p) (stop _ s))
                    | inl (l, q) ↦
                        inr (Key.releases repo, releases l, tt, tt, rw (missing, p, q) refl)
                  ]
          ]
        ]

    pub get_tags-IsFetch :
        (repo : String) (s : State C) → IsFetch s (get_tags G R C W fuel repo s).1
    unfolding get_tags
    get_tags-IsFetch repo s =
        elim (Option-cases (C.get s.cache s.now (Github.tags_cache_key repo))) [
          | inr (tags old, found) ↦ inl (rw found refl)
          | inr (v, found) ↦ inl (rw found refl)
          | inl missing ↦ elim (continue-cases {S = State C} (split_repo repo) (List Tag)) [
            | inr stop ↦ inl (rw missing (stop _ s))
            | inl (parts, p) ↦
                elim (continue-cases {S = State C}
                  (fetch_pages (W.list_tags s.now parts.0 parts.1) fuel 0 []) (List Tag)) [
                    | inr stop ↦ inl (rw (missing, p) (stop _ s))
                    | inl (l, q) ↦ inr (Key.tags repo, tags l, tt, tt, rw (missing, p, q) refl)
                  ]
          ]
        ]

    pub get_index-IsFetch :
        (repo : String) (s : State C) → IsFetch s (get_index G R C W fuel repo s).1
    unfolding get_index
    get_index-IsFetch repo s = elim (index_key-cases repo) [
      | inl short ↦ inl (rw short refl)
      | inr (rest, long) ↦ elim (Option-cases (C.get s.cache s.now ("helm/" ++ rest))) [
        | inr (index old, found) ↦ inl (rw (long, found) refl)
        | inr (v, found) ↦ inl (rw (long, found) refl)
        | inl missing ↦
            elim (continue-cases {S = State C} (or_error (W.http_get s.now (append_index repo)))
              Index) [
                | inr stop ↦ inl (rw (long, missing) (stop _ s))
                | inl (body, p) ↦
                    elim (continue-cases {S = State C} (load_index G R C W fuel body) Index) [
                      | inr stop ↦ inl (rw (long, missing, p) (stop _ s))
                      | inl (i, q) ↦
                          inr (Key.chart_index rest, index i, tt, tt, rw (long, missing, p, q) refl)
                    ]
              ]
      ]
    ]
