-- ===== src/Provider/Keeping.antt =====
-- GetVersions of controlplane/providers keeps what the registry and the agents have in the cache.
use opvic.Tracker.{RemoteVersion, github_strategy_releases, github_strategy_tags}
use mathlib.Core.Path.{subst}
use opvic.Prelude.{ℕ, ◌≡◌, refl, sym, Option-cases, inl, inr, Bool-cases, ◌||◌, ◌==◌, arith}
use opvic.Prelude.State.{lift_last, continue-same}
use opvic.External.{GoVersion, GoRegexp, GoCache, IsCache}
use opvic.Cache.{Value, State}
use opvic.Cache.Keys.{Key, IsClean}
use opvic.Cache.Shapes.{HasType}
use opvic.Cache.Typed.{write, read, write-IsWellTyped, read-write_ne}
use opvic.Registry.Machine.{IsSound}
use opvic.Provider.{
  Sources, get_releases, get_index, get_tags, get_versions, github_get_versions, helm_get_versions,
  get_versions_from_releases, get_versions_from_tags,
}
use opvic.Provider.Fetching.{
  IsProviderKey, IsFetch, get_releases-IsFetch, get_tags-IsFetch, get_index-IsFetch,
}

module _ (C : GoCache Value) where
  -- What was sound stays sound, and the keys of the registry hold what they held.
  record IsKept (s t : State C) : Type 0 where
    sound : IsSound C s → IsSound C t
    clock : t.now ≡ s.now
    kept : (j : Key) → IsClean j → (IsProviderKey j → ⊥) → read C t j ≡ read C s j

  IsKept-refl : (s : State C) → IsKept s s
  IsKept-refl s = record { sound = λ h. h; clock = refl; kept = λ j jc n. refl }

  IsProviderKey-IsClean : (k : Key) → IsProviderKey k → IsClean k
  IsProviderKey-IsClean Key.agent_list p = absurd p
  IsProviderKey-IsClean (Key.agent a) p = absurd p
  IsProviderKey-IsClean (Key.versions_of a) p = absurd p
  IsProviderKey-IsClean (Key.subject a v) p = absurd p
  IsProviderKey-IsClean (Key.info a v) p = absurd p
  IsProviderKey-IsClean (Key.releases repo) p = tt
  IsProviderKey-IsClean (Key.tags repo) p = tt
  IsProviderKey-IsClean (Key.chart_index repo) p = tt

  module _ (c : IsCache C) where
    write-IsKept :
        (s : State C) (k : Key) (v : Value)
        → IsProviderKey k
        → HasType k v
        → IsKept s (write C s k v)
    write-IsKept s k v p t =
        let kc = IsProviderKey-IsClean k p in
        let same : (j : Key)
            → IsClean j
            → (IsProviderKey j → ⊥)
            → read C (write C s k v) j ≡ read C s j =
          λ j jc n. read-write_ne C c s k j v kc jc (λ e. n (subst IsProviderKey e p)) in
        let list = same Key.agent_list tt (λ x. x) in
        record {
          sound = λ h. record {
            well_typed = write-IsWellTyped C c s k v kc t h.well_typed;
            distinct = rw list h.distinct;
            clean_agents = rw list h.clean_agents;
            clean_versions = λ a i. rw (same (Key.versions_of a) i (λ x. x)) (h.clean_versions a i);
          };
          clock = refl;
          kept = same;
        }

    IsFetch-IsKept : (s t : State C) → IsFetch C s t → IsKept s t
    IsFetch-IsKept s t (inl e) = subst (IsKept s) (sym e) (IsKept-refl s)
    IsFetch-IsKept s t (inr (k, v, p, h, e)) = subst (IsKept s) (sym e) (write-IsKept s k v p h)

    module _ (G : GoVersion) (R : GoRegexp) (W : Sources) (fuel : ℕ) (conf : RemoteVersion) where
      releases-IsKept : (s : State C) → IsKept s (get_versions_from_releases G R C W fuel conf s).1
      unfolding get_versions_from_releases
      releases-IsKept s =
          subst (IsKept s) (sym (lift_last (get_releases G R C W fuel conf.repo) _ s))
            (IsFetch-IsKept s _ (get_releases-IsFetch C G R W fuel conf.repo s))

      tags-IsKept : (s : State C) → IsKept s (get_versions_from_tags G R C W fuel conf s).1
      unfolding get_versions_from_tags
      tags-IsKept s =
          subst (IsKept s) (sym (lift_last (get_tags G R C W fuel conf.repo) _ s))
            (IsFetch-IsKept s _ (get_tags-IsFetch C G R W fuel conf.repo s))

      -- The gauge is not part of what the cache holds.
      gauge-IsKept :
          (s t : State C) (n : ℕ) → IsKept (record s { rate_limit_remaining = n }) t → IsKept s t
      gauge-IsKept s t n h = record {
        sound = λ i. h.sound record {
          well_typed = record { typed = i.well_typed.typed };
          distinct = i.distinct;
          clean_agents = i.clean_agents;
          clean_versions = i.clean_versions;
        };
        clock = h.clock;
        kept = h.kept;
      }

      github-IsKept : (s : State C) → IsKept s (github_get_versions G R C W fuel conf s).1
      unfolding github_get_versions
      github-IsKept s = elim (Option-cases (W.rate_limits s.now)) [
        | inl down ↦ rw down (IsKept-refl s)
        | inr (n, up) ↦
            let u : State C = record s { rate_limit_remaining = n } in
            elim (Bool-cases (conf.strategy == github_strategy_releases)) [
              | inl a ↦ rw (up, a) (gauge-IsKept s _ n (releases-IsKept u))
              | inr na ↦ elim (Bool-cases (conf.strategy == github_strategy_tags)) [
                | inl b ↦ rw (up, na, b) (gauge-IsKept s _ n (tags-IsKept u))
                | inr nb ↦ rw (up, na, nb) (gauge-IsKept s _ n (IsKept-refl u))
              ]
            ]
      ]

      helm-IsKept : (s : State C) → IsKept s (helm_get_versions G R C W fuel conf s).1
      unfolding helm_get_versions
      helm-IsKept s =
          subst (IsKept s)
            (sym (continue-same (get_index G R C W fuel conf.repo s).0 _ _ λ i t. ground (arith)))
            (IsFetch-IsKept s _ (get_index-IsFetch C G R W fuel conf.repo s))

      get_versions-IsKept : (s : State C) → IsKept s (get_versions G R C W fuel conf s).1
      unfolding get_versions
      get_versions-IsKept s = elim (Bool-cases (conf.provider == "" || conf.repo == "")) [
        | inl e ↦ rw e (IsKept-refl s)
        | inr ne ↦ elim (Bool-cases (conf.provider == "github")) [
          | inl g ↦ rw (ne, g) (github-IsKept s)
          | inr ng ↦ elim (Bool-cases (conf.provider == "helm")) [
            | inl h ↦ rw (ne, ng, h) (helm-IsKept s)
            | inr nh ↦ rw (ne, ng, nh) (IsKept-refl s)
          ]
        ]
      ]

      -- GetVersions of the providers, whatever the remote sources answer and however it ends, leaves
      -- a sound state sound, and changes nothing under the keys of the registry and of the reports:
      -- it writes nothing but its own listings and indexes.
      pub get_versions-IsSound :
          (s : State C)
          → IsSound C s
          → (j : Key) → IsClean j
          → (IsProviderKey j → ⊥)
          → IsSound C (get_versions G R C W fuel conf s).1
            × (read C (get_versions G R C W fuel conf s).1 j ≡ read C s j)
      get_versions-IsSound s h j jc n = let k = get_versions-IsKept s in (k.sound h, k.kept j jc n)

      pub get_versions-clock : (s : State C) → (get_versions G R C W fuel conf s).1.now ≡ s.now
      get_versions-clock s = (get_versions-IsKept s).clock
