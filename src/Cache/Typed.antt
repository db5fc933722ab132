-- ===== src/Cache/Typed.antt =====
-- The values in the cache of controlplane/cache.go have the types that their keys are read at, so
-- that no type assertion panics; and what a write changes.
use native.Mathlib.Nat.{le_refl}
use mathlib.Core.Path.{subst}
use opvic.Prelude.{
  ℕ, ◌≤◌, ◌≡◌, ◌≢◌, refl, Option, some, ok, Bool-cases, inl, inr, String, ◌==◌, eq_iff, eq_refl,
}
use opvic.External.{GoCache, IsCache}
use opvic.Cache.{
  Value, State, get_agent_list_cache, get_agent_cache, get_subject_version_cache,
  get_subject_version_info_cache, get_agent_subject_version_list_cache,
}
use opvic.Cache.Shapes.{
  HasType, agents_or, strings_or, subject_versions_of, subject_version_of, version_infos_of,
  eq_of_fresh, assert_agents, assert_strings, assert_subject_versions, assert_subject_version,
  assert_version_infos,
}
use opvic.Cache.Keys.{Key, render, IsClean, IsAgentId, IsSlashFree, render_injective}

module _ (C : GoCache Value) where
  -- What a state holds for a key now.
  abbrev pub read : State C → Key → Option Value
  read s k = C.get s.cache s.now (render k)

  -- Whatever is found under a clean key, now or later, has the key's type.
  pub record IsWellTyped (s : State C) : Type 0 where
    pub typed :
        (k : Key)
        → IsClean k
        → (u : ℕ) → s.now ≤ u
        → (v : Value) → C.get s.cache u (render k) ≡ some v
        → HasType k v

  -- The state after a write under a key.
  abbrev pub write : State C → Key → Value → State C
  write s k v = record s { cache = C.set s.cache s.now (render k) v }

  module _ (c : IsCache C) where
    pub write-IsWellTyped :
        (s : State C) (k : Key) (v : Value)
        → IsClean k
        → HasType k v
        → IsWellTyped s
        → IsWellTyped (write s k v)
    write-IsWellTyped s k v clean t h = record {
      typed = λ j jc u le x e. elim (Bool-cases (render k == render j)) [
        | inl same ↦
            let e' = rw (c.get-set s.cache s.now u (render k) (render j) v, same) at e in
            subst (λ i. HasType i x) (render_injective k j clean jc ((eq_iff _ _).0 same))
              (subst (λ y. HasType k y) (eq_of_fresh (C.fresh s.now u) v x e') t)
        | inr other ↦
            h.typed j jc u le x (rw (c.get-set s.cache s.now u (render k) (render j) v, other) at e)
      ];
    }

    -- A write is read back under its own key, and under no other clean key.
    pub read-write_self : (s : State C) (k : Key) (v : Value) → read (write s k v) k ≡ some v
    read-write_self s k v =
        rw
          (
            c.get-set s.cache s.now s.now (render k) (render k) v,
            eq_refl (render k),
            c.fresh_now s.now,
          )
          refl

    pub read-write_ne :
        (s : State C) (k j : Key) (v : Value)
        → IsClean k
        → IsClean j
        → k ≢ j
        → read (write s k v) j ≡ read s j
    read-write_ne s k j v kc jc n = elim (Bool-cases (render k == render j)) [
      | inl same ↦ absurd (n (render_injective k j kc jc ((eq_iff _ _).0 same)))
      | inr other ↦ rw (c.get-set s.cache s.now s.now (render k) (render j) v, other) refl
    ]

  module _ (s : State C) (h : IsWellTyped s) where
    pub get_agent_list_cache-ok :
        get_agent_list_cache C s ≡ (ok (agents_or (read s Key.agent_list)), s)
    unfolding get_agent_list_cache
    get_agent_list_cache-ok =
        elim (assert_agents (read s Key.agent_list)
          (h.typed Key.agent_list tt s.now (le_refl s.now))) [
            | inl (e, e') ↦ rw (e, e') refl
            | inr e ↦ rw e refl
          ]

    pub get_versions_list-ok :
        (a : String)
        → IsAgentId a
        → get_agent_subject_version_list_cache C a s
          ≡ (ok (strings_or (read s (Key.versions_of a))), s)
    unfolding get_agent_subject_version_list_cache
    get_versions_list-ok a i =
        elim (assert_strings a (read s (Key.versions_of a))
          (h.typed (Key.versions_of a) i s.now (le_refl s.now))) [
            | inl (e, e') ↦ rw (e, e') refl
            | inr e ↦ rw e refl
          ]

    pub get_agent_cache-ok :
        (a : String)
        → IsAgentId a
        → get_agent_cache C a s ≡ (ok (subject_versions_of (read s (Key.agent a))), s)
    unfolding get_agent_cache
    get_agent_cache-ok a i =
        rw
          (assert_subject_versions a (read s (Key.agent a))
            (h.typed (Key.agent a) i s.now (le_refl s.now)))
          refl

    pub get_subject_version_cache-ok :
        (a v : String)
        → IsAgentId a
        → IsSlashFree v
        → get_subject_version_cache C a v s
          ≡ (ok (subject_version_of (read s (Key.subject a v))), s)
    unfolding get_subject_version_cache
    get_subject_version_cache-ok a v i n =
        rw
          (assert_subject_version a v (read s (Key.subject a v))
            (h.typed (Key.subject a v) (i, n) s.now (le_refl s.now)))
          refl

    pub get_info-ok :
        (a v : String)
        → IsAgentId a
        → IsSlashFree v
        → get_subject_version_info_cache C a v s
          ≡ (ok (version_infos_of (read s (Key.info a v))), s)
    unfolding get_subject_version_info_cache
    get_info-ok a v i n =
        rw
          (assert_version_infos a v (read s (Key.info a v))
            (h.typed (Key.info a v) (i, n) s.now (le_refl s.now)))
          refl
