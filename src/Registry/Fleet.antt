-- ===== src/Registry/Fleet.antt =====
-- What the list of agents of controlplane/cache.go stands for: a map from identifiers to the tags
-- and the time of the last report, with a report and an expiry as its operations.
use opvic.Prelude.{
  All, All-append, ℕ, ◌+◌, ◌≡◌, refl, List, [], ◌∷◌, ◌++◌, map, String, ◌==◌, eq_iff, Option, none,
  some, ltb, if◌then◌else◌, false, Bool-cases, inl, inr, filter_bool, arith, sym, ◌∙◌,
}
use mathlib.Core.Path.{fun_ext}
use mathlib.Core.List.{map-append}
use opvic.Utils.{contains}
use opvic.Utils.Seen.{contains-append}
use opvic.Registry.Reports.{has_agent-eq-contains, ids-touched}
use opvic.Utils.Sets.{IsDistinct}
use opvic.Api.{Agent}
use opvic.Registry.{update_agents, has_agent, touch, is_live}

abbrev pub Fleet : Type 0
Fleet = String → Option (List (String × String) × ℕ)

abbrev pub register : String → List (String × String) → ℕ → Fleet → Fleet
register a tags now f b = if a == b then some (tags, now) else f b

-- The entries whose last report is less than the expiration ago.
abbrev pub keep_live :
    ℕ → ℕ → Option (List (String × String) × ℕ) → Option (List (String × String) × ℕ)
keep_live expiration now none = none
keep_live expiration now (some (tags, heartbeat)) =
    if ltb now (expiration + heartbeat) then some (tags, heartbeat) else none

abbrev pub expire : ℕ → ℕ → Fleet → Fleet
expire expiration now f b = keep_live expiration now (f b)

abbrev pub fleet_of : List Agent → Fleet
fleet_of [] a = none
fleet_of (g ∷ l) a = if g.id == a then some (g.tags, g.last_heartbeat) else fleet_of l a

abbrev pub ids : List Agent → List String
ids l = map (λ g. g.id) l

append-IsDistinct :
    (l : List String) (v : String) → contains l v ≡ false → IsDistinct l → IsDistinct (l ++ v ∷ [])
unfolding contains
append-IsDistinct [] v e d = (refl, tt)
append-IsDistinct (x ∷ l) v e (new, d) = (
  rw (contains-append l v x) (ground (arith, eq_iff x v, eq_iff v x)),
  append-IsDistinct l v (ground arith) d,
)

module _ (a : String) (tags : List (String × String)) (now : ℕ) where
  touched :
      (l : List Agent) (b : String)
      → fleet_of (map (touch a tags now) l) b
        ≡ (if has_agent l a then register a tags now (fleet_of l) b else fleet_of l b)
  unfolding has_agent
  touched [] b = refl
  touched (g ∷ l) b = ground (arith, touched l b, eq_iff g.id a, eq_iff g.id b, eq_iff a b)

  added :
      (l : List Agent)
      → has_agent l a ≡ false
      → (b : String)
      → fleet_of
          (map (touch a tags now) l ++ record { id = a; tags = tags; last_heartbeat = now } ∷ [])
          b
        ≡ register a tags now (fleet_of l) b
  unfolding has_agent
  added [] e b = refl
  added (g ∷ l) e b =
      ground (arith, added l (ground arith) b, eq_iff g.id a, eq_iff g.id b, eq_iff a b)

  pub fleet_of-update_agents :
      (l : List Agent) → fleet_of (update_agents a tags now l) ≡ register a tags now (fleet_of l)
  unfolding update_agents
  fleet_of-update_agents l = fun_ext (λ b. elim (Bool-cases (has_agent l a)) [
    | inl old ↦ rw old (rw old at (touched l b))
    | inr new ↦ rw new (added l new b)
  ])

  pub update_agents-IsDistinct :
      (l : List Agent) → IsDistinct (ids l) → IsDistinct (ids (update_agents a tags now l))
  unfolding update_agents
  update_agents-IsDistinct l d = elim (Bool-cases (has_agent l a)) [
    | inl old ↦ rw (old, ids-touched a tags now l) d
    | inr new ↦
        rw (new, map-append, ids-touched a tags now l)
          (append-IsDistinct (ids l) a (sym (has_agent-eq-contains l a) ∙ new) d)
  ]

  pub update_agents-All :
      (P : String → Type 0) (l : List Agent)
      → P a
      → All P (ids l)
      → All P (ids (update_agents a tags now l))
  unfolding update_agents
  update_agents-All P l k h = elim (Bool-cases (has_agent l a)) [
    | inl old ↦ rw (old, ids-touched a tags now l) h
    | inr new ↦
        rw (new, map-append, ids-touched a tags now l) (All-append P (ids l) (a ∷ []) h (k, tt))
  ]

-- An agent that is not in the list is not in the fleet.
fleet_of-absent : (l : List Agent) (b : String) → contains (ids l) b ≡ false → fleet_of l b ≡ none
unfolding contains
fleet_of-absent [] b e = refl
fleet_of-absent (g ∷ l) b e = ground (arith, fleet_of-absent l b)

module _ (expiration now : ℕ) where
  ids-live :
      (l : List Agent) (b : String)
      → contains (ids l) b ≡ false
      → contains (ids (filter_bool (is_live expiration now) l)) b ≡ false
  unfolding contains
  ids-live [] b e = e
  ids-live (g ∷ l) b e = ground (arith, ids-live l b)

  pub live-IsDistinct :
      (l : List Agent)
      → IsDistinct (ids l)
      → IsDistinct (ids (filter_bool (is_live expiration now) l))
  live-IsDistinct [] d = tt
  live-IsDistinct (g ∷ l) (new, d) = elim (Bool-cases (is_live expiration now g)) [
    | inl t ↦ rw t (ids-live l g.id new, live-IsDistinct l d)
    | inr f ↦ rw f (live-IsDistinct l d)
  ]

  pub live-All :
      (P : String → Type 0) (l : List Agent)
      → All P (ids l)
      → All P (ids (filter_bool (is_live expiration now) l))
  live-All P [] h = tt
  live-All P (g ∷ l) (k, h) = elim (Bool-cases (is_live expiration now g)) [
    | inl t ↦ rw t (k, live-All P l h)
    | inr f ↦ rw f (live-All P l h)
  ]

  pub fleet_of-live :
      (l : List Agent)
      → IsDistinct (ids l)
      → (b : String)
      → fleet_of (filter_bool (is_live expiration now) l) b ≡ expire expiration now (fleet_of l) b
  fleet_of-live [] d b = refl
  fleet_of-live (g ∷ l) (new, d) b = elim (Bool-cases (g.id == b)) [
    | inr f ↦ ground (arith, fleet_of-live l d b, f)
    | inl t ↦ elim (Bool-cases (is_live expiration now g)) [
      | inl live ↦ ground (arith, t, live)
      | inr dead ↦
          rw (dead, t, dead) (fleet_of-absent _ b (ids-live l b (rw ((eq_iff g.id b).0 t) at new)))
    ]
  ]
