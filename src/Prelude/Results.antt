-- ===== src/Prelude/Results.antt =====
-- What a Go function may do: return, return an error, panic, or (a loop on fuel) not end in time.
use Prim.Native.String.{String}
use mathlib.Core.Path.{◌≡◌, refl, ap}
use mathlib.Core.Bool.{Bool, false}
use mathlib.Core.List.{List, [], ◌∷◌}
use native.Mathlib.Omega.{arith}
use Prim.Native.Nat.{ℕ}
use mathlib.Core.Option.{none, some}
use opvic.Prelude.Lists.{get_elem?, filter_bool}
use opvic.Prelude.Tests.{if◌then◌else◌}

-- The errors that the code makes itself; `external` is an error that a library handed on.
pub data Error : Type 0 where
  external : Error
  unknown_provider unsupported_strategy invalid_repo unsupported_resource : String → Error
  empty_index missing_token field_selector_required : Error
  unexpected_status : Error

pub data Outcome {ℓ} (A : Type ℓ) : Type ℓ where
  ok : A → Outcome A
  err : Error → Outcome A
  panic unfinished : Outcome A

-- An error, a panic or an unfinished loop ends the chain.
abbrev pub ◌>>=◌ {ℓ κ} : {X : Type ℓ} {Y : Type κ} → Outcome X → (X → Outcome Y) → Outcome Y
◌>>=◌ (ok x) next = next x
◌>>=◌ (err e) next = err e
◌>>=◌ panic next = panic
◌>>=◌ unfinished next = unfinished

infixl 5 ◌>>=◌
-- A loop that appends the elements that pass a test which may fail.
module _ {ℓ} {A : Type ℓ} where
  abbrev pub filter_outcome : (A → Outcome Bool) → List A → Outcome (List A)
  filter_outcome p [] = ok []
  filter_outcome p (x ∷ xs) =
      p x >>= λ b. filter_outcome p xs >>= λ rest. ok (if b then x ∷ rest else rest)

  pub filter_outcome-ok :
      (p : A → Outcome Bool) (q : A → Bool)
      → ((x : A) → p x ≡ ok (q x))
      → (xs : List A) → filter_outcome p xs ≡ ok (filter_bool q xs)
  filter_outcome-ok p q h [] = refl
  filter_outcome-ok p q h (x ∷ xs) = rw (h x, filter_outcome-ok p q h xs) (ground arith)

-- `xs[i]`, which panics out of range.
abbrev pub index {ℓ} : {A : Type ℓ} → List A → ℕ → Outcome A
index xs i = elim (get_elem? xs i) [ none ↦ panic | some x ↦ ok x ]

-- `a && b`, where `b` is evaluated only if `a` holds.
abbrev pub and_then : Outcome Bool → Outcome Bool → Outcome Bool
and_then a b = a >>= λ t. if t then b else ok false

-- A chain that returned has returned from its first step.
pub >>=-eq-ok {ℓ κ} :
    {X : Type ℓ} {Y : Type κ} (first : Outcome X) (next : X → Outcome Y) {y : Y}
    → (first >>= next) ≡ ok y
    → (x : X) × (first ≡ ok x) × (next x ≡ ok y)
>>=-eq-ok panic next returned = cc
>>=-eq-ok unfinished next returned = cc
>>=-eq-ok (err e) next returned = cc
>>=-eq-ok (ok x) next returned = (x, refl, returned)

-- The value of a result that is one.
value_or {ℓ} : {A : Type ℓ} → A → Outcome A → A
value_or d (ok a) = a
value_or d o = d

pub ok-injective {ℓ} : {A : Type ℓ} (a b : A) → ok a ≡ ok b → a ≡ b
unfolding value_or
ok-injective a b e = ap (value_or a) e
