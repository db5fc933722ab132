-- ===== src/Prelude/Lists.antt =====
-- Lists measured by native numbers, and predicates on lists by recursion.
use opvic.Prelude.Tests.{if◌then◌else◌, Bool-cases}
use mathlib.Core.Bool.{Bool, true}
use Prim.Native.Nat.{ℕ, zero, suc, ◌+◌}
use mathlib.Core.Path.{◌≡◌, refl, ap, ◌∙◌}
use mathlib.Core.Logic.{◌⊎◌, inl, inr, ◌↔◌}
use mathlib.Core.List.{List, [], ◌∷◌, ◌++◌, map}
use mathlib.Core.Option.{Option, none, some}
use native.Mathlib.Omega.{arith}

module _ {ℓ} {A : Type ℓ} where
  abbrev pub length : List A → ℕ
  length [] = 0
  length (x ∷ xs) = suc (length xs)

  abbrev pub get_elem? : List A → ℕ → Option A
  get_elem? [] i = none
  get_elem? (x ∷ xs) zero = some x
  get_elem? (x ∷ xs) (suc i) = get_elem? xs i

  pub length-append : (xs ys : List A) → length (xs ++ ys) ≡ length xs + length ys
  length-append [] ys = omega arith
  length-append (x ∷ xs) ys = omega (arith, length-append xs ys)

module _ {A : Type 0} where
  -- `In a xs` is a position of `a` in `xs`.
  abbrev pub In : A → List A → Type 0
  In a [] = ⊥
  In a (x ∷ xs) = (a ≡ x) ⊎ In a xs

  pub In-append_left : (a : A) (xs ys : List A) → In a xs → In a (xs ++ ys)
  In-append_left a [] ys m = absurd m
  In-append_left a (x ∷ xs) ys (inl e) = inl e
  In-append_left a (x ∷ xs) ys (inr m) = inr (In-append_left a xs ys m)

  pub In-append_right : (a : A) (xs ys : List A) → In a ys → In a (xs ++ ys)
  In-append_right a [] ys m = m
  In-append_right a (x ∷ xs) ys m = inr (In-append_right a xs ys m)

module _ {ℓ κ} {A : Type ℓ} (P : A → Type κ) where
  abbrev pub All : List A → Type κ
  All [] = Unit
  All (x ∷ xs) = P x × All xs

module _ {ℓ κ} {A : Type ℓ} (P : A → Type κ) where
  pub All-append : (xs ys : List A) → All P xs → All P ys → All P (xs ++ ys)
  All-append [] ys _ k = k
  All-append (x ∷ xs) ys (p, h) k = (p, All-append xs ys h k)

pub All-In : {A : Type 0} (P : A → Type 0) (xs : List A) → All P xs → (a : A) → In a xs → P a
All-In P [] _ a m = absurd m
All-In P (x ∷ xs) (p, h) a (inl e) = rw e p
All-In P (x ∷ xs) (p, h) a (inr m) = All-In P xs h a m

-- The elements that pass a test, in their order.
abbrev pub filter_bool {ℓ} : {A : Type ℓ} → (A → Bool) → List A → List A
filter_bool p [] = []
filter_bool p (x ∷ xs) = if p x then x ∷ filter_bool p xs else filter_bool p xs

pub filter_bool-In :
    {A : Type 0} (p : A → Bool) (xs : List A) (a : A)
    → In a (filter_bool p xs) ↔ (In a xs × (p a ≡ true))
filter_bool-In p [] a = (λ m. absurd m, λ h. absurd h.0)
filter_bool-In p (x ∷ xs) a =
    let ih = filter_bool-In p xs a in
    elim (Bool-cases (p x)) [
      | inl t ↦ rw t (
        (λ m. elim m [ inl e ↦ (inl e, ap p e ∙ t) | inr k ↦ (inr (ih.0 k).0, (ih.0 k).1) ]),
        λ h. elim h.0 [ inl e ↦ inl e | inr k ↦ inr (ih.1 (k, h.1)) ],
      )
      | inr f ↦ rw f (
        (λ m. (inr (ih.0 m).0, (ih.0 m).1)),
        λ h. elim h.0 [ inl e ↦ absurd (cc (h.1, e, f)) | inr k ↦ ih.1 (k, h.1) ],
      )
    ]

-- Two lists of one length whose elements at each position are related.
module _ {A B : Type 0} (R : A → B → Type 0) where
  abbrev pub All2 : List A → List B → Type 0
  All2 [] [] = Unit
  All2 (x ∷ xs) (y ∷ ys) = R x y × All2 xs ys
  All2 [] (y ∷ ys) = ⊥
  All2 (x ∷ xs) [] = ⊥

pub In-map : {A B : Type 0} (f : A → B) (xs : List A) (a : A) → In a xs → In (f a) (map f xs)
In-map f [] a m = absurd m
In-map f (x ∷ xs) a (inl e) = inl (ap f e)
In-map f (x ∷ xs) a (inr m) = inr (In-map f xs a m)

pub map-eq-nil : {A B : Type 0} (f : A → B) (xs : List A) → map f xs ≡ [] → xs ≡ []
map-eq-nil f [] e = refl
map-eq-nil f (x ∷ xs) e = cc

pub length-All2 :
    {A B : Type 0} (R : A → B → Type 0) (xs : List A) (ys : List B)
    → All2 R xs ys
    → length xs ≡ length ys
length-All2 R [] [] h = refl
length-All2 R [] (y ∷ ys) h = absurd h
length-All2 R (x ∷ xs) [] h = absurd h
length-All2 R (x ∷ xs) (y ∷ ys) h = ap suc (length-All2 R xs ys h.1)

pub All-of_In : {A : Type 0} (P : A → Type 0) (xs : List A) → ((a : A) → In a xs → P a) → All P xs
All-of_In P [] f = tt
All-of_In P (x ∷ xs) f = (f x (inl refl), All-of_In P xs (λ a m. f a (inr m)))

pub All2-In :
    {A B : Type 0} (R : A → B → Type 0) (xs : List A) (ys : List B) (x : A)
    → All2 R xs ys
    → In x xs
    → (y : B) × In y ys × R x y
All2-In R [] ys x h m = absurd m
All2-In R (z ∷ xs) [] x h m = absurd h
All2-In R (z ∷ xs) (y ∷ ys) x (h, hs) m = elim m [
  | inl e ↦ (y, inl refl, rw e h)
  | inr j ↦ (let (w, k, r) = All2-In R xs ys x hs j in (w, inr k, r))
]

pub All2-In_back :
    {A B : Type 0} (R : A → B → Type 0) (xs : List A) (ys : List B) (y : B)
    → All2 R xs ys
    → In y ys
    → (x : A) × In x xs × R x y
All2-In_back R [] [] y h m = absurd m
All2-In_back R [] (w ∷ ys) y h m = absurd h
All2-In_back R (x ∷ xs) [] y h m = absurd m
All2-In_back R (x ∷ xs) (w ∷ ys) y (h, hs) m = elim m [
  | inl e ↦ (x, inl refl, rw e h)
  | inr j ↦ (let (z, k, r) = All2-In_back R xs ys y hs j in (z, inr k, r))
]
