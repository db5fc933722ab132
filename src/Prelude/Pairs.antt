-- ===== src/Prelude/Pairs.antt =====
-- Lists whose elements are pairwise related, earlier to later.
use mathlib.Core.Path.{◌≡◌, refl, ap, ◌∙◌, sym}
use mathlib.Core.Logic.{◌⊎◌, inl, inr}
use mathlib.Core.List.{List, [], ◌∷◌, ◌++◌, map}
use mathlib.Core.Option.{Option, none, some}
use opvic.Prelude.Lists.{In, All, All-In, All-of_In, All-append}
use opvic.Prelude.Tests.{Option-cases}

-- The values that are there.
abbrev pub cons_some {ℓ} : {A : Type ℓ} → Option A → List A → List A
cons_some none l = l
cons_some (some a) l = a ∷ l

abbrev pub somes {ℓ} : {A : Type ℓ} → List (Option A) → List A
somes [] = []
somes (o ∷ l) = cons_some o (somes l)

abbrev pub concat_map {ℓ κ} : {A : Type ℓ} {B : Type κ} → (A → List B) → List A → List B
concat_map f [] = []
concat_map f (x ∷ l) = f x ++ concat_map f l

module _ {A : Type 0} where
  abbrev pub AllPairs : (A → A → Type 0) → List A → Type 0
  AllPairs R [] = Unit
  AllPairs R (x ∷ l) = All (R x) l × AllPairs R l

  pub AllPairs-weaken :
      {R S : A → A → Type 0} (l : List A)
      → ((a b : A) → In a l → In b l → R a b → S a b)
      → AllPairs R l
      → AllPairs S l
  AllPairs-weaken [] f h = tt
  AllPairs-weaken {R} {S} (x ∷ l) f (h, k) = (
    All-of_In (S x) l (λ b m. f x b (inl refl) (inr m) (All-In (R x) l h b m)),
    AllPairs-weaken l (λ a b m n r. f a b (inr m) (inr n) r) k,
  )

  pub AllPairs-append :
      (R : A → A → Type 0) (xs ys : List A)
      → AllPairs R xs
      → AllPairs R ys
      → ((a b : A) → In a xs → In b ys → R a b)
      → AllPairs R (xs ++ ys)
  AllPairs-append R [] ys h k f = k
  AllPairs-append R (x ∷ xs) ys (p, h) k f = (
    All-append (R x) xs ys p (All-of_In (R x) ys (λ b m. f x b (inl refl) m)),
    AllPairs-append R xs ys h k (λ a b m n. f a b (inr m) n),
  )

  pub In-append : (a : A) (xs ys : List A) → In a (xs ++ ys) → In a xs ⊎ In a ys
  In-append a [] ys m = inr m
  In-append a (x ∷ xs) ys (inl e) = inl (inl e)
  In-append a (x ∷ xs) ys (inr m) = elim (In-append a xs ys m) [
    | inl k ↦ inl (inr k)
    | inr k ↦ inr k
  ]

module _ {A B : Type 0} where
  pub In-concat_map :
      (f : A → List B) (l : List A) (b : B) → In b (concat_map f l) → (a : A) × In a l × In b (f a)
  In-concat_map f [] b m = absurd m
  In-concat_map f (x ∷ l) b m = elim (In-append b (f x) (concat_map f l) m) [
    | inl k ↦ (x, inl refl, k)
    | inr k ↦ (let (a, i, j) = In-concat_map f l b k in (a, inr i, j))
  ]

  pub concat_map-AllPairs :
      (f : A → List B) (R : B → B → Type 0) (l : List A)
      → ((a : A) → In a l → AllPairs R (f a))
      → AllPairs (λ x y. (a b : B) → In a (f x) → In b (f y) → R a b) l
      → AllPairs R (concat_map f l)
  concat_map-AllPairs f R [] h k = tt
  concat_map-AllPairs f R (x ∷ l) h (p, k) =
      AllPairs-append R (f x) (concat_map f l) (h x (inl refl))
        (concat_map-AllPairs f R l (λ a m. h a (inr m)) k)
        (λ a b m n. (let (y, i, j) = In-concat_map f l b n in All-In _ l p y i a b m j))

  pub In-somes :
      (f : A → Option B) (l : List A) (b : B)
      → In b (somes (map f l))
      → (a : A) × In a l × (f a ≡ some b)
  In-somes f [] b m = absurd m
  In-somes f (x ∷ l) b m = elim (Option-cases (f x)) [
    | inl e ↦ (let (a, i, j) = In-somes f l b (rw e at m) in (a, inr i, j))
    | inr (y, e) ↦ elim (rw e at m) [
      | inl q ↦ (x, inl refl, e ∙ ap some (sym q))
      | inr n ↦ (let (a, i, j) = In-somes f l b n in (a, inr i, j))
    ]
  ]

  pub somes-AllPairs :
      (f : A → Option B) (R : B → B → Type 0) (l : List A)
      → AllPairs (λ x y. (a b : B) → f x ≡ some a → f y ≡ some b → R a b) l
      → AllPairs R (somes (map f l))
  somes-AllPairs f R [] h = tt
  somes-AllPairs f R (x ∷ l) (p, k) = elim (Option-cases (f x)) [
    | inl e ↦ rw e (somes-AllPairs f R l k)
    | inr (y, e) ↦ rw e (
      All-of_In (R y) (somes (map f l))
          (λ b m. (let (a, i, j) = In-somes f l b m in All-In _ l p a i y b e j)),
      somes-AllPairs f R l k,
    )
  ]

  map-All : (f : A → B) (P : B → Type 0) (l : List A) → All (λ x. P (f x)) l → All P (map f l)
  map-All f P [] h = tt
  map-All f P (x ∷ l) (p, h) = (p, map-All f P l h)

  pub map-AllPairs :
      (f : A → B) (R : B → B → Type 0) (l : List A)
      → AllPairs (λ x y. R (f x) (f y)) l
      → AllPairs R (map f l)
  map-AllPairs f R [] h = tt
  map-AllPairs f R (x ∷ l) (p, k) = (map-All f (R (f x)) l p, map-AllPairs f R l k)

  map-All_inverse :
      (f : A → B) (P : B → Type 0) (l : List A) → All P (map f l) → All (λ x. P (f x)) l
  map-All_inverse f P [] h = tt
  map-All_inverse f P (x ∷ l) (p, h) = (p, map-All_inverse f P l h)

  pub map-AllPairs_inverse :
      (f : A → B) (R : B → B → Type 0) (l : List A)
      → AllPairs R (map f l)
      → AllPairs (λ x y. R (f x) (f y)) l
  map-AllPairs_inverse f R [] h = tt
  map-AllPairs_inverse f R (x ∷ l) (p, k) =
      (map-All_inverse f (R (f x)) l p, map-AllPairs_inverse f R l k)

  pub In-map_inverse :
      (f : A → B) (l : List A) (b : B) → In b (map f l) → (a : A) × In a l × (b ≡ f a)
  In-map_inverse f [] b m = absurd m
  In-map_inverse f (x ∷ l) b (inl e) = (x, inl refl, e)
  In-map_inverse f (x ∷ l) b (inr m) = let (a, i, e) = In-map_inverse f l b m in (a, inr i, e)
