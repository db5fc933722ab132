-- ===== src/Utils/Counting.antt =====
-- How many members a list without duplicates can have.
use opvic.Prelude.{
  ◌≤◌, ◌≢◌, refl, sym, List, [], ◌∷◌, length, String, ◌==◌, eq_iff, if◌then◌else◌, In, inl, inr,
  arith, Bool-cases, ◌+◌, ◌∙◌,
}
use opvic.Utils.Sets.{IsDistinct}
use opvic.Utils.Members.{contains_of_In}

without : String → List String → List String
without x [] = []
without x (y ∷ l) = if y == x then l else y ∷ without x l

length-without : (x : String) (l : List String) → In x l → 1 + length (without x l) ≤ length l
unfolding without
length-without x [] m = absurd m
length-without x (y ∷ l) m = elim (Bool-cases (y == x)) [
  | inl t ↦ rw t (omega arith)
  | inr f ↦ elim m [
    | inl e ↦ absurd (cc (f, (eq_iff y x).1 (sym e)))
    | inr k ↦ rw f (omega (arith, length-without x l k))
  ]
]

In-without : (x y : String) (l : List String) → y ≢ x → In y l → In y (without x l)
unfolding without
In-without x y [] n m = absurd m
In-without x y (z ∷ l) n m = elim (Bool-cases (z == x)) [
  | inl t ↦ rw t (elim m [ inl e ↦ absurd (n (e ∙ (eq_iff z x).0 t)) | inr k ↦ k ])
  | inr f ↦ rw f (elim m [ inl e ↦ inl e | inr k ↦ inr (In-without x y l n k) ])
]

-- A list without duplicates is not longer than one that has all its members.
pub length-members :
    (xs ys : List String)
    → IsDistinct xs
    → ((x : String) → In x xs → In x ys)
    → length xs ≤ length ys
length-members [] ys d h = omega arith
length-members (x ∷ xs) ys (new, d) h =
    let rest = length-members xs (without x ys) d (λ y m.
      In-without x y ys (λ e. cc (new, contains_of_In xs x (rw (sym e) m))) (h y (inr m))) in
    omega (arith, rest, length-without x ys (h x (inl refl)))
