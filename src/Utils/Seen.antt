-- ===== src/Utils/Seen.antt =====
-- The loops that append a text to a list unless Contains finds it there, against the loop of
-- RemoveDuplicateStr.
use opvic.Prelude.{
  List, [], ◌∷◌, ◌++◌, String, ◌==◌, ◌||◌, ◌≡◌, ◌∙◌, sym, ap, refl, arith, if◌then◌else◌,
  Bool-cases, inl, inr,
}
use mathlib.Core.List.{append_assoc, append-nil}
use opvic.Utils.{contains, first_occurrences}

abbrev pub add_new : List String → String → List String
add_new l v = if contains l v then l else l ++ v ∷ []

abbrev pub add_all : List String → List String → List String
add_all l [] = l
add_all l (v ∷ vs) = add_all (add_new l v) vs

pub contains-append :
    (l : List String) (v w : String) → contains (l ++ v ∷ []) w ≡ (contains l w || v == w)
unfolding contains
contains-append [] v w = ground arith
contains-append (x ∷ l) v w = ground (arith, contains-append l v w)

-- The loop depends on the members of its map alone.
first_occurrences_keys :
    (keys keys' l : List String)
    → ((s : String) → contains keys s ≡ contains keys' s)
    → first_occurrences keys l ≡ first_occurrences keys' l
unfolding first_occurrences
first_occurrences_keys keys keys' [] h = refl
first_occurrences_keys keys keys' (x ∷ l) h =
    rw
      (
        h x,
        first_occurrences_keys keys keys' l h,
        first_occurrences_keys (x ∷ keys) (x ∷ keys') l
            (λ s. unfold contains in ap (λ b. x == s || b) (h s)),
      )
      refl

add_all-append : (l vs : List String) → add_all l vs ≡ l ++ first_occurrences l vs
unfolding first_occurrences
add_all-append l [] = sym (append-nil l)
add_all-append l (v ∷ vs) = elim (Bool-cases (contains l v)) [
  | inl old ↦ rw old (add_all-append l vs)
  | inr new ↦ rw new (
      add_all-append (l ++ v ∷ []) vs
      ∙ append_assoc l (v ∷ []) _
      ∙ ap (λ r. l ++ v ∷ r)
          (first_occurrences_keys (l ++ v ∷ []) (v ∷ l) vs
            (λ s. contains-append l v s ∙ (unfold contains in ground arith))))
]

-- From the empty list the loop keeps the first occurrence of each text.
pub add_all-eq-first_occurrences : (vs : List String) → add_all [] vs ≡ first_occurrences [] vs
add_all-eq-first_occurrences vs = add_all-append [] vs
