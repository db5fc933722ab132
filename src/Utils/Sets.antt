-- ===== src/Utils/Sets.antt =====
-- Contains as membership, and what the loop of RemoveDuplicateStr keeps.
use opvic.Prelude.{
  AllPairs, ◌≢◌, All, str_leb, false, ◌||◌, List, [], ◌∷◌, String, ◌≡◌, refl, ◌==◌, eq_iff, arith,
  if◌then◌else◌, Bool-cases, inl, inr,
}
use opvic.Utils.{contains, first_occurrences, insert, sort_strings, remove_duplicate_str}

-- No text occurs twice.
abbrev pub IsDistinct : List String → Type 0
IsDistinct [] = Unit
IsDistinct (s ∷ l) = (contains l s ≡ false) × IsDistinct l

-- The loop keeps exactly the members that its map does not hold yet.
pub contains-first_occurrences :
    (keys l : List String) (s : String)
    → contains (first_occurrences keys l) s ≡ (if contains keys s then false else contains l s)
unfolding first_occurrences contains
contains-first_occurrences keys [] s = ground arith
contains-first_occurrences keys (x ∷ l) s = ground (
  arith,
  contains-first_occurrences keys l s,
  contains-first_occurrences (x ∷ keys) l s,
  eq_iff x s,
)

pub first_occurrences-IsDistinct : (keys l : List String) → IsDistinct (first_occurrences keys l)
unfolding first_occurrences
first_occurrences-IsDistinct keys [] = tt
first_occurrences-IsDistinct keys (x ∷ l) = elim (Bool-cases (contains keys x)) [
  | inl old ↦ rw old (first_occurrences-IsDistinct keys l)
  | inr new ↦ rw new (
    rw contains-first_occurrences (unfold contains in ground (arith, eq_iff x x)),
    first_occurrences-IsDistinct (x ∷ keys) l,
  )
]

pub contains-insert :
    (x : String) (l : List String) (s : String) → contains (insert x l) s ≡ (x == s || contains l s)
unfolding insert contains
contains-insert x [] s = refl
contains-insert x (y ∷ l) s = ground (arith, contains-insert x l s)

pub contains-sort_strings :
    (l : List String) (s : String) → contains (sort_strings l) s ≡ contains l s
unfolding sort_strings contains
contains-sort_strings [] s = refl
contains-sort_strings (x ∷ l) s = rw (contains-insert, contains-sort_strings l s)

insert-IsDistinct :
    (x : String) (l : List String) → contains l x ≡ false → IsDistinct l → IsDistinct (insert x l)
unfolding insert contains
insert-IsDistinct x [] h d = (refl, tt)
insert-IsDistinct x (y ∷ l) h (e, d) =
    ground
      (arith, insert-IsDistinct x l (ground arith) d, contains-insert x l y, eq_iff x y, eq_iff y x)

pub sort_strings-IsDistinct : (l : List String) → IsDistinct l → IsDistinct (sort_strings l)
unfolding sort_strings
sort_strings-IsDistinct [] d = tt
sort_strings-IsDistinct (x ∷ l) (e, d) =
    insert-IsDistinct x (sort_strings l) (rw contains-sort_strings e) (sort_strings-IsDistinct l d)

insert-All :
    (P : String → Type 0) (x : String) (l : List String) → P x → All P l → All P (insert x l)
unfolding insert
insert-All P x [] p h = (p, tt)
insert-All P x (y ∷ l) p (q, h) = elim (Bool-cases (str_leb x y)) [
  | inl t ↦ rw t (p, (q, h))
  | inr f ↦ rw f (q, insert-All P x l p h)
]

pub sort_strings-All : (P : String → Type 0) (l : List String) → All P l → All P (sort_strings l)
unfolding sort_strings
sort_strings-All P [] h = tt
sort_strings-All P (x ∷ l) (p, h) = insert-All P x (sort_strings l) p (sort_strings-All P l h)

pub first_occurrences-All :
    (P : String → Type 0) (keys l : List String) → All P l → All P (first_occurrences keys l)
unfolding first_occurrences
first_occurrences-All P keys [] h = tt
first_occurrences-All P keys (x ∷ l) (p, h) = elim (Bool-cases (contains keys x)) [
  | inl old ↦ rw old (first_occurrences-All P keys l h)
  | inr new ↦ rw new (p, first_occurrences-All P (x ∷ keys) l h)
]

pub remove_duplicate_str-All :
    (P : String → Type 0) (l : List String) → All P l → All P (remove_duplicate_str l)
unfolding remove_duplicate_str
remove_duplicate_str-All P l h =
    sort_strings-All P (first_occurrences [] l) (first_occurrences-All P [] l h)

-- What is not contained differs from each member.
contains-ne : (s : String) (l : List String) → contains l s ≡ false → All (λ x. s ≢ x) l
unfolding contains
contains-ne s [] e = tt
contains-ne s (x ∷ l) e = (ground (arith, eq_iff x s, e), contains-ne s l (ground arith))

pub IsDistinct-AllPairs : (l : List String) → IsDistinct l → AllPairs (λ a b. a ≢ b) l
IsDistinct-AllPairs [] d = tt
IsDistinct-AllPairs (x ∷ l) (n, d) = (contains-ne x l n, IsDistinct-AllPairs l d)
