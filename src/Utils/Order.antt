-- ===== src/Utils/Order.antt =====
-- The lists that sort.Strings makes are sorted, and a sorted list is known by its members.
use opvic.Prelude.{
  true, List, [], ◌∷◌, String, ◌≡◌, refl, ◌==◌, eq_iff, eq_refl, arith, Bool-cases, inl, inr, All,
  str_leb, str_leb_total, str_leb_trans, str_leb_antisymm,
}
use opvic.Utils.{contains, insert, sort_strings}
use opvic.Utils.Sets.{IsDistinct}

abbrev pub IsLeast : String → List String → Type 0
IsLeast s l = All (λ t. str_leb s t ≡ true) l

abbrev pub IsSorted : List String → Type 0
IsSorted [] = Unit
IsSorted (s ∷ l) = IsLeast s l × IsSorted l

IsLeast-trans : (s t : String) (l : List String) → str_leb s t ≡ true → IsLeast t l → IsLeast s l
IsLeast-trans s t [] h k = tt
IsLeast-trans s t (u ∷ l) h (k, ks) = (str_leb_trans s t u h k, IsLeast-trans s t l h ks)

IsLeast-insert :
    (s x : String) (l : List String) → str_leb s x ≡ true → IsLeast s l → IsLeast s (insert x l)
unfolding insert
IsLeast-insert s x [] h k = (h, tt)
IsLeast-insert s x (y ∷ l) h (k, ks) = ground (arith, IsLeast-insert s x l h ks)

insert-IsSorted : (x : String) (l : List String) → IsSorted l → IsSorted (insert x l)
unfolding insert
insert-IsSorted x [] h = (tt, tt)
insert-IsSorted x (y ∷ l) (h, hs) = elim (Bool-cases (str_leb x y)) [
  | inl le ↦ rw le ((le, IsLeast-trans x y l le h), (h, hs))
  | inr gt ↦
      rw gt (IsLeast-insert y x l (ground (arith, str_leb_total x y)) h, insert-IsSorted x l hs)
]

pub sort_strings-IsSorted : (l : List String) → IsSorted (sort_strings l)
unfolding sort_strings
sort_strings-IsSorted [] = tt
sort_strings-IsSorted (x ∷ l) = insert-IsSorted x (sort_strings l) (sort_strings-IsSorted l)

pub IsLeast-contains :
    (s : String) (l : List String)
    → IsLeast s l
    → (t : String) → contains l t ≡ true
    → str_leb s t ≡ true
unfolding contains
IsLeast-contains s [] h t m = cc
IsLeast-contains s (x ∷ l) (h, hs) t m = ground (arith, eq_iff x t, IsLeast-contains s l hs t)

-- The first texts of two such lists are one.
same_head :
    (x y : String) (l m : List String)
    → IsLeast x l
    → IsLeast y m
    → ((s : String) → contains (x ∷ l) s ≡ contains (y ∷ m) s)
    → x ≡ y
unfolding contains
same_head x y l m hl hm e = elim (Bool-cases (x == y)) [
  | inl same ↦ (eq_iff x y).0 same
  | inr other ↦
      str_leb_antisymm x y (IsLeast-contains x l hl y (ground (arith, e y, eq_refl y)))
        (IsLeast-contains y m hm x (ground (arith, e x, eq_refl x, eq_iff x y, eq_iff y x)))
]

-- Two sorted lists without duplicates that have the same members are one list.
pub sorted_unique :
    (l m : List String)
    → IsSorted l
    → IsDistinct l
    → IsSorted m
    → IsDistinct m
    → ((s : String) → contains l s ≡ contains m s)
    → l ≡ m
unfolding contains
sorted_unique [] [] hl dl hm dm e = refl
sorted_unique [] (y ∷ m) hl dl hm dm e = ground (arith, e y, eq_refl y)
sorted_unique (x ∷ l) [] hl dl hm dm e = ground (arith, e x, eq_refl x)
sorted_unique (x ∷ l) (y ∷ m) (hl, sl) (dl, ul) (hm, sm) (dm, um) e =
    let same = same_head x y l m hl hm e in
    let rest =
      sorted_unique l m sl ul sm um (λ s. ground (arith, e s, same, eq_iff x s, eq_iff y s)) in
    cc (same, rest)
