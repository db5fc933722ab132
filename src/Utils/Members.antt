-- ===== src/Utils/Members.antt =====
-- Contains of utils/utils.go as membership.
use opvic.Prelude.{
  ◌≡◌, sym, List, [], ◌∷◌, String, ◌==◌, eq_iff, true, In, inl, inr, Bool-cases, arith, ◌∙◌,
}
use opvic.Utils.{contains, sort_strings}
use opvic.Utils.Sets.{contains-sort_strings}

pub In_of_contains : (l : List String) (v : String) → contains l v ≡ true → In v l
unfolding contains
In_of_contains [] v e = cc e
In_of_contains (x ∷ l) v e = elim (Bool-cases (x == v)) [
  | inl t ↦ inl (sym ((eq_iff x v).0 t))
  | inr f ↦ inr (In_of_contains l v (rw f at e))
]

pub contains_of_In : (l : List String) (v : String) → In v l → contains l v ≡ true
unfolding contains
contains_of_In [] v m = absurd m
contains_of_In (x ∷ l) v (inl e) = ground (arith, eq_iff x v, e)
contains_of_In (x ∷ l) v (inr m) = ground (arith, contains_of_In l v m)

pub In-sort_strings : (l : List String) (v : String) → In v l → In v (sort_strings l)
In-sort_strings l v m =
    In_of_contains (sort_strings l) v (contains-sort_strings l v ∙ contains_of_In l v m)
