-- ===== src/Utils/Unique.antt =====
-- RemoveDuplicateStr of utils/utils.go against its specification: the sorted set of its input.
use opvic.Prelude.{List, String, [], ◌≡◌, ◌↔◌, ◌∙◌, sym}
use opvic.Utils.{contains, first_occurrences, remove_duplicate_str}
use opvic.Utils.Sets.{
  IsDistinct, first_occurrences-IsDistinct, contains-first_occurrences, sort_strings-IsDistinct,
  contains-sort_strings,
}
use opvic.Utils.Order.{IsSorted, sort_strings-IsSorted, sorted_unique}

pub record IsSortedSet (l : List String) (out : List String) : Type 0 where
  pub sorted : IsSorted out
  pub distinct : IsDistinct out
  pub members : (s : String) → contains out s ≡ contains l s

pub remove_duplicate_str-IsSortedSet : (l : List String) → IsSortedSet l (remove_duplicate_str l)
unfolding remove_duplicate_str
remove_duplicate_str-IsSortedSet l = record {
  sorted = sort_strings-IsSorted (first_occurrences [] l);
  distinct = sort_strings-IsDistinct (first_occurrences [] l) (first_occurrences-IsDistinct [] l);
  members = λ s. rw (contains-sort_strings, contains-first_occurrences);
}

-- A list is the result of RemoveDuplicateStr exactly when it is sorted, has no duplicates and has
-- the members of the argument.
pub remove_duplicate_str_iff :
    (l out : List String) → (remove_duplicate_str l ≡ out) ↔ IsSortedSet l out
remove_duplicate_str_iff l out =
    let r = remove_duplicate_str-IsSortedSet l in
    (
      λ e. rw (← e) r,
      λ h.
          sorted_unique _ out r.sorted r.distinct h.sorted h.distinct
            (λ s. r.members s ∙ sym (h.members s)),
    )

-- The result depends on the members of the argument alone.
pub remove_duplicate_str_cong :
    (l m : List String)
    → ((s : String) → contains l s ≡ contains m s)
    → remove_duplicate_str l ≡ remove_duplicate_str m
remove_duplicate_str_cong l m e =
    let r = remove_duplicate_str-IsSortedSet m in
    (remove_duplicate_str_iff l _).1
      (record { sorted = r.sorted; distinct = r.distinct; members = λ s. r.members s ∙ sym (e s) })
