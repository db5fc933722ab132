-- ===== src/Provider/Paging.antt =====
-- The loop over the pages of a listing in controlplane/providers/github/github.go.
use opvic.Prelude.{
  ℕ, zero, suc, ◌≤◌, ◌≢◌, ◌≡◌, refl, ap, sym, ◌∙◌, List, ◌++◌, Option, some, false, eqb, ok, arith,
}
use mathlib.Core.List.{append_assoc}
use opvic.Provider.{fetch_pages}

-- The listing from `page` on: its items, and how many pages it takes.
pub data Listing {ℓ} {A : Type ℓ} (list : ℕ → Option (List A × ℕ)) : ℕ → List A → ℕ → Type ℓ where
  last : {page : ℕ} {more : List A} → list page ≡ some (more, 0) → Listing list page more 1
  next :
      {page next_page pages : ℕ} {more rest : List A}
      → list page ≡ some (more, next_page)
      → next_page ≢ 0
      → Listing list next_page rest pages
      → (items : List A) → items ≡ more ++ rest
      → Listing list page items (suc pages)

module _ {ℓ} {A : Type ℓ} (list : ℕ → Option (List A × ℕ)) (fuel page : ℕ)
    (before more : List A) where
  fetch_pages_last :
      list page ≡ some (more, 0) → fetch_pages list (suc fuel) page before ≡ ok (before ++ more)
  unfolding fetch_pages
  fetch_pages_last e = rw (e, fetch_pages) refl

  fetch_pages_next :
      (next_page : ℕ)
      → list page ≡ some (more, next_page)
      → next_page ≢ 0
      → fetch_pages list (suc fuel) page before ≡ fetch_pages list fuel next_page (before ++ more)
  unfolding fetch_pages
  fetch_pages_next next_page e n =
      let f : eqb next_page 0 ≡ false = ground arith in rw (e, fetch_pages) (rw f refl)

-- With as much fuel as there are pages the loop returns what it had and the items of all pages in
-- their order.
pub fetch_pages-Listing {ℓ} :
    {A : Type ℓ} (list : ℕ → Option (List A × ℕ)) {page : ℕ} {items : List A} {pages : ℕ}
    → Listing list page items pages
    → (fuel : ℕ) (before : List A) → pages ≤ fuel
    → fetch_pages list fuel page before ≡ ok (before ++ items)
fetch_pages-Listing list (last e) zero before le = absurd (omega arith)
fetch_pages-Listing list (last {page} {more} e) (suc fuel) before le =
    fetch_pages_last list fuel page before more e
fetch_pages-Listing list (next e n l items q) zero before le = absurd (omega arith)
fetch_pages-Listing list (next {page} {next_page} {more} {rest} e n l items q) (suc fuel) before
      le =
    fetch_pages_next list fuel page before more next_page e n
    ∙ fetch_pages-Listing list l fuel (before ++ more) (omega arith)
    ∙ ap ok (append_assoc before more rest ∙ ap (λ t. before ++ t) (sym q))
