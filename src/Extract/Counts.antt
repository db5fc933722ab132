-- ===== src/Extract/Counts.antt =====
-- The counts of agent/extract_version.go: how often each of the distinct versions was extracted.
use opvic.Prelude.{
  ℕ, ◌+◌, ◌≤◌, ◌≡◌, ◌∙◌, refl, sym, true, false, List, [], ◌∷◌, map, String, ◌==◌, eq_iff, arith,
  Bool-cases, inl, inr, length, if◌then◌else◌,
}
use opvic.Utils.{contains}
use opvic.Utils.Sets.{IsDistinct}
use opvic.Extract.{count}

abbrev pub sum : List ℕ → ℕ
sum [] = 0
sum (n ∷ ns) = n + sum ns

-- One text more adds one to the sum if it is counted.
sum_cons :
    (x : String) (vs u : List String)
    → IsDistinct u
    → sum (map (count (x ∷ vs)) u) ≡ sum (map (count vs) u) + (if contains u x then 1 else 0)
unfolding count contains
sum_cons x vs [] d = omega arith
sum_cons x vs (s ∷ u) (new, d) = elim (Bool-cases (s == x)) [
  | inl t ↦
      let e : contains u x ≡ false = rw (sym ((eq_iff s x).0 t)) new in
      ground (arith, sum_cons x vs u d, t, e)
  | inr f ↦ ground (arith, sum_cons x vs u d, f)
]

sum_nil : (u : List String) → sum (map (count []) u) ≡ 0
unfolding count
sum_nil [] = refl
sum_nil (s ∷ u) = omega (arith, sum_nil u)

-- Over distinct texts that hold all of a list the counts add up to its length.
pub sum-count :
    (vs u : List String)
    → IsDistinct u
    → ((s : String) → contains vs s ≡ true → contains u s ≡ true)
    → sum (map (count vs) u) ≡ length vs
sum-count [] u d h = sum_nil u
sum-count (x ∷ vs) u d h =
    let e : contains u x ≡ true = h x (unfold contains in ground (arith, eq_iff x x)) in
    let ih = sum-count vs u d (λ s k. h s (unfold contains in ground arith)) in
    sum_cons x vs u d ∙ rw e (omega (arith, ih))

pub count_pos : (vs : List String) (s : String) → contains vs s ≡ true → 1 ≤ count vs s
unfolding count contains
count_pos [] s h = absurd (cc h)
count_pos (v ∷ vs) s h = ground (arith, count_pos vs s, eq_iff s v, eq_iff v s)
