-- ===== src/Prelude/State.antt =====
-- Methods that read and write a state and may fail: what was written before an error stays written.
use mathlib.Core.Path.{◌≡◌, refl, sym, ap, subst}
use mathlib.Core.List.{List, [], ◌∷◌}
use mathlib.Core.Logic.{◌⊎◌, inl, inr}
use opvic.Prelude.Lists.{All, In}
use opvic.Prelude.Results.{Outcome, ok, err, panic, unfinished}

abbrev pub Run : Type 0 → Type 0 → Type 0
Run S A = S → Outcome A × S

abbrev pub continue : {S A B : Type 0} → Outcome A → (A → Run S B) → Run S B
continue (ok a) f s = f a s
continue (err e) f s = (err e, s)
continue panic f s = (panic, s)
continue unfinished f s = (unfinished, s)

module _ {S A : Type 0} where
  abbrev pub pure : A → Run S A
  pure a s = (ok a, s)

  abbrev pub lift : Outcome A → Run S A
  lift r s = (r, s)

  abbrev pub gets : (S → A) → Run S A
  gets f s = (ok (f s), s)

infixl 5 ◌>>=◌ ◌>>◌
abbrev pub ◌>>=◌ : {S A B : Type 0} → Run S A → (A → Run S B) → Run S B
◌>>=◌ m f s = continue (m s).0 f (m s).1

abbrev pub ◌>>◌ : {S B : Type 0} → Run S (Unit {0}) → Run S B → Run S B
m >> k = m >>= λ _. k

-- `for _, x := range xs { body(x) }`
abbrev pub for_each : {S A : Type 0} → List A → (A → Run S (Unit {0})) → Run S (Unit {0})
for_each [] body = pure tt
for_each (x ∷ xs) body = body x >> for_each xs body

-- A chain that returned has returned from its first step.
pub continue-eq-ok :
    {S A B : Type 0} (first : Outcome A) (next : A → Run S B) (s t : S) (b : B)
    → continue first next s ≡ (ok b, t)
    → (a : A) × (first ≡ ok a) × (next a s ≡ (ok b, t))
continue-eq-ok (ok a) next s t b e = (a, refl, e)
continue-eq-ok (err x) next s t b e = absurd (cc (ap (λ p. p.0) e))
continue-eq-ok panic next s t b e = absurd (cc (ap (λ p. p.0) e))
continue-eq-ok unfinished next s t b e = absurd (cc (ap (λ p. p.0) e))

-- A method that writes nothing.
abbrev pub IsReader : {S A : Type 0} → Run S A → Type 0
IsReader {S} m = (s : S) → (m s).1 ≡ s

pub continue-same :
    {S A B : Type 0} (first : Outcome A) (next : A → Run S B) (s : S)
    → ((a : A) → IsReader (next a))
    → (continue first next s).1 ≡ s
continue-same (ok a) next s h = h a s
continue-same (err e) next s h = refl
continue-same panic next s h = refl
continue-same unfinished next s h = refl

pub bind-IsReader :
    {S A B : Type 0} (m : Run S A) (f : A → Run S B)
    → IsReader m
    → ((a : A) → IsReader (f a))
    → IsReader (m >>= f)
bind-IsReader m f h k s = rw (h s) (continue-same (m s).0 f s k)

-- A method that gives its answer again in a state like the one that it left, also if a chain goes
-- on and only computes.
module _ {S A B : Type 0} (like : S → S) (m again : Run S A) (s t : S) (b : B)
    (repeats : (u : S) (a : A) → m s ≡ (ok a, u) → again (like u) ≡ (ok a, like u)) where
  pub bind-again :
      (f : A → Run S B)
      → ((a : A) (u v : S) → f a u ≡ (ok b, v) → (v ≡ u) × (f a (like u) ≡ (ok b, like u)))
      → (m >>= f) s ≡ (ok b, t)
      → (again >>= f) (like t) ≡ (ok b, like t)
  bind-again f computes e =
      let u = (m s).1 in
      let (a, p, q) = continue-eq-ok (m s).0 f u t b e in
      let held : again (like u) ≡ (ok a, like u) = repeats u a (ap (λ o. (o, u)) p) in
      let (left, next) = computes a u t q in
      subst (λ x. (again >>= f) (like x) ≡ (ok b, like x)) (sym left) (rw held next)

  pub lift_last-again :
      (f : A → Outcome B)
      → (m >>= λ a. lift (f a)) s ≡ (ok b, t)
      → (again >>= λ a. lift (f a)) (like t) ≡ (ok b, like t)
  lift_last-again f =
      bind-again (λ a. lift (f a)) (λ a u v q. (sym (ap (λ x. x.1) q), ap (λ x. (x.0, like u)) q))

-- A step returns, or the chain ends there with the state as it is.
pub continue-cases :
    {S A : Type 0} (first : Outcome A) (B : Type 0)
    → ((a : A) × (first ≡ ok a)) ⊎ ((next : A → Run S B) (s : S) → (continue first next s).1 ≡ s)
continue-cases (ok a) B = inl (a, refl)
continue-cases (err e) B = inr (λ next s. refl)
continue-cases panic B = inr (λ next s. refl)
continue-cases unfinished B = inr (λ next s. refl)

-- A step that only computes leaves the state that it is given.
pub lift_last :
    {S A B : Type 0} (m : Run S A) (f : A → Outcome B) (s : S)
    → ((m >>= λ a. lift (f a)) s).1 ≡ (m s).1
lift_last m f s = continue-same (m s).0 (λ a. lift (f a)) (m s).1 (λ a t. refl)

-- A chain whose last step only computes has returned what that step computes.
pub lift_last-ok :
    {S A B : Type 0} (first : Outcome A) (f : A → Outcome B) (s : S) (b : B)
    → (continue first (λ a. lift (f a)) s).0 ≡ ok b
    → (a : A) × (f a ≡ ok b)
lift_last-ok (ok a) f s b e = (a, e)
lift_last-ok (err x) f s b e = absurd (cc e)
lift_last-ok panic f s b e = absurd (cc e)
lift_last-ok unfinished f s b e = absurd (cc e)

-- The loop over `l` that starts in `s` comes to an element `x` in the state `u`.
abbrev pub Meets : {S A : Type 0} → (A → Run S (Unit {0})) → List A → S → A → S → Type 0
Meets body [] s x u = ⊥
Meets body (y ∷ l) s x u =
    ((y ≡ x) × (u ≡ s)) ⊎ (((body y s).0 ≡ ok tt) × Meets body l (body y s).1 x u)

-- A loop whose steps lead on, each doing something for its element that lasts, or end the loop.
module _ {S A : Type 0} (P : S → Type 0) (Rel : S → S → Type 0) (Done : A → S → Type 0)
    (Stop : A → Outcome (Unit {0}) → Type 0) (Q : A → Type 0) (Called : A → S → Type 0)
    (body : A → Run S (Unit {0})) (start : (s : S) → P s → Rel s s)
    (then : (s t u : S) → Rel s t → Rel t u → Rel s u) (inside : (s t : S) → Rel s t → P t)
    (lasts : (x : A) → Q x → (s t : S) → Rel s t → Done x s → Done x t)
    (stops : (x : A) (r : Outcome (Unit {0})) → Stop x r → (r ≡ panic) ⊎ (r ≡ unfinished))
    (step : (x : A)
      → Q x
      → (s : S) → P s
      → Called x s
      → (((body x s).0 ≡ ok tt) × Rel s (body x s).1 × Done x (body x s).1)
        ⊎ Stop x (body x s).0) where
  abbrev IsLoop : List A → S → Outcome (Unit {0}) × S → Type 0
  IsLoop l s p =
      ((p.0 ≡ ok tt) × Rel s p.1 × All (λ x. Done x p.1) l) ⊎ ((x : A) × In x l × Stop x p.0)

  pub for_each-Done :
      (l : List A)
      → All Q l
      → (s : S) → P s
      → ((x : A) (u : S) → Meets body l s x u → Called x u)
      → IsLoop l s (for_each l body s)
  for_each-Done [] h s p called = inl (refl, start s p, tt)
  for_each-Done (x ∷ l) (q, qs) s p called = elim (step x q s p (called x s (inl (refl, refl)))) [
    | inl (e, r, d) ↦
        let same : for_each (x ∷ l) body s ≡ for_each l body (body x s).1 = rw e refl in
        subst (IsLoop (x ∷ l) s) (sym same)
          (elim (for_each-Done l qs (body x s).1 (inside s _ r)
            (λ y u m. called y u (inr (e, m)))) [
              | inl (e', r', ds) ↦
                  inl (e', then s (body x s).1 _ r r', (lasts x q (body x s).1 _ r' d, ds))
              | inr (y, m, stop) ↦ inr (y, inr m, stop)
            ])
    | inr stop ↦ elim (stops x (body x s).0 stop) [
      | inl e ↦ inr (x, inl refl, rw e (rw e at stop))
      | inr e ↦ inr (x, inl refl, rw e (rw e at stop))
    ]
  ]
