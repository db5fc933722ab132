-- ===== src/Version/Grouping.antt =====
-- The map from majors to versions of LastMajorsGreaterThan in controlplane/version/version.go.
use mathlib.Core.Path.{subst}
use mathlib.Core.List.{Permᴰ}
use opvic.Prelude.{
  ℕ, List, [], ◌∷◌, ◌++◌, ◌≡◌, ◌≢◌, sym, ap, ◌∙◌, inl, inr, In, All, arith, Bool-cases,
  if◌then◌else◌, eqb,
}
use opvic.Version.{add_version}

module _ {A : Type 0} where
  -- What the map has under a key: nil for a key that is not there.
  abbrev pub entry : List (ℕ × List A) → ℕ → List A
  entry [] k = []
  entry ((j, vs) ∷ m) k = if eqb j k then vs else entry m k

  abbrev pub HasDistinctKeys : List (ℕ × List A) → Type 0
  HasDistinctKeys [] = Unit
  HasDistinctKeys ((j, vs) ∷ m) = All (λ e. e.0 ≢ j) m × HasDistinctKeys m

  abbrev pub HasNoEmpty : List (ℕ × List A) → Type 0
  HasNoEmpty m = All (λ e. e.1 ≢ []) m

  pub entry-add_version :
      (j : ℕ) (v : A) (m : List (ℕ × List A)) (k : ℕ)
      → entry (add_version j v m) k ≡ (if eqb j k then entry m k ++ v ∷ [] else entry m k)
  unfolding add_version
  entry-add_version j v [] k = ground arith
  entry-add_version j v ((i, vs) ∷ m) k = ground (arith, entry-add_version j v m k)

  append-ne-nil : (vs : List A) (v : A) → (vs ++ v ∷ []) ≢ []
  append-ne-nil [] v e = cc
  append-ne-nil (x ∷ vs) v e = cc

  pub add_version-HasNoEmpty :
      (j : ℕ) (v : A) (m : List (ℕ × List A)) → HasNoEmpty m → HasNoEmpty (add_version j v m)
  unfolding add_version
  add_version-HasNoEmpty j v [] h = (λ e. cc, tt)
  add_version-HasNoEmpty j v ((i, vs) ∷ m) (h, hs) = elim (Bool-cases (eqb i j)) [
    | inl t ↦ rw t (append-ne-nil vs v, hs)
    | inr f ↦ rw f (h, add_version-HasNoEmpty j v m hs)
  ]

  All-add_version :
      (i j : ℕ) (v : A) (m : List (ℕ × List A))
      → j ≢ i
      → All (λ e. e.0 ≢ i) m
      → All (λ e. e.0 ≢ i) (add_version j v m)
  unfolding add_version
  All-add_version i j v [] n h = (n, tt)
  All-add_version i j v ((k, vs) ∷ m) n (h, hs) = elim (Bool-cases (eqb k j)) [
    | inl t ↦ rw t (h, hs)
    | inr f ↦ rw f (h, All-add_version i j v m n hs)
  ]

  pub add_version-HasDistinctKeys :
      (j : ℕ) (v : A) (m : List (ℕ × List A))
      → HasDistinctKeys m
      → HasDistinctKeys (add_version j v m)
  unfolding add_version
  add_version-HasDistinctKeys j v [] h = (tt, tt)
  add_version-HasDistinctKeys j v ((i, vs) ∷ m) (h, hs) = elim (Bool-cases (eqb i j)) [
    | inl t ↦ rw t (h, hs)
    | inr f ↦ rw f (All-add_version i j v m (ground arith) h, add_version-HasDistinctKeys j v m hs)
  ]

  -- In a map each entry is what its key looks up.
  key-In :
      (m : List (ℕ × List A)) (e : ℕ × List A) (j : ℕ) → All (λ x. x.0 ≢ j) m → In e m → e.0 ≢ j
  key-In [] e j h i q = absurd i
  key-In (x ∷ m) e j h (inl p) q = h.0 (ap (λ (y : ℕ × List A). y.0) (sym p) ∙ q)
  key-In (x ∷ m) e j h (inr p) q = key-In m e j h.1 p q

  pub entry-eq_of_In :
      (m : List (ℕ × List A))
      → HasDistinctKeys m
      → (k : ℕ) (vs : List A) → In (k, vs) m
      → entry m k ≡ vs
  entry-eq_of_In [] d k vs i = absurd i
  entry-eq_of_In ((j, us) ∷ m) (d, ds) k vs (inl p) = ground arith
  entry-eq_of_In ((j, us) ∷ m) (d, ds) k vs (inr p) =
      let ih = entry-eq_of_In m ds k vs p in let n = key-In m (k, vs) j d p in ground arith

  pub entry-In :
      (m : List (ℕ × List A)) (k : ℕ) (vs : List A) → entry m k ≡ vs → vs ≢ [] → In (k, vs) m
  entry-In [] k vs e h = absurd (h (sym e))
  entry-In ((j, us) ∷ m) k vs e h = elim (Bool-cases (eqb j k)) [
    | inl t ↦ inl (ground arith)
    | inr f ↦ inr (entry-In m k vs (ground arith) h)
  ]

  -- What a permutation keeps.
  pub All-perm : (P : A → Type 0) {l m : List A} → Permᴰ l m → All P l → All P m
  All-perm P Permᴰ.nil h = h
  All-perm P (Permᴰ.cons e p) h = (rw (← e) h.0, All-perm P p h.1)
  All-perm P (Permᴰ.swap e f) h = (rw (← f) h.1.0, (rw (← e) h.0, h.1.1))
  All-perm P (Permᴰ.trans p q) h = All-perm P q (All-perm P p h)

  pub In-perm : (a : A) {l m : List A} → Permᴰ l m → In a l → In a m
  In-perm a Permᴰ.nil h = h
  In-perm a (Permᴰ.cons e p) (inl h) = inl (h ∙ e)
  In-perm a (Permᴰ.cons e p) (inr h) = inr (In-perm a p h)
  In-perm a (Permᴰ.swap e f) (inl h) = inr (inl (h ∙ e))
  In-perm a (Permᴰ.swap e f) (inr (inl h)) = inl (h ∙ f)
  In-perm a (Permᴰ.swap e f) (inr (inr h)) = inr (inr h)
  In-perm a (Permᴰ.trans p q) h = In-perm a q (In-perm a p h)

module _ {A : Type 0} where
  pub HasDistinctKeys-perm :
      {l m : List (ℕ × List A)} → Permᴰ l m → HasDistinctKeys l → HasDistinctKeys m
  HasDistinctKeys-perm Permᴰ.nil h = h
  HasDistinctKeys-perm (Permᴰ.cons {a} {b} {l₁ = l} {l₂ = m} e p) h =
      (rw (← e) (All-perm (λ x. x.0 ≢ a.0) p h.0), HasDistinctKeys-perm p h.1)
  HasDistinctKeys-perm (Permᴰ.swap {l} e f) h = (
    (
      λ q. h.0.0 (ap (λ (x : ℕ × List A). x.0) f ∙ sym q ∙ sym (ap (λ (x : ℕ × List A). x.0) e)),
      subst (λ (x : ℕ × List A). All (λ y. y.0 ≢ x.0) l) f h.1.0,
    ),
    (subst (λ (x : ℕ × List A). All (λ y. y.0 ≢ x.0) l) e h.0.1, h.1.1),
  )
  HasDistinctKeys-perm (Permᴰ.trans p q) h = HasDistinctKeys-perm q (HasDistinctKeys-perm p h)
