-- ===== src/Version/Tops.antt =====
-- The loops of LastMajorsGreaterThan in controlplane/version/version.go: the map that they fill,
-- and the list of the latest versions of its entries.
use mathlib.Core.List.{Permᴰ, append-nil, append_assoc}
use opvic.Prelude.{
  ℕ, List, [], ◌∷◌, ◌++◌, ◌≡◌, refl, sym, ap, ◌∙◌, Bool, inl, inr, some, In, arith, Bool-cases, eqb,
  ltb, filter_bool, ok,
}
use opvic.External.{GoVersion, HasSegments, IsOrdered}
use opvic.Version.{add_version, group_from, latest, latests}
use opvic.Version.Classes.{part, segment-ok}
use opvic.Version.Latest.{latest-IsMaximum}
use opvic.Version.Grouping.{
  entry, entry-add_version, HasDistinctKeys, HasNoEmpty, add_version-HasNoEmpty,
  add_version-HasDistinctKeys,
}

abbrev pub is_major : (G : GoVersion) → G.Version → G.Version → Bool
is_major G w r = ltb (part G 0 w) (part G 0 r)

-- Ranging over a map visits each entry once, in an order that is not specified.
abbrev pub IsReordering {ℓ} : {A : Type ℓ} → (List A → List A) → Type ℓ
IsReordering {A} order = (m : List A) → Permᴰ (order m) m

module _ (G : GoVersion) where
  -- The pure counterpart of the loop that fills the map.
  abbrev pub grouped : List (ℕ × List G.Version) → List G.Version → List (ℕ × List G.Version)
  grouped m [] = m
  grouped m (v ∷ vs) = grouped (add_version (part G 0 v) v m) vs

  pub entry-grouped :
      (m : List (ℕ × List G.Version)) (vs : List G.Version) (k : ℕ)
      → entry (grouped m vs) k ≡ entry m k ++ filter_bool (λ v. eqb (part G 0 v) k) vs
  entry-grouped m [] k = sym (append-nil (entry m k))
  entry-grouped m (v ∷ vs) k =
      let rest = filter_bool (λ r. eqb (part G 0 r) k) vs in
      entry-grouped (add_version (part G 0 v) v m) vs k
      ∙ rw entry-add_version (elim (Bool-cases (eqb (part G 0 v) k)) [
        | inl t ↦ rw t (append_assoc (entry m k) (v ∷ []) rest)
        | inr f ↦ rw f refl
      ])

  pub grouped-HasNoEmpty :
      (m : List (ℕ × List G.Version)) (vs : List G.Version)
      → HasNoEmpty m
      → HasNoEmpty (grouped m vs)
  grouped-HasNoEmpty m [] h = h
  grouped-HasNoEmpty m (v ∷ vs) h =
      grouped-HasNoEmpty (add_version (part G 0 v) v m) vs (add_version-HasNoEmpty _ v m h)

  pub grouped-HasDistinctKeys :
      (m : List (ℕ × List G.Version)) (vs : List G.Version)
      → HasDistinctKeys m
      → HasDistinctKeys (grouped m vs)
  grouped-HasDistinctKeys m [] h = h
  grouped-HasDistinctKeys m (v ∷ vs) h =
      grouped-HasDistinctKeys (add_version (part G 0 v) v m) vs
        (add_version-HasDistinctKeys _ v m h)

  -- `out` holds the latest version of each entry.
  abbrev pub Tops : List (ℕ × List G.Version) → List G.Version → Type 0
  Tops [] [] = Unit
  Tops [] (x ∷ out) = ⊥
  Tops (e ∷ m) [] = ⊥
  Tops (e ∷ m) (x ∷ out) = (latest G e.1 ≡ some x) × Tops m out

  pub Tops-entry :
      (m : List (ℕ × List G.Version)) (out : List G.Version)
      → Tops m out
      → (x : G.Version) → In x out
      → (e : ℕ × List G.Version) × In e m × (latest G e.1 ≡ some x)
  Tops-entry [] [] t x i = absurd i
  Tops-entry [] (y ∷ out) t x i = absurd t
  Tops-entry (e ∷ m) [] t x i = absurd t
  Tops-entry (e ∷ m) (y ∷ out) (t, ts) x (inl p) = (e, inl refl, t ∙ ap some (sym p))
  Tops-entry (e ∷ m) (y ∷ out) (t, ts) x (inr p) =
      let (e', i, q) = Tops-entry m out ts x p in (e', inr i, q)

  pub Tops-In :
      (m : List (ℕ × List G.Version)) (out : List G.Version)
      → Tops m out
      → (e : ℕ × List G.Version) → In e m
      → (x : G.Version) × In x out × (latest G e.1 ≡ some x)
  Tops-In [] out t e i = absurd i
  Tops-In (e' ∷ m) [] t e i = absurd t
  Tops-In (e' ∷ m) (y ∷ out) (t, ts) e (inl p) =
      (y, inl refl, ap (λ (z : ℕ × List G.Version). latest G z.1) p ∙ t)
  Tops-In (e' ∷ m) (y ∷ out) (t, ts) e (inr p) =
      let (x, i, q) = Tops-In m out ts e p in (x, inr i, q)

  module _ (s : HasSegments G) where
    pub group_from-ok :
        (m : List (ℕ × List G.Version)) (vs : List G.Version)
        → group_from G m vs ≡ ok (grouped m vs)
    unfolding group_from
    group_from-ok m [] = refl
    group_from-ok m (v ∷ vs) =
        rw (segment-ok G s v 0 (omega arith)) (group_from-ok (add_version (part G 0 v) v m) vs)

  module _ (o : IsOrdered G) where
    pub latests-ok :
        (m : List (ℕ × List G.Version))
        → HasNoEmpty m
        → (out : List G.Version) × (latests G m ≡ ok out) × Tops m out
    unfolding latests
    latests-ok [] h = ([], refl, tt)
    latests-ok ((k, []) ∷ m) (h, hs) = absurd (h refl)
    latests-ok ((k, v ∷ vs) ∷ m) (h, hs) =
        let (x, e, top) = latest-IsMaximum G o v vs in
        let (out, r, t) = latests-ok m hs in (x ∷ out, rw (e, r), (e, t))
