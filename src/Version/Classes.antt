-- ===== src/Version/Classes.antt =====
-- GreaterThan, MinorsGreaterThan and PatchesGreaterThan of controlplane/version/version.go, as
-- parts of the remote versions.
use opvic.Prelude.{
  ℕ, zero, suc, ◌<◌, List, [], ◌∷◌, none, some, ◌≡◌, refl, true, Bool, ◌&&◌, ◌⊎◌, arith, Outcome,
  ok, ◌>>=◌, filter_bool, filter_outcome-ok, length, get_elem?, ltb, eqb, and_then, filter_bool-In,
  In, inl, inr, ◌↔◌,
}
use opvic.External.{GoVersion, HasSegments}
use opvic.Version.{
  Versions, segment, same_segment, greater_segment, greater_than, minors_greater_than,
  patches_greater_than, running,
}

-- The numeric segment `i`, 0 where there is none.
abbrev pub get_or : List ℕ → ℕ → ℕ
get_or xs i = elim (get_elem? xs i) [ none ↦ 0 | some x ↦ x ]

abbrev pub part : (G : GoVersion) → ℕ → G.Version → ℕ
part G i v = get_or (G.segments v) i

-- Major, minor and patch numbers compared from the left: the running `w` is below `r`.
abbrev pub CoreLess : (G : GoVersion) → G.Version → G.Version → Type 0
CoreLess G w r =
    (part G 0 w < part G 0 r)
    ⊎ ((part G 0 r ≡ part G 0 w) × (part G 1 w < part G 1 r))
    ⊎ ((part G 0 r ≡ part G 0 w) × (part G 1 r ≡ part G 1 w) × (part G 2 w < part G 2 r))

-- Precedence compares "the major, minor, and patch versions numerically" first.
pub record ComparesSegments (G : GoVersion) : Type 0 where
  pub core : (w r : G.Version) → CoreLess G w r → G.greater_than r w ≡ true

get_or-ok :
    (xs : List ℕ) (i : ℕ)
    → i < length xs
    → (elim (get_elem? xs i) as (λ _. Outcome ℕ) [ none ↦ Outcome.panic | some x ↦ ok x ])
      ≡ ok (get_or xs i)
get_or-ok [] i h = absurd (omega arith)
get_or-ok (x ∷ xs) zero h = refl
get_or-ok (x ∷ xs) (suc i) h = get_or-ok xs i (omega arith)

abbrev pub is_minor : (G : GoVersion) → G.Version → G.Version → Bool
is_minor G w r = eqb (part G 0 r) (part G 0 w) && ltb (part G 1 w) (part G 1 r)

abbrev pub is_patch : (G : GoVersion) → G.Version → G.Version → Bool
is_patch G w r =
    eqb (part G 0 r) (part G 0 w)
    && (eqb (part G 1 r) (part G 1 w) && ltb (part G 2 w) (part G 2 r))

module _ (G : GoVersion) (s : HasSegments G) where
  pub segment-ok : (v : G.Version) (i : ℕ) → i < 3 → segment G v i ≡ ok (part G i v)
  segment-ok v i h = get_or-ok (G.segments v) i (omega (arith, s.three v))

  module _ (v : Versions G) (w : G.Version) (h : v.running_version ≡ some w) where
    pub same_segment-ok :
        (r : G.Version) (i : ℕ) → i < 3 → same_segment G v i r ≡ ok (eqb (part G i r) (part G i w))
    same_segment-ok r i lt = rw (segment-ok r i lt, h, segment-ok w i lt)

    pub greater_segment-ok :
        (r : G.Version) (i : ℕ)
        → i < 3
        → greater_segment G v i r ≡ ok (ltb (part G i w) (part G i r))
    greater_segment-ok r i lt = rw (segment-ok r i lt, h, segment-ok w i lt)

    is_minor-ok :
        (r : G.Version)
        → and_then (same_segment G v 0 r) (greater_segment G v 1 r) ≡ ok (is_minor G w r)
    is_minor-ok r =
        rw (same_segment-ok r 0 (omega arith), greater_segment-ok r 1 (omega arith)) (ground arith)

    is_patch-ok :
        (r : G.Version)
        → and_then
            (same_segment G v 0 r)
            (and_then (same_segment G v 1 r) (greater_segment G v 2 r))
          ≡ ok (is_patch G w r)
    is_patch-ok r =
        rw
          (
            same_segment-ok r 0 (omega arith),
            same_segment-ok r 1 (omega arith),
            greater_segment-ok r 2 (omega arith),
          )
          (ground arith)

    pub minors-ok :
        minors_greater_than G v
        ≡ ok (record v { remote_versions = filter_bool (is_minor G w) v.remote_versions })
    unfolding minors_greater_than
    minors-ok = rw (filter_outcome-ok _ (is_minor G w) (λ r. is_minor-ok r) v.remote_versions)

    pub patches-ok :
        patches_greater_than G v
        ≡ ok (record v { remote_versions = filter_bool (is_patch G w) v.remote_versions })
    unfolding patches_greater_than
    patches-ok = rw (filter_outcome-ok _ (is_patch G w) (λ r. is_patch-ok r) v.remote_versions)

    pub greater-ok :
        greater_than G v
        ≡ ok
            (record v { remote_versions = filter_bool (λ r. G.greater_than r w) v.remote_versions })
    unfolding greater_than
    greater-ok = rw (
        filter_outcome-ok (λ r. running G v >>= λ x. ok (G.greater_than r x))
          (λ r. G.greater_than r w) (λ r. rw h) v.remote_versions)

    -- The three methods return and keep the running version. GreaterThan has the remote versions
    -- that are greater than the running one, MinorsGreaterThan those of its major with a greater
    -- minor, and PatchesGreaterThan those of its major and minor with a greater patch number; no
    -- version is in both of these. Where precedence compares the numbers first, both are parts of
    -- the greater ones.
    pub minors-patches-disjoint :
        ComparesSegments G
        → (newer minors patches : List G.Version) × (greater_than G v
            ≡ ok (record v { remote_versions = newer }))
          × (minors_greater_than G v ≡ ok (record v { remote_versions = minors }))
          × (patches_greater_than G v ≡ ok (record v { remote_versions = patches }))
          × ((r : G.Version) → In r newer ↔ (In r v.remote_versions × (G.greater_than r w ≡ true)))
          × ((r : G.Version)
              → In r minors
                ↔ (In r v.remote_versions × (part G 0 r ≡ part G 0 w) × (part G 1 w < part G 1 r)))
          × ((r : G.Version)
              → In r patches ↔ (
                  In r v.remote_versions
                  × (part G 0 r ≡ part G 0 w)
                  × (part G 1 r ≡ part G 1 w)
                  × (part G 2 w < part G 2 r)))
          × ((r : G.Version) → In r minors → In r newer)
          × ((r : G.Version) → In r patches → In r newer)
          × ((r : G.Version) → In r minors → ¬ In r patches)
    minors-patches-disjoint c =
        let xs = v.remote_versions in
        (
          _,
          _,
          _,
          greater-ok,
          minors-ok,
          patches-ok,
          λ r. filter_bool-In (λ r. G.greater_than r w) xs r,
          λ r. (
            λ i.
                (let (j, p) = (filter_bool-In (is_minor G w) xs r).0 i in
                  (j, ground arith, ground arith)),
            λ h. (filter_bool-In (is_minor G w) xs r).1 (h.0, ground (arith, h.1, h.2)),
          ),
          λ r. (
            λ i.
                (let (j, p) = (filter_bool-In (is_patch G w) xs r).0 i in
                  (j, ground arith, ground arith, ground arith)),
            λ h. (filter_bool-In (is_patch G w) xs r).1 (h.0, ground (arith, h.1, h.2, h.3)),
          ),
          λ r i.
              (let (j, p) = (filter_bool-In (is_minor G w) xs r).0 i in
                (filter_bool-In (λ r. G.greater_than r w) xs r).1
                  (j, c.core w r (inr (inl (ground arith))))),
          λ r i.
              (let (j, p) = (filter_bool-In (is_patch G w) xs r).0 i in
                (filter_bool-In (λ r. G.greater_than r w) xs r).1
                  (j, c.core w r (inr (inr (ground arith))))),
          λ r i k.
              (let (j, p) = (filter_bool-In (is_minor G w) xs r).0 i in
                let (l, q) = (filter_bool-In (is_patch G w) xs r).0 k in ground arith),
        )
