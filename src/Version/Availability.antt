-- ===== src/Version/Availability.antt =====
-- StringList and the Available flags of controlplane/version/version.go.
use opvic.Prelude.{
  ℕ, ◌<◌, List, [], ◌∷◌, map, ◌≡◌, refl, sym, ap, ◌∙◌, true, Bool, ◌↔◌, inl, inr, some, In, arith,
  Bool-cases, String, ◌==◌, eq_iff, ltb, lt→ltb, Outcome, ok, ◌>>=◌, length, ◌||◌, ◌⊎◌, filter_bool,
  filter_bool-In,
}
use opvic.External.{GoVersion, HasSegments, IsOrdered}
use opvic.Utils.{contains, remove_duplicate_str}
use opvic.Utils.Unique.{remove_duplicate_str-IsSortedSet, remove_duplicate_str_cong}
use opvic.Version.{
  Versions, string_list, last_majors_greater_than, major_available, minor_available,
  patch_available,
}
use opvic.Version.Classes.{part, CoreLess, is_minor, is_patch, minors-ok, patches-ok}
use opvic.Version.Tops.{IsReordering}
use opvic.Version.Majors.{last_majors-IsNewestPerMajor, last_majors-Tops, last_majors-same_members}

pub contains-map :
    {A : Type 0} (f : A → String) (xs : List A) (s : String)
    → (contains (map f xs) s ≡ true) ↔ ((x : A) × In x xs × (f x ≡ s))
unfolding contains
contains-map f [] s = (λ e. absurd (cc e), λ h. absurd h.1)
contains-map f (x ∷ xs) s =
    let ih = contains-map f xs s in
    elim (Bool-cases (f x == s)) [
      | inl t ↦ (λ _. (x, inl refl, (eq_iff _ _).0 t), λ _. rw t)
      | inr n ↦ rw n (
        λ e. (let (y, i, q) = ih.0 e in (y, inr i, q)),
        λ h. elim h.1 [
          | inl p ↦ absurd (cc (n, (eq_iff (f x) s).1 (ap f (sym p) ∙ h.2)))
          | inr i ↦ ih.1 (h.0, i, h.2)
        ],
      )
    ]

Bool-eq_of_iff : (a b : Bool) → (a ≡ true) ↔ (b ≡ true) → a ≡ b
Bool-eq_of_iff a b h = ground (arith, h)

or-cases : (a b c : Bool) → (a || b || c) ≡ true → (a ≡ true) ⊎ ((b ≡ true) ⊎ (c ≡ true))
or-cases a b c h = ground arith

module _ (G : GoVersion) where
  -- Two lists with the same members have the same StringList.
  pub string_list_cong :
      (v : Versions G) (xs ys : List G.Version)
      → ((x : G.Version) → In x xs ↔ In x ys)
      → string_list G (record v { remote_versions = xs })
        ≡ string_list G (record v { remote_versions = ys })
  unfolding string_list
  string_list_cong v xs ys h = remove_duplicate_str_cong _ _ λ s. Bool-eq_of_iff _ _ (
    λ e.
        (let (x, i, q) = (contains-map G.original xs s).0 e in
          (contains-map G.original ys s).1 (x, (h x).0 i, q)),
    λ e.
        (let (x, i, q) = (contains-map G.original ys s).0 e in
          (contains-map G.original xs s).1 (x, (h x).1 i, q)),
  )

  -- StringList lists the original texts.
  pub string_list-In :
      (v : Versions G) (xs : List G.Version) (s : String)
      → (contains (string_list G (record v { remote_versions = xs })) s ≡ true)
        ↔ ((x : G.Version) × In x xs × (G.original x ≡ s))
  unfolding string_list
  string_list-In v xs s =
      rw ((remove_duplicate_str-IsSortedSet (map G.original xs)).members s)
        (contains-map G.original xs s)

  -- StringList is not empty exactly when there is a remote version.
  length_pos_of_contains : (l : List String) (s : String) → contains l s ≡ true → 0 < length l
  unfolding contains
  length_pos_of_contains [] s e = absurd (cc e)
  length_pos_of_contains (x ∷ l) s e = omega arith

  pub string_list_pos_iff :
      (v : Versions G) (xs : List G.Version)
      → (ltb 0 (length (string_list G (record v { remote_versions = xs }))) ≡ true)
        ↔ ((x : G.Version) × In x xs)
  unfolding string_list
  string_list_pos_iff v [] = (λ e. absurd (unfold remove_duplicate_str in cc e), λ h. absurd h.1)
  string_list_pos_iff v (x ∷ xs) = (
    λ _. (x, inl refl),
    λ _. lt→ltb _ _ (
        length_pos_of_contains _ (G.original x) (
          (remove_duplicate_str-IsSortedSet (map G.original (x ∷ xs))).members (G.original x)
          ∙ (contains-map G.original (x ∷ xs) (G.original x)).1 (x, inl refl, refl))),
  )

module _ (G : GoVersion) (s : HasSegments G) (o : IsOrdered G)
    (order : List (ℕ × List G.Version) → List (ℕ × List G.Version)) (visits : IsReordering order)
    (v : Versions G) (w : G.Version) (h : v.running_version ≡ some w) where
  -- What AvailableMajors lists does not depend on the order in which Go ranges over the map.
  majors_any_order :
      (other : List (ℕ × List G.Version) → List (ℕ × List G.Version))
      → IsReordering other
      → (last_majors_greater_than G order v >>= λ r. ok (string_list G r))
        ≡ (last_majors_greater_than G other v >>= λ r. ok (string_list G r))
  majors_any_order other visits' =
      let (xs, e, t) = last_majors-Tops G s o order visits v w h in
      let (ys, e', t') = last_majors-Tops G s o other visits' v w h in
      rw (e, e')
        (ap ok (
          string_list_cong G v xs ys λ x. (
            last_majors-same_members G _ _ _ xs ys (visits _) (visits' _) t t' x,
            last_majors-same_members G _ _ _ ys xs (visits' _) (visits _) t' t x,
          )))

  -- A flag tells whether a remote version of its class exists.
  abbrev Flag : Outcome Bool → (G.Version → Type 0) → Type 0
  Flag f P =
      (b : Bool) × (f ≡ ok b) × ((b ≡ true) ↔ ((r : G.Version) × In r v.remote_versions × P r))

  major_available_lem : Flag (major_available G order v) (λ r. part G 0 w < part G 0 r)
  unfolding major_available
  major_available_lem =
      let (xs, e, n) = last_majors-IsNewestPerMajor G s o order visits v w h in
      let pos = string_list_pos_iff G v xs in
      (
        _,
        rw e refl,
        (
          λ t. (let (x, i) = pos.0 t in (x, n.remote x i, n.above x i)),
          λ k. pos.1 (let (x, i, q) = n.complete k.0 k.1 k.2 in (x, i)),
        ),
      )

  abbrev pub Major : G.Version → Type 0
  Major r = part G 0 w < part G 0 r

  abbrev pub Minor : G.Version → Type 0
  Minor r = (part G 0 r ≡ part G 0 w) × (part G 1 w < part G 1 r)

  abbrev pub Patch : G.Version → Type 0
  Patch r = (part G 0 r ≡ part G 0 w) × (part G 1 r ≡ part G 1 w) × (part G 2 w < part G 2 r)

  -- The flags of the two classes that are filters.
  Flag-filter :
      (f : Outcome Bool) (q : G.Version → Bool) (P : G.Version → Type 0)
      → ((r : G.Version) → (q r ≡ true) ↔ P r)
      → f
        ≡ ok (
            ltb 0 (
              length
                (string_list G (record v { remote_versions = filter_bool q v.remote_versions }))))
      → Flag f P
  Flag-filter f q P iff e =
      let pos = string_list_pos_iff G v (filter_bool q v.remote_versions) in
      (
        _,
        e,
        (
          λ t.
              (let (x, i) = pos.0 t in
                let (j, p) = (filter_bool-In q v.remote_versions x).0 i in (x, j, (iff x).0 p)),
          λ k. pos.1 (k.0, (filter_bool-In q v.remote_versions k.0).1 (k.1, (iff k.0).1 k.2)),
        ),
      )

  minor_available_lem : Flag (minor_available G v) Minor
  unfolding minor_available
  minor_available_lem =
      Flag-filter _ (is_minor G w) Minor (λ r. ground arith) (rw (minors-ok G s v w h) refl)

  patch_available_lem : Flag (patch_available G v) Patch
  unfolding patch_available
  patch_available_lem =
      Flag-filter _ (is_patch G w) Patch (λ r. ground arith) (rw (patches-ok G s v w h) refl)

  -- The three Available methods return, for any order of the map. Each is true exactly when a
  -- remote version has a greater major, the same major and a greater minor, or the same major and
  -- minor and a greater patch number; and some flag is set exactly when the numbers of a remote
  -- version, compared from the left, are above those of the running one.
  pub available_flags :
      (major minor patch : Bool) × (major_available G order v ≡ ok major)
      × (minor_available G v ≡ ok minor)
      × (patch_available G v ≡ ok patch)
      × ((major ≡ true) ↔ ((r : G.Version) × In r v.remote_versions × Major r))
      × ((minor ≡ true) ↔ ((r : G.Version) × In r v.remote_versions × Minor r))
      × ((patch ≡ true) ↔ ((r : G.Version) × In r v.remote_versions × Patch r))
      × (((major || minor || patch) ≡ true)
          ↔ ((r : G.Version) × In r v.remote_versions × CoreLess G w r))
  available_flags =
      let (a, ea, ha) = major_available_lem in
      let (b, eb, hb) = minor_available_lem in
      let (c, ec, hc) = patch_available_lem in
      (
        a,
        b,
        c,
        ea,
        eb,
        ec,
        ha,
        hb,
        hc,
        (
          λ t. elim (or-cases a b c t) [
            | inl p ↦ (let (r, i, q) = ha.0 p in (r, i, inl q))
            | inr p ↦ elim p [
              | inl k ↦ (let (r, i, q) = hb.0 k in (r, i, inr (inl q)))
              | inr k ↦ (let (r, i, q) = hc.0 k in (r, i, inr (inr q)))
            ]
          ],
          λ k. elim k.2 [
            | inl p ↦ ground (arith, ha.1 (k.0, k.1, p))
            | inr (inl p) ↦ ground (arith, hb.1 (k.0, k.1, p))
            | inr (inr p) ↦ ground (arith, hc.1 (k.0, k.1, p))
          ],
        ),
      )
