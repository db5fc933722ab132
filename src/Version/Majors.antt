-- ===== src/Version/Majors.antt =====
-- LastMajorsGreaterThan of controlplane/version/version.go: the newest version of every major
-- above the running one, in whatever order Go ranges over the map.
use mathlib.Core.Option
use opvic.Version.Tops.{
  is_major, IsReordering, grouped, entry-grouped, grouped-HasNoEmpty, grouped-HasDistinctKeys, Tops,
  Tops-entry, Tops-In, group_from-ok, latests-ok,
}
use mathlib.Core.List.Permᴰ
use mathlib.Core.Path.{subst}
use mathlib.Core.List.{Permᴰ}
use opvic.Prelude.{
  ℕ, ◌<◌, List, [], ◌∷◌, ◌≡◌, ◌≢◌, refl, sym, ◌∙◌, false, ◌↔◌, inl, inr, some, In, All, arith, eqb,
  eqb_iff, filter_bool, filter_bool-In, ok, filter_outcome-ok, ltb→lt, lt→ltb, All-In,
}
use opvic.External.{GoVersion, HasSegments, IsOrdered}
use opvic.Version.{Versions, latest, last_majors_greater_than, greater_segment}
use opvic.Version.Classes.{part, greater_segment-ok}
use opvic.Version.Latest.{latest-earliest-extremes}
use opvic.Version.Grouping.{
  entry, HasDistinctKeys, entry-eq_of_In, entry-In, All-perm, In-perm, HasDistinctKeys-perm,
}

module _ (G : GoVersion) where
  -- `out` has the newest of the versions of each major above that of `w`, and one for each major.
  abbrev pub OnePerMajor : List G.Version → Type 0
  OnePerMajor [] = Unit
  OnePerMajor (x ∷ out) = All (λ y. part G 0 y ≢ part G 0 x) out × OnePerMajor out

  pub record IsNewestPerMajor (w : G.Version) (remotes : List G.Version) (out : List G.Version)
      : Type 0 where
    pub remote : (x : G.Version) → In x out → In x remotes
    pub above : (x : G.Version) → In x out → part G 0 w < part G 0 x
    pub newest :
        (x r : G.Version)
        → In x out
        → In r remotes
        → part G 0 r ≡ part G 0 x
        → G.greater_than r x ≡ false
    pub complete :
        (r : G.Version)
        → In r remotes
        → part G 0 w < part G 0 r
        → (x : G.Version) × In x out × (part G 0 x ≡ part G 0 r)
    pub one_per_major : OnePerMajor out

  -- The map that the first two loops make.
  abbrev pub majors_map : G.Version → List G.Version → List (ℕ × List G.Version)
  majors_map w remotes = grouped G [] (filter_bool (is_major G w) remotes)

  module _ (w : G.Version) (remotes : List G.Version) where
    members_at : ℕ → List G.Version
    members_at k = filter_bool (λ r. eqb (part G 0 r) k) (filter_bool (is_major G w) remotes)

    In-members_at :
        (k : ℕ) (r : G.Version)
        → In r (members_at k) ↔ (In r remotes × (part G 0 w < part G 0 r) × (part G 0 r ≡ k))
    unfolding members_at
    In-members_at k r =
        let inner = filter_bool-In (is_major G w) remotes r in
        let outer =
          filter_bool-In (λ r. eqb (part G 0 r) k) (filter_bool (is_major G w) remotes) r in
        (
          λ i. (
            (inner.0 (outer.0 i).0).0,
            ltb→lt _ _ (inner.0 (outer.0 i).0).1,
            (eqb_iff _ _).0 (outer.0 i).1,
          ),
          λ h. outer.1 (inner.1 (h.0, lt→ltb _ _ h.1), (eqb_iff _ _).1 h.2),
        )

    majors_map-HasDistinctKeys : HasDistinctKeys (majors_map w remotes)
    majors_map-HasDistinctKeys =
        grouped-HasDistinctKeys G [] (filter_bool (is_major G w) remotes) tt

    entry-majors_map : (k : ℕ) → entry (majors_map w remotes) k ≡ members_at k
    unfolding members_at
    entry-majors_map k = entry-grouped G [] (filter_bool (is_major G w) remotes) k

    -- A version is in the entry of a key exactly if it is a remote version above `w` of that major.
    In-entry :
        (k : ℕ) (us : List G.Version)
        → In (k, us) (majors_map w remotes)
        → (r : G.Version) → In r us ↔ (In r remotes × (part G 0 w < part G 0 r) × (part G 0 r ≡ k))
    In-entry k us i r =
        rw (sym (entry-eq_of_In _ majors_map-HasDistinctKeys k us i) ∙ entry-majors_map k)
          (In-members_at k r)

    entry_of_major :
        (r : G.Version)
        → In r remotes
        → part G 0 w < part G 0 r
        → In (part G 0 r, members_at (part G 0 r)) (majors_map w remotes)
    entry_of_major r i lt =
        entry-In _ (part G 0 r) _ (entry-majors_map (part G 0 r))
          (λ e. subst (λ us. In r us) e ((In-members_at (part G 0 r) r).1 (i, lt, refl)))

    module _ (o : IsOrdered G) where
      -- The latest of an entry is a newest remote version of its major, which is above `w`.
      entry-newest :
          (k : ℕ) (us : List G.Version) (x : G.Version)
          → In (k, us) (majors_map w remotes)
          → latest G us ≡ some x
          → In x remotes
            × (part G 0 w < part G 0 x)
            × (part G 0 x ≡ k)
            × ((r : G.Version) → In r remotes → part G 0 r ≡ k → G.greater_than r x ≡ false)
      entry-newest k us x i e =
          let top = (latest-earliest-extremes G o us).2 x e in
          let (here, above, major) = (In-entry k us i x).0 top.member in
          (
            here,
            above,
            major,
            λ r j q.
                All-In (λ v. G.greater_than v x ≡ false) us top.upper r
                  ((In-entry k us i r).1 (j, subst (λ n. part G 0 w < n) (major ∙ sym q) above, q)),
          )

      Tops-other :
          (k : ℕ) (x : G.Version)
          → part G 0 x ≡ k
          → (m : List (ℕ × List G.Version)) (out : List G.Version)
          → ((e : ℕ × List G.Version) → In e m → In e (majors_map w remotes))
          → All (λ e. e.0 ≢ k) m
          → Tops G m out
          → All (λ y. part G 0 y ≢ part G 0 x) out
      Tops-other k x major [] [] sub d t = tt
      Tops-other k x major [] (y ∷ out) sub d t = absurd t
      Tops-other k x major (e ∷ m) [] sub d t = absurd t
      Tops-other k x major ((j, us) ∷ m) (y ∷ out) sub (d, ds) (t, ts) =
          let (here, above, own, newest) = entry-newest j us y (sub (j, us) (inl refl)) t in
          (λ q. d (sym own ∙ q ∙ major), Tops-other k x major m out (λ e i. sub e (inr i)) ds ts)

      Tops-OnePerMajor :
          (m : List (ℕ × List G.Version)) (out : List G.Version)
          → ((e : ℕ × List G.Version) → In e m → In e (majors_map w remotes))
          → HasDistinctKeys m
          → Tops G m out
          → OnePerMajor out
      Tops-OnePerMajor [] [] sub d t = tt
      Tops-OnePerMajor [] (x ∷ out) sub d t = absurd t
      Tops-OnePerMajor (e ∷ m) [] sub d t = absurd t
      Tops-OnePerMajor ((k, us) ∷ m) (x ∷ out) sub (d, ds) (t, ts) =
          let (here, above, major, newest) = entry-newest k us x (sub (k, us) (inl refl)) t in
          (
            Tops-other k x major m out (λ e i. sub e (inr i)) d ts,
            Tops-OnePerMajor m out (λ e i. sub e (inr i)) ds ts,
          )

      -- The latest versions of the entries are the newest of each major above `w`.
      Tops-IsNewestPerMajor :
          (m : List (ℕ × List G.Version)) (out : List G.Version)
          → Permᴰ m (majors_map w remotes)
          → Tops G m out
          → IsNewestPerMajor w remotes out
      Tops-IsNewestPerMajor m out p t =
          let of_top = λ (x : G.Version) (i : In x out).
            let (e, j, q) = Tops-entry G m out t x i in entry-newest e.0 e.1 x (In-perm e p j) q in
          record {
            remote = λ x i. (of_top x i).0;
            above = λ x i. (of_top x i).1;
            newest = λ x r i j q. (of_top x i).3 r j (q ∙ (of_top x i).2);
            complete = λ r i lt.
                let k = part G 0 r in
                let j = In-perm (k, members_at k) (Permᴰ.symm p) (entry_of_major r i lt) in
                let (x, here, e) = Tops-In G m out t (k, members_at k) j in
                (x, here, (entry-newest k (members_at k) x (entry_of_major r i lt) e).2);
            one_per_major =
                Tops-OnePerMajor m out (λ e. In-perm e p)
                  (HasDistinctKeys-perm (Permᴰ.symm p) majors_map-HasDistinctKeys) t;
          }

module _ (G : GoVersion) (s : HasSegments G) (o : IsOrdered G) where
  module _ (order : List (ℕ × List G.Version) → List (ℕ × List G.Version))
      (visits : IsReordering order) (v : Versions G) (w : G.Version)
      (h : v.running_version ≡ some w) where
    pub last_majors-Tops :
        (out : List G.Version) × (last_majors_greater_than G order v
          ≡ ok (record v { remote_versions = out }))
        × Tops G (order (majors_map G w v.remote_versions)) out
    unfolding last_majors_greater_than
    last_majors-Tops =
        let m = majors_map G w v.remote_versions in
        let full =
          All-perm (λ e. e.1 ≢ []) (Permᴰ.symm (visits m))
            (grouped-HasNoEmpty G [] (filter_bool (is_major G w) v.remote_versions) tt) in
        let (out, e, t) = latests-ok G o (order m) full in
        (
          out,
          rw (
            filter_outcome-ok (greater_segment G v 0) (is_major G w)
                (λ r. greater_segment-ok G s v w h r 0 (omega arith)) v.remote_versions,
            group_from-ok G s [] (filter_bool (is_major G w) v.remote_versions),
            e,
          ),
          t,
        )

    -- With a running version set, LastMajorsGreaterThan returns, whatever the order of the map, and
    -- keeps the running version; its remote versions are the newest of each major above the running
    -- one.
    pub last_majors-IsNewestPerMajor :
        (out : List G.Version) × (last_majors_greater_than G order v
          ≡ ok (record v { remote_versions = out }))
        × IsNewestPerMajor G w v.remote_versions out
    last_majors-IsNewestPerMajor =
        let (out, e, t) = last_majors-Tops in
        (out, e, Tops-IsNewestPerMajor G w v.remote_versions o _ out (visits _) t)

-- The versions that LastMajorsGreaterThan returns do not depend on the order of the map.
pub last_majors-same_members :
    (G : GoVersion) (m m' m'' : List (ℕ × List G.Version)) (xs ys : List G.Version)
    → Permᴰ m' m
    → Permᴰ m'' m
    → Tops G m' xs
    → Tops G m'' ys
    → (x : G.Version) → In x xs
    → In x ys
last_majors-same_members G m m' m'' xs ys p q t u x i =
    let (e, j, top) = Tops-entry G m' xs t x i in
    let (y, k, top') = Tops-In G m'' ys u e (In-perm e (Permᴰ.symm q) (In-perm e p j)) in
    rw (Option.some-injective _ _ (sym top ∙ top')) k
