-- ===== src/Extract/Totals.antt =====
-- ExtractSubjectVersion of agent/extract_version.go: what it counts and lists.
use opvic.Prelude.{
  length-All2, All, eq_iff, ℕ, ◌+◌, ◌≤◌, ◌≡◌, ◌∙◌, ◌⊎◌, refl, ap, sym, true, List, [], ◌∷◌, map,
  String, arith, inl, inr, length, Option, ok, panic, In, All2, none,
}
use opvic.External.{GoRegexp}
use opvic.Utils.{contains, first_occurrences}
use opvic.Utils.Sets.{IsDistinct, first_occurrences-IsDistinct, contains-first_occurrences}
use opvic.Utils.Seen.{add_all-eq-first_occurrences}
use opvic.Tracker.{VersionTracker, get_local_version, get_resource_kind}
use opvic.Extract.{
  no_subject_version, JsonPath, Version, SubjectVersion, Found, count, counted, extract,
  extract_subject_version,
}
use opvic.Extract.Counts.{sum, sum-count, count_pos}
use opvic.Extract.Loop.{
  versions_of, versions_of-failures, steps, steps-versions, steps_unique, steps-errors, steps-names,
  extract_loop-cases, steps-uncounted,
}

-- A subject version and a number of errors against the extractions of the resources.
pub record IsCounted (es : List (Option (String × String))) (sv : SubjectVersion) (errors : ℕ)
    : Type 0 where
  -- Each resource is counted once: under a version, or as an error.
  pub total : sv.total_resource_count ≡ length es
  pub sum_of_counts : sum (map (λ t. t.resource_count) sv.versions) + errors ≡ length es
  pub uniq_versions : sv.uniq_versions ≡ first_occurrences [] (versions_of es)
  pub distinct : IsDistinct sv.uniq_versions
  pub names : map (λ t. t.version) sv.versions ≡ sv.uniq_versions
  pub each :
      (t : Version)
      → In t sv.versions
      → (t.resource_count ≡ count (versions_of es) t.version) × (1 ≤ t.resource_count)

names-counted :
    (vs : List String) (ts : List Version)
    → map (λ t. t.version) (map (counted vs) ts) ≡ map (λ t. t.version) ts
names-counted vs [] = refl
names-counted vs (t ∷ ts) = ap (λ l. t.version ∷ l) (names-counted vs ts)

-- Entries that have no count yet.
abbrev Uncounted : List Version → Type 0
Uncounted ts = All (λ t. t.resource_count ≡ 0) ts

counts-counted :
    (vs : List String) (ts : List Version)
    → Uncounted ts
    → map (λ t. t.resource_count) (map (counted vs) ts) ≡ map (count vs) (map (λ t. t.version) ts)
counts-counted vs [] h = refl
counts-counted vs (t ∷ ts) h =
    let e : t.resource_count + count vs t.version ≡ count vs t.version = omega (arith, h.0) in
    cc (e, counts-counted vs ts h.1)

each-counted :
    (vs : List String) (ts : List Version)
    → Uncounted ts
    → (t : Version) → In t (map (counted vs) ts)
    → (t.resource_count ≡ count vs t.version)
      × (contains (map (λ t. t.version) ts) t.version ≡ true)
unfolding contains
each-counted vs [] h t m = absurd m
each-counted vs (x ∷ ts) h t (inl e) =
    rw e (omega (arith, h.0), ground (arith, eq_iff x.version x.version))
each-counted vs (x ∷ ts) h t (inr m) =
    (let (p, q) = each-counted vs ts h.1 t m in (p, ground (arith, q)))

-- What the function returns after the loop has taken `es` in.
abbrev start : Found
start = record { versions = []; unique_versions = []; entries = []; errors = 0 }

module _ (kind : String) (es : List (Option (String × String))) (sv : SubjectVersion) where
  abbrev found : Found
  found = steps kind start es

  found-IsCounted :
      sv.total_resource_count ≡ length es
      → sv.uniq_versions ≡ found.unique_versions
      → sv.versions ≡ map (counted found.versions) found.entries
      → IsCounted es sv found.errors
  found-IsCounted total uniq entries =
      let vs : found.versions ≡ versions_of es = steps-versions kind start es in
      let us : found.unique_versions ≡ first_occurrences [] (versions_of es) =
        steps_unique kind start es ∙ add_all-eq-first_occurrences (versions_of es) in
      let ns = steps-names kind start es refl in
      let none_yet = steps-uncounted kind start es tt in
      let us_members : (s : String)
          → contains (first_occurrences [] (versions_of es)) s ≡ contains (versions_of es) s =
        (λ s. contains-first_occurrences [] (versions_of es) s ∙ unfold contains in refl) in
      let members : (s : String) → contains found.unique_versions s ≡ contains (versions_of es) s =
        (λ s. rw us (us_members s)) in
      record {
        total = total;
        sum_of_counts =
            (let c : map (λ t. t.resource_count) sv.versions
                  ≡ map (count (versions_of es)) (first_occurrences [] (versions_of es)) =
                rw (entries, counts-counted found.versions found.entries none_yet, ns, us, vs)
                  refl in
              let k =
                sum-count (versions_of es) (first_occurrences [] (versions_of es))
                  (first_occurrences-IsDistinct [] (versions_of es)) (λ s h. (us_members s ∙ h)) in
              rw c (omega (arith, k, versions_of-failures es, steps-errors kind start es)));
        uniq_versions = uniq ∙ us;
        distinct = rw (uniq ∙ us) (first_occurrences-IsDistinct [] (versions_of es));
        names = rw (entries, uniq) (names-counted found.versions found.entries ∙ ns);
        each = λ t m.
            (let (p, q) = each-counted found.versions found.entries none_yet t (rw entries at m) in
              let p' : t.resource_count ≡ count (versions_of es) t.version =
                p ∙ ap (λ l. count l t.version) vs in
              (
                p',
                rw p' (
                    count_pos (versions_of es) t.version
                      (sym (members t.version) ∙ ap (λ l. contains l t.version) (sym ns) ∙ q)),
              ));
      }

module _ (J : JsonPath) (R : GoRegexp) (v : VersionTracker) where
  -- ExtractSubjectVersion returns, unless the pattern of the tracker is no regular expression. For
  -- the extractions `es` of the resources in their order, the total is their number, each resource
  -- adds one to the count of one version or to the errors, the unique versions are the distinct
  -- extracted ones in the order of their first occurrence, there is one entry for each of them in
  -- that order, and its count is that of the resources that run it, at least one.
  pub extract_subject_version-IsCounted :
      (items : List J.Resource)
      → ((sv : SubjectVersion) × (errors : ℕ) × (es : List (Option (String × String)))
          × (extract_subject_version J R v items ≡ ok (sv, errors))
          × All2 (λ i e. extract J R (get_local_version v) i ≡ ok e) items es
          × IsCounted es sv errors)
        ⊎ ((extract_subject_version J R v items ≡ panic)
            × (R.compile (get_local_version v).extraction.regex.pattern ≡ none))
  unfolding extract_subject_version
  extract_subject_version-IsCounted [] =
      inl (
        no_subject_version,
        0,
        [],
        refl,
        tt,
        found-IsCounted "" [] no_subject_version refl refl refl,
      )
  extract_subject_version-IsCounted (i ∷ items) =
      elim (extract_loop-cases J R (get_local_version v) (get_resource_kind v) (i ∷ items) start) [
        | inr (e, broken) ↦ inr (rw e refl, broken)
        | inl (es, h, e) ↦
            let kind = get_resource_kind v in
            let out : Found = steps kind start es in
            let sv : SubjectVersion = record {
              id = v.spec.name;
              namespace = v.namespace;
              total_resource_count = length (i ∷ items);
              uniq_versions = out.unique_versions;
              versions = map (counted out.versions) out.entries;
              remote_version = v.spec.remote_version;
            } in
            inl (
              sv,
              out.errors,
              es,
              rw e refl,
              h,
              found-IsCounted kind es sv
                  (length-All2 (λ x y. extract J R (get_local_version v) x ≡ ok y) (i ∷ items) es h)
                  refl refl,
            )
      ]
