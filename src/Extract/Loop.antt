-- ===== src/Extract/Loop.antt =====
-- ExtractSubjectVersion of agent/extract_version.go: what it counts and lists.
use mathlib.Core.List.{append-nil, append_assoc, map-append}
use opvic.Prelude.{
  All, All-append, All2, ℕ, ◌+◌, ◌≡◌, ◌∙◌, ◌⊎◌, refl, ap, sym, List, [], ◌∷◌, ◌++◌, map, String,
  ◌==◌, arith, Bool-cases, inl, inr, length, if◌then◌else◌, Option, some, none, ok, panic,
  Option-cases,
}
use opvic.External.{GoRegexp}
use opvic.Utils.{contains, must_compile}
use opvic.Utils.Seen.{add_all}
use opvic.Tracker.{LocalVersion}
use opvic.Extract.{
  JsonPath, Version, Found, step, extract, extract_loop, add_found, extract_from, get_feilds,
  get_results_from_regex,
}

-- The versions of the extractions that succeeded, in their order.
abbrev pub versions_of : List (Option (String × String)) → List String
versions_of [] = []
versions_of (none ∷ es) = versions_of es
versions_of (some (field_value, version) ∷ es) = version ∷ versions_of es

abbrev pub failures : List (Option (String × String)) → ℕ
failures [] = 0
failures (none ∷ es) = failures es + 1
failures (some e ∷ es) = failures es

pub versions_of-failures :
    (es : List (Option (String × String))) → length (versions_of es) + failures es ≡ length es
versions_of-failures [] = refl
versions_of-failures (none ∷ es) = omega (arith, versions_of-failures es)
versions_of-failures (some e ∷ es) = omega (arith, versions_of-failures es)

-- The loop, on the extractions of the resources.
abbrev pub steps : String → Found → List (Option (String × String)) → Found
steps kind found [] = found
steps kind found (e ∷ es) = steps kind (step kind found e) es

module _ (kind : String) where
  abbrev pub names : List Version → List String
  names entries = map (λ t. t.version) entries

  pub steps-versions :
      (found : Found) (es : List (Option (String × String)))
      → (steps kind found es).versions ≡ found.versions ++ versions_of es
  steps-versions found [] = sym (append-nil found.versions)
  steps-versions found (none ∷ es) = steps-versions _ es
  steps-versions found (some (f, v) ∷ es) =
      steps-versions (add_found kind found f v) es ∙ append_assoc found.versions (v ∷ []) _

  pub steps_unique :
      (found : Found) (es : List (Option (String × String)))
      → (steps kind found es).unique_versions ≡ add_all found.unique_versions (versions_of es)
  steps_unique found [] = refl
  steps_unique found (none ∷ es) = steps_unique _ es
  steps_unique found (some (f, v) ∷ es) = steps_unique (add_found kind found f v) es

  pub steps-errors :
      (found : Found) (es : List (Option (String × String)))
      → (steps kind found es).errors ≡ found.errors + failures es
  steps-errors found [] = omega arith
  steps-errors found (none ∷ es) = steps-errors _ es ∙ omega arith
  steps-errors found (some (f, v) ∷ es) = steps-errors (add_found kind found f v) es

  -- The entries are those of the unique versions.
  pub steps-names :
      (found : Found) (es : List (Option (String × String)))
      → names found.entries ≡ found.unique_versions
      → names (steps kind found es).entries ≡ (steps kind found es).unique_versions
  steps-names found [] h = h
  steps-names found (none ∷ es) h = steps-names _ es h
  steps-names found (some (f, v) ∷ es) h =
      steps-names (add_found kind found f v) es
        (elim (Bool-cases (contains found.unique_versions v)) [
          | inl old ↦ rw old h
          | inr new ↦ rw new (map-append _ found.entries _ ∙ ap (λ l. l ++ v ∷ []) h)
        ])

  -- No entry has a count before the last loop.
  pub steps-uncounted :
      (found : Found) (es : List (Option (String × String)))
      → All (λ t. t.resource_count ≡ 0) found.entries
      → All (λ t. t.resource_count ≡ 0) (steps kind found es).entries
  steps-uncounted found [] h = h
  steps-uncounted found (none ∷ es) h = steps-uncounted _ es h
  steps-uncounted found (some (f, v) ∷ es) h =
      steps-uncounted (add_found kind found f v) es
        (elim (Bool-cases (contains found.unique_versions v)) [
          | inl old ↦ rw old h
          | inr new ↦ rw new (All-append _ found.entries _ h (refl, tt))
        ])

module _ (J : JsonPath) (R : GoRegexp) (lv : LocalVersion) where
  abbrev IsBroken : Type 0
  IsBroken = R.compile lv.extraction.regex.pattern ≡ none

  extract_from-cases :
      (o : Option (List String))
      → ((e : Option (String × String)) × (extract_from J R lv o ≡ ok e))
        ⊎ ((extract_from J R lv o ≡ panic) × IsBroken)
  unfolding extract_from get_results_from_regex
  extract_from-cases none = inl (none, refl)
  extract_from-cases (some []) = inl (none, refl)
  extract_from-cases (some (x ∷ y ∷ l)) = inl (none, refl)
  extract_from-cases (some (x ∷ [])) = elim (Option-cases (R.compile lv.extraction.regex.pattern)) [
    | inl bad ↦ inr (rw (must_compile, bad) refl, bad)
    | inr (regex, good) ↦
        let v = R.expand regex lv.extraction.regex.result x (R.find regex x) in
        inl (if v == "" then none else some (x, v), rw (must_compile, good) refl)
  ]

  extract-cases :
      (i : J.Resource)
      → ((e : Option (String × String)) × (extract J R lv i ≡ ok e))
        ⊎ ((extract J R lv i ≡ panic) × IsBroken)
  unfolding extract
  extract-cases i = extract_from-cases (get_feilds J R lv.field_selector i)

  pub extract_loop-cases :
      (kind : String) (items : List J.Resource) (found : Found)
      → ((es : List (Option (String × String))) × All2 (λ i e. extract J R lv i ≡ ok e) items es
          × (extract_loop J R lv kind items found ≡ ok (steps kind found es)))
        ⊎ ((extract_loop J R lv kind items found ≡ panic) × IsBroken)
  unfolding extract_loop
  extract_loop-cases kind [] found = inl ([], tt, refl)
  extract_loop-cases kind (i ∷ items) found = elim (extract-cases i) [
    | inr (e, broken) ↦ inr (rw e refl, broken)
    | inl (x, e) ↦ elim (extract_loop-cases kind items (step kind found x)) [
      | inl (es, h, q) ↦ inl (x ∷ es, (e, h), rw e q)
      | inr (q, broken) ↦ inr (rw e q, broken)
    ]
  ]
