-- ===== src/Provider/Selection.antt =====
-- Which versions the providers of controlplane/providers select from a listing.
use opvic.Prelude.{
  Bool, true, ◌≡◌, ◌≢◌, ◌↔◌, ◌⊎◌, refl, List, String, ◌==◌, eq_iff, Outcome, ok, err, panic,
  Bool-cases, inl, inr, In, none, Option-cases, external,
}
use opvic.External.{GoVersion, GoRegexp}
use opvic.Utils.{meet_constraint}
use opvic.Tracker.{RemoteVersion}
use opvic.Provider.Matching.{
  Filtered, filter_outcome-cases, IsBroken, Extracts, Matched, match_all-cases,
}
use opvic.Provider.{constrain, select_versions}

module _ (R : GoRegexp) {A : Type 0} (skip : A → Bool) (text : A → String)
    (conf : RemoteVersion) where
  module _ (G : GoVersion) where
    meet_constraint-cases :
        (c v : String)
        → ((b : Bool) × (meet_constraint G c v ≡ ok b))
          ⊎ ((meet_constraint G c v ≡ err external)
              × ((G.new_version v ≡ none) ⊎ (G.new_constraint c ≡ none)))
    unfolding meet_constraint
    meet_constraint-cases c v = elim (Option-cases (G.new_version v)) [
      | inl bad ↦ inr (rw bad refl, inl bad)
      | inr (w, good) ↦ elim (Option-cases (G.new_constraint c)) [
        | inl bad ↦ inr (rw (good, bad) refl, inr bad)
        | inr (d, fine) ↦ inl (G.check d w, rw (good, fine) refl)
      ]
    ]

    -- The version `v` is extracted from an element of the list.
    abbrev pub IsExtracted : List A → String → Type 0
    IsExtracted items v = (x : A) × In x items × Extracts R skip text conf x v

    abbrev pub Selected : List A → Outcome (List String) → Type 0
    Selected items result =
        ((out : List String) × (result ≡ ok out)
          × ((v : String)
              → In v out ↔ (
                  IsExtracted items v
                  × ((conf.constraint ≡ "") ⊎ (meet_constraint G conf.constraint v ≡ ok true)))))
        ⊎ (((result ≡ panic) × IsBroken R conf.extraction.regex.pattern)
            ⊎ ((result ≡ err external)
                × (conf.constraint ≢ "")
                × ((v : String) × IsExtracted items v
                    × ((G.new_version v ≡ none) ⊎ (G.new_constraint conf.constraint ≡ none)))))

    meet_constraint-total :
        (c v : String)
        → ((b : Bool) × (meet_constraint G c v ≡ ok b)) ⊎ (meet_constraint G c v ≡ err external)
    meet_constraint-total c v = elim (meet_constraint-cases c v) [ inl k ↦ inl k | inr k ↦ inr k.0 ]

    -- The two loops never run out of elements or fail otherwise: they return exactly the versions
    -- that the pattern extracts, as texts that are not empty, from the elements that are not
    -- skipped and, if there is a constraint, that meet it; or they panic, and the pattern does not
    -- compile; or they return an error, and the constraint or an extracted version does not parse.
    pub select_versions-Selected :
        (items : List A) → Selected items (select_versions G R skip text conf items)
    unfolding select_versions constrain Matched Filtered
    select_versions-Selected items = elim (match_all-cases R skip text conf items) [
      | inr (e, broken) ↦ inr (inl (rw e refl, broken))
      | inl (found, e, h) ↦ elim (Bool-cases (conf.constraint == "")) [
        | inl blank ↦ inl (
          found,
          rw (e, blank) refl,
          λ v. (λ m. ((h v).0 m, inl ((eq_iff _ _).0 blank)), λ m. (h v).1 m.0),
        )
        | inr given ↦
            let n : conf.constraint ≢ "" = λ q. cc (given, (eq_iff conf.constraint "").1 q) in
            elim (filter_outcome-cases _ (meet_constraint-total conf.constraint) found) [
              | inl (out, q, k) ↦ inl (
                out,
                rw (e, given) q,
                λ v. (
                  λ m. ((h v).0 ((k v).0 m).0, inr ((k v).0 m).1),
                  λ m. elim m.1 [
                    | inl blank ↦ absurd (n blank)
                    | inr good ↦ (k v).1 ((h v).1 m.0, good)
                  ],
                ),
              )
              | inr (q, (v, i, bad)) ↦ elim (meet_constraint-cases conf.constraint v) [
                | inl (b, fine) ↦ absurd (cc (bad, fine))
                | inr (_, why) ↦ inr (inr (rw (e, given) q, n, (v, (h v).0 i, why)))
              ]
            ]
      ]
    ]
