-- ===== src/Provider/Matching.antt =====
-- The two loops at the end of the listings of controlplane/providers: what the pattern extracts, and
-- what the constraint lets pass.
use opvic.Prelude.{
  Bool, true, false, ◌≡◌, ◌≢◌, ◌↔◌, ◌⊎◌, refl, ap, ◌∙◌, List, [], ◌∷◌, String, ◌==◌, eq_iff,
  Outcome, ok, err, panic, Bool-cases, inl, inr, In, if◌then◌else◌, ◌>>=◌, filter_outcome, none,
  Option-cases, external, not,
}
use opvic.External.{GoRegexp}
use opvic.Utils.{match_pattern, get_results_from_regex, must_compile}
use opvic.Tracker.{RemoteVersion}
use opvic.Provider.{match_all}

-- A test that returns or fails in one way, over a list.
unfoldable pub Filtered : {A : Type 0} → (A → Outcome Bool) → List A → Type 0
Filtered {A} p xs =
    ((out : List A) × (filter_outcome p xs ≡ ok out)
      × ((a : A) → In a out ↔ (In a xs × (p a ≡ ok true))))
    ⊎ ((filter_outcome p xs ≡ err external) × ((a : A) × In a xs × (p a ≡ err external)))

pub filter_outcome-cases :
    {A : Type 0} (p : A → Outcome Bool)
    → ((a : A) → ((b : Bool) × (p a ≡ ok b)) ⊎ (p a ≡ err external))
    → (xs : List A) → Filtered p xs
unfolding Filtered
filter_outcome-cases p total [] = inl ([], refl, λ a. (λ m. absurd m, λ h. absurd h.0))
filter_outcome-cases p total (x ∷ xs) = elim (total x) [
  | inr e ↦ inr (rw e refl, (x, inl refl, e))
  | inl (b, e) ↦ elim (filter_outcome-cases p total xs) [
    | inr (q, (a, i, r)) ↦ inr (rw (e, q) refl, (a, inr i, r))
    | inl (out, q, h) ↦ elim (Bool-cases b) [
      | inl t ↦ inl (
        x ∷ out,
        rw (e, q, t) refl,
        λ a. (
          λ m. elim m [
            | inl k ↦ (inl k, ap p k ∙ e ∙ ap ok t)
            | inr k ↦ (inr ((h a).0 k).0, ((h a).0 k).1)
          ],
          λ m. elim m.0 [ inl k ↦ inl k | inr k ↦ inr ((h a).1 (k, m.1)) ],
        ),
      )
      | inr f ↦ inl (
        out,
        rw (e, q, f) refl,
        λ a. (
          λ m. (inr ((h a).0 m).0, ((h a).0 m).1),
          λ m. elim m.0 [ inl k ↦ absurd cc (m.1, ap p k, e, f) | inr k ↦ (h a).1 (k, m.1) ],
        ),
      )
    ]
  ]
]

module _ (R : GoRegexp) where
  -- A pattern that is given but is no regular expression panics; any other returns.
  abbrev pub IsBroken : String → Type 0
  IsBroken pattern = (pattern ≢ "") × (R.compile pattern ≡ none)

  match_pattern-cases :
      (pattern tmpl s : String)
      → ((b : Bool) × (r : String) × (match_pattern R pattern tmpl s ≡ ok (b, r)))
        ⊎ ((match_pattern R pattern tmpl s ≡ panic) × IsBroken pattern)
  unfolding match_pattern get_results_from_regex
  match_pattern-cases pattern tmpl s = elim (Bool-cases (pattern == "")) [
    | inl blank ↦ inl (not (s == ""), s, rw blank refl)
    | inr given ↦ elim (Bool-cases (tmpl == "")) [
      | inl blank ↦ inl (not (s == ""), s, rw (given, blank) refl)
      | inr both ↦ elim (Option-cases (R.compile pattern)) [
        | inl bad ↦ inr (
          rw (given, both, must_compile, bad) refl,
          (λ q. cc (given, (eq_iff pattern "").1 q), bad),
        )
        | inr (regex, good) ↦
            (let r = R.expand regex tmpl s (R.find regex s) in
              inl (not (r == ""), r, rw (given, both, must_compile, good) refl))
      ]
    ]
  ]

  module _ {A : Type 0} (skip : A → Bool) (text : A → String) (conf : RemoteVersion) where
    -- The pattern extracts `v`, which is not empty, from an element that is not skipped.
    abbrev pub Extracts : A → String → Type 0
    Extracts x v =
        (skip x ≡ false)
        × (match_pattern R conf.extraction.regex.pattern conf.extraction.regex.result (text x)
            ≡ ok (true, v))

    unfoldable pub Matched : List A → Outcome (List String) → Type 0
    Matched items result =
        ((out : List String) × (result ≡ ok out)
          × ((v : String) → In v out ↔ ((x : A) × In x items × Extracts x v)))
        ⊎ ((result ≡ panic) × IsBroken conf.extraction.regex.pattern)

    match_all-skip :
        (x : A) (rest : List A) (result : Outcome (List String))
        → skip x ≡ true
        → Matched rest result
        → Matched (x ∷ rest) result
    unfolding Matched
    match_all-skip x rest result t (inr broken) = inr broken
    match_all-skip x rest result t (inl (out, e, h)) = inl (
      out,
      e,
      λ v. (
        λ m. (let (y, i, q) = (h v).0 m in (y, inr i, q)),
        λ m. elim m.1 [ inl k ↦ absurd (cc (m.2.0, t, ap skip k)) | inr i ↦ (h v).1 (m.0, i, m.2) ],
      ),
    )

    match_all-step :
        (x : A) (rest : List A) (result : Outcome (List String))
        → skip x ≡ false
        → Matched rest result
        → Matched (x ∷ rest) (
            match_pattern R conf.extraction.regex.pattern conf.extraction.regex.result (text x)
            >>= λ m. result >>= λ vs. ok (if m.0 then m.1 ∷ vs else vs))
    unfolding Matched
    match_all-step x rest result f known =
        let extract : A → Outcome (Bool × String) = (λ y.
          match_pattern R conf.extraction.regex.pattern conf.extraction.regex.result (text y)) in
        elim (match_pattern-cases conf.extraction.regex.pattern conf.extraction.regex.result
          (text x)) [
            | inr (e, broken) ↦ inr (rw e refl, broken)
            | inl (b, r, e) ↦ elim known [
              | inr (q, broken) ↦ inr (rw (e, q) refl, broken)
              | inl (out, q, h) ↦ elim (Bool-cases b) [
                | inl t ↦ inl (
                  r ∷ out,
                  rw (e, q, t) refl,
                  λ v. (
                    λ m. elim m [
                      | inl k ↦ (x, inl refl, (f, cc (e, t, k)))
                      | inr i ↦ (let (y, j, p) = (h v).0 i in (y, inr j, p))
                    ],
                    λ m. elim m.1 [
                      | inl k ↦ inl (cc (m.2.1, ap extract k, e))
                      | inr i ↦ inr ((h v).1 (m.0, i, m.2))
                    ],
                  ),
                )
                | inr n ↦ inl (
                  out,
                  rw (e, q, n) refl,
                  λ v. (
                    λ m. (let (y, j, p) = (h v).0 m in (y, inr j, p)),
                    λ m. elim m.1 [
                      | inl k ↦ absurd (cc (m.2.1, ap extract k, e, n))
                      | inr i ↦ (h v).1 (m.0, i, m.2)
                    ],
                  ),
                )
              ]
            ]
          ]

    pub match_all-cases : (items : List A) → Matched items (match_all R skip text conf items)
    unfolding match_all
    match_all-cases [] = unfold Matched in inl ([], refl, λ v. (λ m. absurd m, λ h. absurd h.1))
    match_all-cases (x ∷ rest) = elim (Bool-cases (skip x)) [
      | inl t ↦ rw t (match_all-skip x rest _ t (match_all-cases rest))
      | inr f ↦ rw f (match_all-step x rest _ f (match_all-cases rest))
    ]
