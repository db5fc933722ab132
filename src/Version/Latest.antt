-- ===== src/Version/Latest.antt =====
-- Latest and Earliest of controlplane/version/version.go.
use mathlib.Core.Option
use mathlib.Core.Path.{subst}
use opvic.Prelude.{
  List, [], ◌∷◌, none, some, ◌≡◌, refl, true, false, inl, inr, In, All, arith, Bool-cases, ◌↔◌, ◌∙◌,
  sym,
}
use opvic.External.{GoVersion, IsOrdered}
use opvic.Version.{latest_from, latest, earliest_from, earliest}

module _ (G : GoVersion) where
  -- A member that no member is greater than, and one that no member is less than.
  pub record IsMaximum (vs : List G.Version) (m : G.Version) : Type 0 where
    pub member : In m vs
    pub upper : All (λ v. G.greater_than v m ≡ false) vs

  pub record IsMinimum (vs : List G.Version) (m : G.Version) : Type 0 where
    pub member : In m vs
    pub lower : All (λ v. G.less_than v m ≡ false) vs

  module _ (o : IsOrdered G) where
    -- What was not greater than a passed candidate is not greater than the winner.
    not_greater_trans :
        (a b m : G.Version)
        → G.greater_than a b ≡ false
        → G.greater_than b m ≡ false
        → G.greater_than a m ≡ false
    not_greater_trans a b m h k =
        ground (arith, o.converse a b, o.converse b m, o.converse a m, o.cotransitive m b a)

    not_greater_swap : (a b : G.Version) → G.greater_than a b ≡ true → G.greater_than b a ≡ false
    not_greater_swap a b h =
        ground (arith, o.converse a b, o.converse b a, o.irreflexive a, o.transitive a b a)

    latest_from-IsMaximum :
        (b : G.Version) (vs : List G.Version)
        → (m : G.Version) × (latest_from G (some b) vs ≡ some m) × IsMaximum (b ∷ vs) m
    unfolding latest_from
    latest_from-IsMaximum b [] = (
      b,
      refl,
      record { member = inl refl; upper = (ground (arith, o.converse b b, o.irreflexive b), tt) },
    )
    latest_from-IsMaximum b (v ∷ vs) = elim (Bool-cases (G.greater_than v b)) [
      | inl gt ↦
          let (m, e, h) = latest_from-IsMaximum v vs in
          (
            m,
            rw gt e,
            record {
              member = inr h.member;
              upper = (not_greater_trans b v m (not_greater_swap v b gt) h.upper.0, h.upper);
            },
          )
      | inr le ↦
          let (m, e, h) = latest_from-IsMaximum b vs in
          (
            m,
            rw le e,
            record {
              member = elim h.member [ inl p ↦ inl p | inr p ↦ inr (inr p) ];
              upper = (h.upper.0, (not_greater_trans v b m le h.upper.0, h.upper.1));
            },
          )
    ]

    -- Of a list that is not empty, Latest is a member that no member is greater than.
    pub latest-IsMaximum :
        (v : G.Version) (vs : List G.Version)
        → (m : G.Version) × (latest G (v ∷ vs) ≡ some m) × IsMaximum (v ∷ vs) m
    unfolding latest
    latest-IsMaximum v vs = latest_from-IsMaximum v vs

    not_less_swap : (a b : G.Version) → G.less_than a b ≡ true → G.less_than b a ≡ false
    not_less_swap a b h = ground (arith, o.irreflexive a, o.transitive a b a)

    earliest_from-IsMinimum :
        (b : G.Version) (vs : List G.Version)
        → (m : G.Version) × (earliest_from G (some b) vs ≡ some m) × IsMinimum (b ∷ vs) m
    unfolding earliest_from
    earliest_from-IsMinimum b [] =
        (b, refl, record { member = inl refl; lower = (o.irreflexive b, tt) })
    earliest_from-IsMinimum b (v ∷ vs) = elim (Bool-cases (G.less_than v b)) [
      | inl lt ↦
          let (m, e, h) = earliest_from-IsMinimum v vs in
          let k : G.less_than b m ≡ false =
            ground (arith, h.lower.0, not_less_swap v b lt, o.cotransitive b v m) in
          (m, rw lt e, record { member = inr h.member; lower = (k, h.lower) })
      | inr ge ↦
          let (m, e, h) = earliest_from-IsMinimum b vs in
          let k : G.less_than v m ≡ false = ground (arith, h.lower.0, o.cotransitive v b m) in
          (
            m,
            rw ge e,
            record {
              member = elim h.member [ inl p ↦ inl p | inr p ↦ inr (inr p) ];
              lower = (h.lower.0, (k, h.lower.1));
            },
          )
    ]

    -- Latest and Earliest are nil exactly on the empty list. Of any other list Latest is a member
    -- that no member is greater than, and Earliest is a member that no member is less than.
    pub latest-earliest-extremes :
        (vs : List G.Version)
        → ((latest G vs ≡ none) ↔ (vs ≡ []))
          × ((earliest G vs ≡ none) ↔ (vs ≡ []))
          × ((m : G.Version) → latest G vs ≡ some m → IsMaximum vs m)
          × ((m : G.Version) → earliest G vs ≡ some m → IsMinimum vs m)
    unfolding latest earliest latest_from earliest_from
    latest-earliest-extremes [] =
        ((λ _. refl, λ _. refl), (λ _. refl, λ _. refl), λ m e. cc, λ m e. cc)
    latest-earliest-extremes (v ∷ vs) =
        let (a, ea, ha) = latest_from-IsMaximum v vs in
        let (b, eb, hb) = earliest_from-IsMinimum v vs in
        (
          (λ e. cc ea, λ e. cc),
          (λ e. cc eb, λ e. cc),
          λ m e. subst (λ x. IsMaximum (v ∷ vs) x) (Option.some-injective _ _ (sym ea ∙ e)) ha,
          λ m e. subst (λ x. IsMinimum (v ∷ vs) x) (Option.some-injective _ _ (sym eb ∙ e)) hb,
        )
