-- ===== src/Remote/Split.antt =====
-- strings.SplitN with a separator of one character and two parts at most.
use Prim.Native.String.{String, [], ◌∷◌, ◌++◌}
use Prim.Native.Char.{Char, code}
use text.Mathlib.TextLemmas.{nil-append, cons-append}
use text.Mathlib.TextEquality.{Char-path}
use mathlib.Core.Option
use opvic.Prelude.{◌≡◌, ◌≢◌, ap, ◌∙◌, eqb, eqb_iff, Bool-cases, inl, inr, some, arith}
use opvic.Remote.Github.{split2}

module _ (d : Char) where
  -- The character is not in the text.
  abbrev pub IsFree : String → Type 0
  IsFree (letter ∷ rest) = (code letter ≢ code d) × IsFree rest
  IsFree [] = Unit

  abbrev pub sep : String
  sep = d ∷ []

  -- The parts of a text at its first separator.
  pub split2-parts :
      (s rest : String) → (split2 sep s).1 ≡ some rest → (split2 sep s).0 ++ (sep ++ rest) ≡ s
  unfolding split2
  split2-parts [] rest e = cc
  split2-parts (c ∷ s) rest e = elim (Bool-cases (eqb (code c) (code d))) [
    | inl t ↦
        let p : s ≡ rest = Option.some-injective _ _ (rw t at e) in
        let q : c ≡ d = Char-path c d ((eqb_iff (code c) (code d)).0 t) in
        rw t (
          rw (q, p)
            (nil-append (sep ++ rest) ∙ cons-append d "" rest ∙ ap (λ l. d ∷ l) (nil-append rest)))
    | inr f ↦ rw f (cons-append c _ _ ∙ ap (λ l. c ∷ l) (split2-parts s rest (rw f at e)))
  ]

  pub split2-IsFree : (s : String) → IsFree (split2 sep s).0
  unfolding split2
  split2-IsFree [] = tt
  split2-IsFree (c ∷ s) = elim (Bool-cases (eqb (code c) (code d))) [
    | inl t ↦ rw t tt
    | inr f ↦ rw f (ground (arith, f), split2-IsFree s)
  ]

  -- A text without the separator, joined with another, is split again.
  pub split2-join : (s rest : String) → IsFree s → split2 sep (s ++ (sep ++ rest)) ≡ (s, some rest)
  unfolding split2
  split2-join [] rest h =
      rw (nil-append (sep ++ rest), cons-append d "" rest, nil-append rest) (ground arith)
  split2-join (c ∷ s) rest (n, h) =
      rw (cons-append c s (sep ++ rest), split2-join s rest h) (ground (arith, n))
