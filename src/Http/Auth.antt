-- ===== src/Http/Auth.antt =====
-- AuthMiddleware of controlplane/middlewares.go: which requests it lets through.
use Prim.Native.String.{String, ◌++◌}
use Prim.Native.Char.{Char}
use text.Mathlib.TextLemmas.{nil-append, cons-append, append_assoc}
use mathlib.Core.Option
use opvic.Prelude.{
  ◌≡◌, ◌≢◌, ◌↔◌, refl, ap, sym, ◌∙◌, ◌==◌, eq_iff, Bool-cases, inl, inr, Option, none, some,
}
use opvic.Remote.Github.{split2}
use opvic.Remote.Split.{split2-parts}
use opvic.Http.{next, abort, auth_middleware, check_parts}

abbrev space : Char
space = " "

split2-bearer : (token : String) → split2 " " ("Bearer " ++ token) ≡ ("Bearer", some token)
unfolding split2
split2-bearer token =
    rw
      (
        cons-append, cons-append, cons-append, cons-append, cons-append, cons-append, cons-append,
        nil-append,
      )
      refl

split2-nonempty : (token : String) → ◌≢◌ {A = String} "" ("Bearer " ++ token)
unfolding split2
split2-nonempty token q = cc (ap (λ s. (split2 " " s).1) q, ap (λ p. p.1) (split2-bearer token))

check_parts_iff :
    (token scheme : String) (rest : Option String)
    → (check_parts token scheme rest ≡ next) ↔ ((scheme ≡ "Bearer") × (rest ≡ some token))
unfolding check_parts
check_parts_iff token scheme none = (λ e. cc, λ h. cc h.1)
check_parts_iff token scheme (some t) = elim (Bool-cases (scheme == "Bearer")) [
  | inr other ↦ rw other (λ e. cc, λ h. absurd (cc (other, (eq_iff scheme "Bearer").1 h.0)))
  | inl bearer ↦ elim (Bool-cases (t == token)) [
    | inl same ↦
        rw (bearer, same) (λ _. ((eq_iff _ _).0 bearer, ap some ((eq_iff _ _).0 same)), λ _. refl)
    | inr wrong ↦
        rw (bearer, wrong)
          (λ e. cc, λ h. absurd (cc (wrong, (eq_iff t token).1 (Option.some-injective _ _ h.1))))
  ]
]

-- A request passes exactly with the header "Bearer ", followed by the token.
pub auth_middleware_iff :
    (token header : String) → (auth_middleware token header ≡ next) ↔ (header ≡ "Bearer " ++ token)
unfolding auth_middleware
auth_middleware_iff token header = (
  λ e. elim (Bool-cases (header == "")) [
    | inl missing ↦ absurd (cc (rw missing at e))
    | inr given ↦
        let (p, q) = (check_parts_iff token _ _).0 (rw given at e) in
        sym (split2-parts space header token q) ∙ rw p (sym (append_assoc "Bearer" " " token))
  ],
  λ h. elim (Bool-cases (header == "")) [
    | inl missing ↦ absurd (split2-nonempty token (sym ((eq_iff _ _).0 missing) ∙ h))
    | inr given ↦ rw given (
        (check_parts_iff token (split2 " " header).0 (split2 " " header).1).1
          (rw (h, split2-bearer token) refl, rw (h, split2-bearer token) refl))
  ],
)

pub bearer_injective : (a b : String) → "Bearer " ++ a ≡ "Bearer " ++ b → a ≡ b
bearer_injective a b e =
    Option.some-injective a b
      (ap (λ p. p.1) (sym (split2-bearer a) ∙ ap (split2 " ") e ∙ split2-bearer b))

check_parts-refused :
    (token scheme : String) (rest : Option String)
    → check_parts token scheme rest ≢ next
    → (message : String) × (check_parts token scheme rest ≡ abort 401 message)
unfolding check_parts
check_parts-refused token scheme none n = ("invalid authorization header", refl)
check_parts-refused token scheme (some t) n = elim (Bool-cases (scheme == "Bearer")) [
  | inr other ↦ ("invalid authorization header", rw other refl)
  | inl bearer ↦ elim (Bool-cases (t == token)) [
    | inr wrong ↦ ("invalid authorization token", rw (bearer, wrong) refl)
    | inl same ↦ absurd (n (rw (bearer, same) refl))
  ]
]

-- Any other request is aborted with 401.
pub auth_middleware-refused :
    (token header : String)
    → auth_middleware token header ≢ next
    → (message : String) × (auth_middleware token header ≡ abort 401 message)
unfolding auth_middleware
auth_middleware-refused token header n = elim (Bool-cases (header == "")) [
  | inl missing ↦ ("missing authorization header", rw missing refl)
  | inr given ↦
      let (m, e) =
        check_parts-refused token (split2 " " header).0 (split2 " " header).1
          (λ q. n (rw given q)) in
      (m, rw given e)
]
