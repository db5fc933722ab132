-- ===== src/Tests/Instances.antt =====
-- Instances of the external interfaces: versions of three digits, a cache of timed entries.
use Prim.Native.Char.{Char, code}
use Prim.Native.String.{String, [], ◌∷◌}
use mathlib.Core.Option
use mathlib.Core.List.{List, reverse}
use mathlib.Core.List.Permᴰ
use opvic.Prelude.{
  ℕ, ◌-◌, ◌+◌, ◌≡◌, refl, ap, Bool, ◌&&◌, ◌||◌, Option, none, some, ltb, eqb, arith, if◌then◌else◌,
  ◌==◌, Bool-cases, inl, inr, sym, ◌≤◌, ok, panic, length,
}
use opvic.External.{
  GoVersion, HasSegments, IsOrdered, KeepsOriginal, GoCache, IsCache, IsExporter, Exporter,
}
use opvic.Version.Classes.{ComparesSegments}

pub record Digits : Type 0 where
  pub major : ℕ
  pub minor : ℕ
  pub patch : ℕ
  pub text : String

abbrev digit : Char → ℕ
digit c = code c - 48

abbrev parse : String → Option Digits
parse (a ∷ (p ∷ (b ∷ (q ∷ (c ∷ []))))) = some (record {
  major = digit a;
  minor = digit b;
  patch = digit c;
  text = a ∷ (p ∷ (b ∷ (q ∷ (c ∷ []))));
})
parse _ = none

abbrev below : Digits → Digits → Bool
below v w =
    ltb v.major w.major
    || (eqb v.major w.major
        && (ltb v.minor w.minor || (eqb v.minor w.minor && ltb v.patch w.patch)))

-- A constraint is a major number that versions must have.
abbrev pub digits : GoVersion
digits = record {
  Version = Digits;
  Constraints = Digits;
  new_version = parse;
  new_constraint = parse;
  check = λ c v. eqb v.major c.major;
  greater_than = λ v w. below w v;
  less_than = below;
  segments = λ v. List.◌∷◌ v.major (List.◌∷◌ v.minor (List.◌∷◌ v.patch List.[]));
  original = λ v. v.text;
  to_string = λ v. v.text;
}

pub digits-HasSegments : HasSegments digits
digits-HasSegments = record { three = λ v. omega arith }

pub digits-IsOrdered : IsOrdered digits
digits-IsOrdered = record {
  converse = λ v w. refl;
  irreflexive = λ v. ground arith;
  cotransitive = λ u v w h. ground arith;
  transitive = λ u v w h k. ground arith;
}

parse-text : (s : String) (v : Digits) → parse s ≡ some v → v.text ≡ s
parse-text (a ∷ (p ∷ (b ∷ (q ∷ (c ∷ []))))) v e =
    ap (λ (w : Digits). w.text) (Option.some-injective _ _ (sym e))
parse-text _ v e = cc

pub digits-KeepsOriginal : KeepsOriginal digits
digits-KeepsOriginal = record { original = parse-text }

pub digits-ComparesSegments : ComparesSegments digits
digits-ComparesSegments = record { core = λ w r h. ground arith }

-- Entries expire ten seconds after they were set.
abbrev timed {ℓ} : {V : Type ℓ} → ℕ → Option (ℕ × V) → Option V
timed u none = none
timed u (some (t, v)) = if ltb u (t + 10) then some v else none

abbrev find {ℓ} : {V : Type ℓ} → String → List (String × ℕ × V) → Option (ℕ × V)
find j List.[] = none
find j (List.◌∷◌ (k, t, v) l) = if k == j then some (t, v) else find j l

abbrev pub timed_cache : (V : Type 0) → GoCache V
timed_cache V = record {
  Cache = List (String × ℕ × V);
  fresh = λ t u. ltb u (t + 10);
  get = λ c u k. timed u (find k c);
  set = λ c t k v. List.◌∷◌ (k, t, v) c;
  delete_expired = λ c t. c;
}

timed_later :
    {V : Type 0} (t u : ℕ) (o : Option (ℕ × V)) (v : V)
    → t ≤ u
    → timed u o ≡ some v
    → timed t o ≡ some v
timed_later t u none v le e = cc
timed_later t u (some (w, x)) v le e = ground arith

pub timed_cache-IsCache : (V : Type 0) → IsCache (timed_cache V)
timed_cache-IsCache V = record {
  fresh_now = λ t. ground arith;
  get-set = λ c t u k j v. elim (Bool-cases (k == j)) [ inl e ↦ rw e refl | inr n ↦ rw n refl ];
  get-delete_expired = λ c t u k le. refl;
  get_later = λ c t u k v le e. timed_later t u (find k c) v le e;
}

-- A client that refuses a wrong number of labels.
abbrev pub counting_client : Exporter
counting_client = record {
  visit_tags = λ id tags. reverse tags;
  must_new_const_metric = λ desc value label_values.
      if eqb (length desc.variable_labels) (length label_values)
      then ok (record { desc = desc; value = value; label_values = label_values })
      else panic;
}

pub counting_client-IsExporter : IsExporter counting_client
counting_client-IsExporter = record {
  visits = λ id tags. Permᴰ.reverse tags;
  consistent = λ desc value label_values e. ground (arith, e);
}
