-- ===== src/Remote/Helm.antt =====
-- controlplane/providers/helm/helm.go: the index of a chart repository, and its cache key.
use Prim.Native.Char.{Char, code}
use Prim.Native.String.{String, [], ◌∷◌, ◌++◌}
use mathlib.Core.List.{List}
use opvic.Prelude.{ℕ, ◌-◌, Option, none, some, eqb, ltb, if◌then◌else◌, Outcome, ok, panic}

pub record ChartVersion : Type 0 where
  pub version : String
  pub app_version : String

pub record Index : Type 0 where
  pub api_version : String
  pub entries : List (String × List ChartVersion)

abbrev pub index_path : String
index_path = "index.yaml"

-- The bytes of a character in UTF-8.
abbrev width : Char → ℕ
width c =
    if ltb (code c) 0x80
    then 1
    else if ltb (code c) 0x800
    then 2
    else if ltb (code c) 0x10000
    then 3
    else 4

-- `s[n:]`, in bytes; none if `s` is shorter. (A cut within a character would leave bytes that are
-- no text: here the rest of that character is dropped.)
pub drop_bytes : ℕ → String → Option String
drop_bytes n [] = if eqb n 0 then some [] else none
drop_bytes n (c ∷ s) =
    let rest = drop_bytes (n - width c) s in if eqb n 0 then some (c ∷ s) else rest

unfoldable pub releases_cache_key : String → Outcome String
unfolding drop_bytes
releases_cache_key repo = elim (drop_bytes 8 repo) [
  | none ↦ panic
  | some rest ↦ ok ("helm/" ++ rest)
]

unfoldable pub append_index : String → String
append_index repo = repo ++ ("/" ++ index_path)
