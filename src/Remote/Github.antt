-- ===== src/Remote/Github.antt =====
-- controlplane/providers/github/github.go: releases and tags, their cache keys, and splitRepo.
use Prim.Native.Char.{code}
use Prim.Native.String.{String, [], ◌∷◌, ◌++◌}
use opvic.Prelude.{Option, none, some, eqb, if◌then◌else◌, Outcome, ok, err, invalid_repo}

-- What GetTagName and GetName of a release return, and GetName of a tag: "" for a nil field.
pub record Release : Type 0 where
  pub tag_name : String
  pub name : String

pub record Tag : Type 0 where
  pub name : String

unfoldable pub releases_cache_key : String → String
releases_cache_key repo = "github/" ++ (repo ++ "/releases")

unfoldable pub tags_cache_key : String → String
tags_cache_key repo = "github/" ++ (repo ++ "/tags")

-- strings.SplitN(s, sep, 2) for a separator of one character: the parts, the second none if `sep`
-- is not there.
unfoldable pub split2 : String → String → String × Option String
split2 sep [] = ("", none)
split2 [] (c ∷ s) = (c ∷ s, none)
split2 (d ∷ sep) (c ∷ s) =
    let (head, rest) = split2 (d ∷ sep) s in
    if eqb (code c) (code d) then ("", some s) else (c ∷ head, rest)

unfoldable pub split_repo : String → Outcome (String × String)
unfolding split2
split_repo repo =
    let (owner, rest) = split2 "/" repo in
    elim rest [ none ↦ err (invalid_repo repo) | some name ↦ ok (owner, name) ]
