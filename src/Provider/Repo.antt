-- ===== src/Provider/Repo.antt =====
-- splitRepo of controlplane/providers/github/github.go undoes the join of an owner and a name.
use Prim.Native.Char.{Char}
use Prim.Native.String.{◌++◌}
use opvic.Prelude.{◌≡◌, ◌↔◌, refl, sym, ap, ◌∙◌, String, ok, Option-cases, inl, inr}
use opvic.Remote.Split.{split2-parts, split2-IsFree, split2-join}
use opvic.Remote.Github.{split_repo, split2}
use opvic.Cache.Keys.{IsSlashFree}

abbrev slash : Char
slash = "/"

joined :
    (owner name : String)
    → IsSlashFree owner
    → split_repo (owner ++ ("/" ++ name)) ≡ ok (owner, name)
unfolding split_repo
joined owner name h =
    let e = split2-join slash owner name h in
    rw (split_repo, ap (λ p. p.1) e) (ap (λ o. ok (o, name)) (ap (λ p. p.0) e))

parts_of :
    (repo owner name : String)
    → split_repo repo ≡ ok (owner, name)
    → (repo ≡ owner ++ ("/" ++ name)) × IsSlashFree owner
unfolding split_repo
parts_of repo owner name q = elim (Option-cases (split2 "/" repo).1) [
  | inl e ↦ absurd (cc (rw (split_repo, e) at q))
  | inr (x, e) ↦
      let both = rw (split_repo, e) at q in
      let first : (split2 "/" repo).0 ≡ owner = cc both in
      let second : x ≡ name = cc both in
      (
        sym (split2-parts slash repo x e) ∙ rw (first, second) refl,
        rw (← first) (split2-IsFree slash repo),
      )
]

-- splitRepo of an owner without slashes, a slash and any name is the owner and the name; and every
-- repository that it accepts is of that form.
pub split_repo_iff :
    (repo owner name : String)
    → (split_repo repo ≡ ok (owner, name)) ↔ ((repo ≡ owner ++ ("/" ++ name)) × IsSlashFree owner)
split_repo_iff repo owner name =
    (parts_of repo owner name, λ h. ap split_repo h.0 ∙ joined owner name h.1)
