-- ===== src/Cache/Keys.antt =====
-- The cache keys of controlplane/cache.go and of the providers do not collide, for identifiers
-- without slashes that are none of the reserved names.
use Prim.Native.Char.{code, Char}
use Prim.Native.String.{String, [], ◌∷◌, ◌++◌}
use text.Mathlib.TextLemmas.{nil-append, cons-append, append_assoc, append_cancel_right}
use opvic.Prelude.{
  ℕ, ◌≡◌, ◌≢◌, refl, sym, ap, ◌∙◌, Option, none, some, eqb, if◌then◌else◌, arith, ◌==◌, eq_iff,
}
use opvic.Remote.Github
use opvic.Cache.{
  agent_list_cache_key, agent_cache_key, subject_version_cache_key, subject_version_info_cache_key,
  agent_subject_version_list_cache_key,
}

-- What a key is the key of.
pub data Key : Type 0 where
  agent_list : Key
  agent versions_of : String → Key
  subject info : String → String → Key
  releases tags chart_index : String → Key

-- The text under which it is cached. `chart_index` has the repository without its scheme.
abbrev pub render : Key → String
render agent_list = agent_list_cache_key
render (agent a) = agent_cache_key a
render (versions_of a) = agent_subject_version_list_cache_key a
render (subject a v) = subject_version_cache_key a v
render (info a v) = subject_version_info_cache_key a v
render (releases repo) = Github.releases_cache_key repo
render (tags repo) = Github.tags_cache_key repo
render (chart_index repo) = "helm/" ++ repo

abbrev pub IsSlashFree : String → Type 0
IsSlashFree (letter ∷ rest) = (code letter ≢ b'/') × IsSlashFree rest
IsSlashFree [] = Unit

pub record IsAgentId (a : String) : Type 0 where
  pub plain : IsSlashFree a
  pub not_agents : a ≢ "agents"
  pub not_list : a ≢ "list"
  pub not_github : a ≢ "github"
  pub not_helm : a ≢ "helm"

abbrev pub IsClean : Key → Type 0
IsClean (agent a) = IsAgentId a
IsClean (versions_of a) = IsAgentId a
IsClean (subject a v) = IsAgentId a × IsSlashFree v
IsClean (info a v) = IsAgentId a × IsSlashFree v
IsClean _ = Unit

-- The text before the first slash, and after it.
split_first : String → String × Option String
split_first [] = ([], none)
split_first (c ∷ s) =
    let (h, r) = split_first s in if eqb (code c) b'/' then ([], some s) else (c ∷ h, r)

split_first-plain : (a : String) → IsSlashFree a → split_first a ≡ (a, none)
unfolding split_first
split_first-plain [] n = refl
split_first-plain (c ∷ s) (n, ns) = rw (split_first-plain s ns) (ground arith)

split_first-append : (a r : String) → IsSlashFree a → split_first (a ++ ("/" ++ r)) ≡ (a, some r)
unfolding split_first
split_first-append [] r n = rw (nil-append, cons-append, nil-append) refl
split_first-append (c ∷ s) r (n, ns) = rw (cons-append, split_first-append s r ns) (ground arith)

-- What a rendered key can be read back to: of a GitHub key, only what follows the prefix.
data Decoded : Type 0 where
  known : Key → Decoded
  github : String → Decoded

second : String → String × Option String → Decoded
second a (v, none) = known (subject a v)
second a (v, some r) = if r == "versions" then known (info a v) else known (versions_of a)

first : String → Option String → Decoded
first h none = known agent_list
first h (some r) =
    if h == "agents"
    then (if r == "list" then known agent_list else known (agent r))
    else if h == "github"
    then github r
    else if h == "helm"
    then known (chart_index r)
    else second h (split_first r)

decode : String → Decoded
decode s = first (split_first s).0 (split_first s).1

abbrev expected : Key → Decoded
expected (releases repo) = github (repo ++ "/releases")
expected (tags repo) = github (repo ++ "/tags")
expected k = known k

decode-append : (h r : String) → IsSlashFree h → decode (h ++ ("/" ++ r)) ≡ first h (some r)
unfolding decode
decode-append h r n = rw (split_first-append h r n) refl

first-agent : (a r : String) → IsAgentId a → first a (some r) ≡ second a (split_first r)
unfolding first
first-agent a r h = ground (
  arith,
  h.not_agents,
  h.not_github,
  h.not_helm,
  eq_iff a "agents",
  eq_iff a "github",
  eq_iff a "helm",
)

decode-render : (k : Key) → IsClean k → decode (render k) ≡ expected k
unfolding split_first first second agent_cache_key agent_subject_version_list_cache_key
    subject_version_cache_key subject_version_info_cache_key Github.releases_cache_key
    Github.tags_cache_key
decode-render agent_list h = decode-append "agents" "list" (omega arith)
decode-render (agent a) h =
    ap decode (append_assoc "agents" "/" a)
    ∙ decode-append "agents" a (omega arith)
    ∙ ground (arith, h.not_list, eq_iff a "list")
decode-render (versions_of a) h =
    ap decode (ap (λ t. a ++ t) refl)
    ∙ decode-append a "versions/list" h.plain
    ∙ first-agent a "versions/list" h
    ∙ refl
decode-render (subject a v) (h, n) =
    decode-append a v h.plain ∙ first-agent a v h ∙ ap (second a) (split_first-plain v n)
decode-render (info a v) (h, n) =
    decode-append a (v ++ "/versions") h.plain
    ∙ first-agent a (v ++ "/versions") h
    ∙ ap (second a) (split_first-append v "versions" n)
decode-render (releases repo) h =
    ap decode (append_assoc "github" "/" (repo ++ "/releases"))
    ∙ decode-append "github" (repo ++ "/releases") (omega arith)
decode-render (tags repo) h =
    ap decode (append_assoc "github" "/" (repo ++ "/tags"))
    ∙ decode-append "github" (repo ++ "/tags") (omega arith)
decode-render (chart_index repo) h =
    ap decode (append_assoc "helm" "/" repo) ∙ decode-append "helm" repo (omega arith)

-- The two suffixes differ, whatever stands before them.
last : String → ℕ
last [] = 0
last (c ∷ []) = code c
last (c ∷ (d ∷ s)) = last (d ∷ s)

last-append : (s : String) (d : Char) → last (s ++ (d ∷ [])) ≡ code d
unfolding last
last-append [] d = rw nil-append refl
last-append (c ∷ []) d = rw (cons-append, nil-append) refl
last-append (c ∷ (e ∷ s)) d =
    rw (cons-append, cons-append) (rw cons-append at (last-append (e ∷ s) d))

last-suffix : (s t : String) (d : Char) → last (s ++ (t ++ (d ∷ []))) ≡ code d
last-suffix s t d = ap last (sym (append_assoc s t (d ∷ []))) ∙ last-append (s ++ t) d

releases-ne-tags : (r t : String) → (r ++ "/releases") ≢ (t ++ "/tags")
releases-ne-tags r t e =
    let cut =
      append_cancel_right (r ++ "/release") (t ++ "/tag") "s"
        (append_assoc r "/release" "s" ∙ e ∙ sym (append_assoc t "/tag" "s")) in
    let here : last (r ++ "/release") ≡ 101 = last-suffix r "/releas" "e" in
    let there : last (t ++ "/tag") ≡ 103 = last-suffix t "/ta" "g" in
    omega (arith, here, there, ap last cut)

after_github : Decoded → String
after_github (github s) = s
after_github (known k) = ""

expected_injective : (k j : Key) → expected k ≡ expected j → k ≡ j
unfolding after_github
expected_injective (releases r) (releases t) e =
    ap releases (append_cancel_right r t "/releases" (ap after_github e))
expected_injective (releases r) (tags t) e = absurd (releases-ne-tags r t (ap after_github e))
expected_injective (tags r) (releases t) e = absurd (releases-ne-tags t r (sym (ap after_github e)))
expected_injective (tags r) (tags t) e =
    ap tags (append_cancel_right r t "/tags" (ap after_github e))
expected_injective k j e = ground arith

-- Two clean keys with one text are one key.
pub render_injective : (k j : Key) → IsClean k → IsClean j → render k ≡ render j → k ≡ j
render_injective k j hk hj e =
    expected_injective k j (sym (decode-render k hk) ∙ ap decode e ∙ decode-render j hj)
