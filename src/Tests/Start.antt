-- ===== src/Tests/Start.antt =====
-- Witnesses on the start of the programs, the repositories and the label of the tags.
use opvic.Prelude.{
  ◌≡◌, ◌≢◌, ◌↔◌, ◌⊎◌, refl, [], String, ◌==◌, none, some, ok, err, arith, eq_iff, true, false,
  if◌then◌else◌, Bool-cases, inl, inr, ℕ, Error, Option, Bool, ◌&&◌, ◌||◌, not, List, ◌∷◌, In, ◌∙◌,
}
use mathlib.Core.Option
use opvic.Start.Options.{
  Flag, Kingpin, IsKingpin, set_value, or_default, control_plane_auth_token, control_plane_flags,
  cache_expiration, cache_reconciler_interval, agent_id, read_flags, read_agent_flags,
  controlplane_program, agent_program, provider_github_token,
}
use opvic.Start.Programs.{controlplane_program-cases, agent_program-IsAgentId}
use opvic.External.{GoRegexp}
use opvic.Cache.Keys.{IsSlashFree, IsAgentId}
use opvic.Extract.{no_subject_version}
use opvic.Http.{prepare_the_payload}
use opvic.Provider.Repo.{split_repo_iff}
use opvic.Remote.Github.{split_repo}
use opvic.Start.{
  Github, Transport, oauth2, app_key, new_provider, ControlPlane, main_actions, exits, runs,
}
use opvic.Start.Agent.{is_match, Manager, agent_main}
use opvic.Start.Guards.{AllIdChars, ReadsIdPattern}

-- Only the text "test" has a match.
abbrev test_regexp : GoRegexp
test_regexp = record {
  Regexp = Unit;
  Submatches = Unit;
  compile = λ p. some tt;
  find = λ r s. if s == "test" then some tt else none;
  expand = λ r tmpl s m. "";
}

matches_test : (s : String) → is_match (test_regexp.find tt s) ≡ true → AllIdChars s × (s ≢ "")
matches_test s e = elim (Bool-cases (s == "test")) [
  | inr n ↦ absurd (cc (rw n at e))
  | inl t ↦ rw ((eq_iff s "test").0 t) (omega arith, ground (arith, eq_iff "test" ""))
]

test_regexp-ReadsIdPattern : ReadsIdPattern test_regexp
test_regexp-ReadsIdPattern = record { matches = (tt, refl, matches_test) }

abbrev manager : Manager
manager = record {
  new_manager = true;
  setup_with_manager = λ config. true;
  add_healthz_check = true;
  add_readyz_check = true;
}

-- A command line of the two programs that sets the required flags and the token for GitHub.
abbrev command : String → Option String
command name =
    if name == "controlplane.auth-token"
    then some "secret"
    else if name == "agent.identifier"
    then some "test"
    else if name == "provider.github.token"
    then some "pat"
    else none

abbrev words : String → String
words name = elim (command name) [
  | some text ↦ text
  | none ↦
      if name == "controlplane.bind-address"
      then ":8080"
      else if name == "cache.expiration"
      then "1h"
      else if name == "cache.reconciler-interval"
      then "30s"
      else if name == "log.level"
      then "info"
      else if name == "log.http-requests"
      then "false"
      else if name == "metrics-bind-address"
      then ":8081"
      else if name == "health-probe-bind-address"
      then ":8082"
      else if name == "agent.interval"
      then "60s"
      else ""
]

abbrev is_set : Option String → Bool
is_set none = false
is_set (some text) = true

abbrev fits : Flag → Bool
fits f =
    (words f.name == or_default (command f.name) f.default)
    && (not f.required || is_set (command f.name))

abbrev all_fit : List Flag → Bool
all_fit [] = true
all_fit (f ∷ fs) = fits f && all_fit fs

all_fit-In : (fs : List Flag) (f : Flag) → all_fit fs ≡ true → In f fs → fits f ≡ true
all_fit-In [] f e m = absurd m
all_fit-In (g ∷ fs) f e (inl same) = let h : fits g ≡ true = ground arith in rw same h
all_fit-In (g ∷ fs) f e (inr m) = all_fit-In fs f (ground arith) m

abbrev kingpin : Kingpin
kingpin = record {
  command_line = command;
  environment = λ name. none;
  parse = λ flags. if all_fit flags then some words else none;
  int64 = λ text. 0;
  duration = λ text. if text == "1h" then 3600000000000 else 30000000000;
  bool = λ text. text == "true";
  string_map = λ text. [];
}

parsed_fit :
    (flags : List Flag) (values : String → String) (f : Flag)
    → kingpin.parse flags ≡ some values
    → In f flags
    → (fits f ≡ true) × (words ≡ values)
parsed_fit flags values f e m = elim (Bool-cases (all_fit flags)) [
  | inl t ↦ (all_fit-In flags f t m, Option.some-injective _ _ (rw t at e))
  | inr n ↦ absurd (cc (rw n at e))
]

same_option :
    (o : Option String) → (elim o as (λ x. Option String) [ some t ↦ some t | none ↦ none ]) ≡ o
same_option none = refl
same_option (some t) = refl

set_value-command : (f : Flag) → set_value kingpin f ≡ command f.name
set_value-command f = same_option (command f.name)

fits-value : (f : Flag) → fits f ≡ true → words f.name ≡ or_default (command f.name) f.default
fits-value f e = (eq_iff _ _).0 (ground (arith, e))

set_text : (o : Option String) → is_set o ≡ true → (text : String) × (o ≡ some text)
set_text none e = absurd (cc e)
set_text (some text) e = (text, refl)

fits-set : (f : Flag) → fits f ≡ true → f.required ≡ true → is_set (command f.name) ≡ true
fits-set f e r = ground (arith, e, r)

kingpin-IsKingpin : IsKingpin kingpin
kingpin-IsKingpin = record {
  value = λ flags values f e m.
      let (fit, same) = parsed_fit flags values f e m in
      let v = fits-value f fit in rw (← same, set_value-command f) v;
  required = λ flags values f e m r.
      let (fit, same) = parsed_fit flags values f e m in
      let (text, given) = set_text (command f.name) (fits-set f fit r) in
      (text, set_value-command f ∙ given);
}

agent_program-IsAgentId_example :
    (id : String) × (set_value kingpin agent_id ≡ some id)
    × ((prepare_the_payload "test" [] no_subject_version).agent_id ≡ id)
    × (id ≢ "")
    × (id ≢ "agents"
        → id ≢ "list"
        → id ≢ "github"
        → id ≢ "helm"
        → IsAgentId (prepare_the_payload "test" [] no_subject_version).agent_id)
unfolding agent_program agent_main read_agent_flags
agent_program-IsAgentId_example =
    agent_program-IsAgentId kingpin kingpin-IsKingpin test_regexp manager
      (record { id = "test"; tags = []; control_plane_url = "" }) test_regexp-ReadsIdPattern refl []
      no_subject_version

abbrev github : Github
github = record {
  stat = λ path. false;
  new_key_from_file = λ app installation path. none;
  new_key = λ app installation key. some (app_key app installation key);
  rate_limits = λ transport. some 5000;
}

controlplane_program-cases_example :
    ((values : String → String) × (p : Transport) × (n : ℕ) × (cp : ControlPlane) × (kingpin.parse
          control_plane_flags
        ≡ some values)
      × (new_provider github (read_flags kingpin values).github ≡ ok (p, n))
      × (controlplane_program kingpin github ≡ ok (runs (cp, main_actions cp)))
      × (set_value kingpin control_plane_auth_token ≡ some cp.token)
      × (cp.provider.github ≡ p)
      × ((text : String)
          → set_value kingpin provider_github_token ≡ some text
          → text ≢ ""
          → p ≡ oauth2 text)
      × (set_value kingpin cache_expiration ≡ none → cp.cache_expiration ≡ kingpin.duration "1h")
      × (set_value kingpin cache_reconciler_interval ≡ none
          → cp.cache_reconciler_interval ≡ kingpin.duration "30s"))
    ⊎ ((controlplane_program kingpin github ≡ ok exits)
        × ((kingpin.parse control_plane_flags ≡ none)
            ⊎ ((values : String → String) × (e : Error) × (kingpin.parse control_plane_flags
                  ≡ some values)
                × (new_provider github (read_flags kingpin values).github ≡ err e))))
controlplane_program-cases_example = controlplane_program-cases kingpin kingpin-IsKingpin github

split_repo_iff_example :
    (split_repo "coredns/coredns" ≡ ok ("coredns", "coredns"))
    ↔ ((◌≡◌ {A = String} "coredns/coredns" "coredns/coredns") × IsSlashFree "coredns")
split_repo_iff_example = split_repo_iff "coredns/coredns" "coredns" "coredns"
