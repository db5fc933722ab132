-- ===== src/Tests/Flows.antt =====
-- Witnesses on the agents' extraction, the providers, the infos and the requests.
use opvic.Agent.Namespaces.{SetsNamespace, reconcile-last_namespace}
use opvic.Prelude.{
  ℕ, suc, zero, ◌≡◌, ◌≢◌, ◌↔◌, ◌⊎◌, refl, List, [], ◌∷◌, map, String, ◌==◌, Option, none, some, ok,
  err, external, arith, In, All2, if◌then◌else◌, false, unexpected_status, panic,
}
use mathlib.Core.List.Permᴰ
use mathlib.Core.List.{reverse}
use opvic.External.{GoRegexp}
use opvic.Api.{VersionInfos}
use opvic.Cache.{Value, State}
use opvic.Cache.Typed.{IsWellTyped}
use opvic.Registry.Stored.{IsStored}
use opvic.Provider.{fetch_pages, select_versions}
use opvic.Provider.Paging.{last, next, fetch_pages-Listing}
use opvic.Provider.Selection.{Selected, select_versions-Selected}
use opvic.Infos.{subject_infos}
use opvic.Infos.Subject.{IsReport, subject_infos-IsReport}
use opvic.Extract.{JsonPath, SubjectVersion, extract, extract_subject_version}
use opvic.Extract.Totals.{IsCounted, extract_subject_version-IsCounted}
use opvic.Tracker.{get_local_version, VersionTracker}
use opvic.Http
use opvic.Agent
use opvic.Agent.Posting.{Rounded, reconcile-Rounded}
use opvic.Tracker.{set_defaults, validate, get_object_list, pod_list}
use opvic.Http.{Codec, auth_middleware, serve_agents_post, post}
use opvic.Http.Auth.{auth_middleware_iff}
use opvic.Http.Shipping.{post-IsStored}
use opvic.Tests.Instances.{
  Digits, digits, digits-HasSegments, digits-IsOrdered, digits-KeepsOriginal, timed_cache,
  timed_cache-IsCache,
}
use opvic.Tests.Versions.{tracker}
use opvic.Tests.Reports.{payload, empty_state, empty_state-IsWellTyped, test-IsAgentId}

-- Expressions that match any text as a whole; "(" is none.
abbrev pub whole : GoRegexp
whole = record {
  Regexp = String;
  Submatches = String;
  compile = λ p. if p == "(" then none else some p;
  find = λ r s. if s == "" then none else some s;
  expand = λ r tmpl s m. elim m [ none ↦ tmpl | some x ↦ x ];
}

abbrev two_pages : ℕ → Option (List String × ℕ)
two_pages zero = some ("a" ∷ [], 1)
two_pages (suc n) = some ("b" ∷ [], 0)

fetch_pages-Listing_example : fetch_pages two_pages 5 0 [] ≡ ok ("a" ∷ "b" ∷ [])
fetch_pages-Listing_example =
    fetch_pages-Listing two_pages
      (next {page = 0} {next_page = 1} {more = "a" ∷ []} {rest = "b" ∷ []} refl (omega arith)
        (last refl) ("a" ∷ "b" ∷ []) refl)
      5 [] (omega arith)

select_versions-Selected_example :
    Selected whole
      (λ s. false)
      (λ s. s)
      payload.version.remote_version
      digits
      ("1.7.1" ∷ "1.8.0" ∷ [])
      (select_versions digits whole
        (λ s. false)
        (λ s. s)
        payload.version.remote_version
        ("1.7.1" ∷ "1.8.0" ∷ []))
select_versions-Selected_example =
    select_versions-Selected whole (λ s. false) (λ s. s) payload.version.remote_version digits
      ("1.7.1" ∷ "1.8.0" ∷ [])

subject_infos-IsReport_example :
    ((parsed : List Digits) × (infos : VersionInfos) × (subject_infos digits reverse "test"
          payload.version
          ("1.7.1" ∷ "2.0.0" ∷ [])
        ≡ ok infos)
      × (map digits.original parsed ≡ "1.7.1" ∷ "2.0.0" ∷ [])
      × IsReport digits "test" payload.version parsed infos)
    ⊎ ((subject_infos digits reverse "test" payload.version ("1.7.1" ∷ "2.0.0" ∷ []) ≡ err external)
        × ((text : String) × (In text ("1.7.1" ∷ "2.0.0" ∷ []) ⊎ In text ("1.7.0" ∷ []))
            × (digits.new_version text ≡ none)))
subject_infos-IsReport_example =
    subject_infos-IsReport digits digits-HasSegments digits-IsOrdered digits-KeepsOriginal reverse
      (λ m. Permᴰ.reverse m) "test" payload.version ("1.7.1" ∷ "2.0.0" ∷ [])

-- A resource is the list of the values that any expression finds in it.
abbrev pub fields : JsonPath
fields = record {
  Resource = List String;
  Template = String;
  relaxed = λ s. some s;
  parse = λ s. some s;
  find_results = λ t r. some (r ∷ []);
}

abbrev pods : List (List String)
pods = ("1.7.0" ∷ []) ∷ ("1.7.1" ∷ []) ∷ [] ∷ ("1.7.0" ∷ []) ∷ []

extract_subject_version-IsCounted_example :
    ((sv : SubjectVersion) × (errors : ℕ) × (es : List (Option (String × String)))
      × (extract_subject_version fields whole tracker pods ≡ ok (sv, errors))
      × All2 (λ i e. extract fields whole (get_local_version tracker) i ≡ ok e) pods es
      × IsCounted es sv errors)
    ⊎ ((extract_subject_version fields whole tracker pods ≡ panic)
        × (whole.compile (get_local_version tracker).extraction.regex.pattern ≡ none))
extract_subject_version-IsCounted_example =
    extract_subject_version-IsCounted fields whole tracker pods

auth_middleware_iff_example :
    (auth_middleware "secret" "Bearer secret" ≡ Http.next)
    ↔ ◌≡◌ {A = String} "Bearer secret" "Bearer secret"
auth_middleware_iff_example = auth_middleware_iff "secret" "Bearer secret"

abbrev pub codec : Codec
codec = record { encode = λ p. some "{}"; decode = λ s. some payload }

post-IsStored_example :
    ((codec.encode payload ≡ none)
      × (post
            (timed_cache Value)
            codec
            (serve_agents_post (timed_cache Value) codec "secret")
            "http://opvic"
            "secret"
            payload
            empty_state
          ≡ (err external, empty_state)))
    ⊎ (((◌≡◌ {A = String} "secret" "secret")
          × ((t : State (timed_cache Value)) × (post
                  (timed_cache Value)
                  codec
                  (serve_agents_post (timed_cache Value) codec "secret")
                  "http://opvic"
                  "secret"
                  payload
                  empty_state
                ≡ (ok tt, t))
              × IsWellTyped (timed_cache Value) t
              × IsStored (timed_cache Value) payload empty_state t))
        ⊎ ((◌≢◌ {A = String} "secret" "secret")
            × (post
                  (timed_cache Value)
                  codec
                  (serve_agents_post (timed_cache Value) codec "secret")
                  "http://opvic"
                  "secret"
                  payload
                  empty_state
                ≡ (err unexpected_status, empty_state))))
post-IsStored_example =
    post-IsStored (timed_cache Value) (timed_cache-IsCache Value) codec "secret" "http://opvic"
      payload test-IsAgentId (omega arith) empty_state empty_state-IsWellTyped (λ body e. refl)
      "secret"

abbrev pub config : Agent.Config
config = record { id = "test"; tags = ("env", "dev") ∷ []; control_plane_url = "http://opvic" }

abbrev cluster : Agent.Cluster fields
cluster = record {
  get = Agent.tracker tracker;
  select = λ text. some text;
  list_items = λ kind v. some pods;
}

reconcile-Rounded_example :
    Rounded fields whole config
      (λ p. none)
      (set_defaults tracker)
      pods
      (Agent.reconcile fields whole config (λ p. none) cluster)
unfolding set_defaults validate get_object_list
reconcile-Rounded_example =
    reconcile-Rounded fields whole config (λ p. none) cluster tracker pod_list "app=coredns"
      ("1.7.0" ∷ []) (("1.7.1" ∷ []) ∷ [] ∷ ("1.7.0" ∷ []) ∷ []) refl refl refl refl refl

-- A cluster with pods in "kube-system" alone, and a tracker of two namespaces.
abbrev list_in : List Agent.ListOption → List (List String)
list_in [] = pods
list_in (Agent.in_namespace a ∷ []) = if a == "kube-system" then pods else []
list_in (Agent.in_namespace a ∷ Agent.matching_labels_selector l ∷ rest) =
    if a == "kube-system" then pods else []
list_in (Agent.in_namespace a ∷ Agent.in_namespace b ∷ rest) = list_in (Agent.in_namespace b ∷ rest)
list_in (Agent.matching_labels_selector l ∷ rest) = list_in rest

abbrev spread_tracker : VersionTracker
spread_tracker = record tracker {
  spec = record (tracker.spec) {
    resources = record (tracker.spec.resources) { namespaces = "kube-system" ∷ "default" ∷ [] };
  };
}

abbrev spread_cluster : Agent.Cluster fields
spread_cluster = record {
  get = Agent.tracker spread_tracker;
  select = λ text. some text;
  list_items = λ kind options. some (list_in options);
}

spread_cluster-SetsNamespace : SetsNamespace spread_cluster
spread_cluster-SetsNamespace = record { overrides = λ kind a b options. refl }

-- The pods of "kube-system" are not seen.
reconcile-last_namespace_example :
    Agent.reconcile fields whole config (λ p. none) spread_cluster
    ≡ Agent.reconcile_items fields whole config (λ p. none) (set_defaults spread_tracker) []
unfolding set_defaults validate get_object_list
reconcile-last_namespace_example =
    reconcile-last_namespace fields spread_cluster spread_cluster-SetsNamespace whole config
      (λ p. none) spread_tracker pod_list "app=coredns" ("kube-system" ∷ []) "default" [] refl refl
      refl refl refl refl
