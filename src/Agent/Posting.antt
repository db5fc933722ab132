-- ===== src/Agent/Posting.antt =====
-- Reconcile of agent/agent.go: what it posts accounts for every resource that it has listed.
use opvic.Prelude.{
  ℕ, ◌+◌, ◌≡◌, ◌≢◌, ◌⊎◌, refl, sym, List, ◌∷◌, Option, none, some, ok, panic, Error, Bool,
  Bool-cases, inl, inr, true, false, ◌||◌, String, ◌==◌, eq_iff, Outcome, All2, arith, Option-cases,
}
use mathlib.Core.Option
use opvic.External.{GoRegexp}
use opvic.Tracker.{
  node_list, pod_list, deployment_list, daemon_set_list, stateful_set_list, replica_set_list,
  cron_job_list, job_list, VersionTracker, ObjectList, set_defaults, validate, get_object_list,
  get_local_version,
}
use opvic.Api.{AgentPayload}
use opvic.Extract.{get_items, JsonPath, SubjectVersion, extract}
use opvic.Extract.Totals.{IsCounted, extract_subject_version-IsCounted}
use opvic.Http.{prepare_the_payload}
use opvic.Agent.{
  Cluster, tracker, reconcile, reconcile_tracker, Config, requeue, failed, Round, ship,
  reconcile_items, has_none, list_options,
}

or_right : (x y : Bool) → (x || y) ≡ true → x ≡ false → y ≡ true
or_right x y e f = ground arith

or_left-false : (x y : Bool) → (x || y) ≡ false → x ≡ false
or_left-false x y e = ground arith

-- All kinds that a tracker can name are known to GetItems.
pub get_items-all : {A : Type 0} (kind : ObjectList) (l : List A) → get_items (some kind) l ≡ l
unfolding get_items
get_items-all node_list l = refl
get_items-all pod_list l = refl
get_items-all deployment_list l = refl
get_items-all daemon_set_list l = refl
get_items-all replica_set_list l = refl
get_items-all stateful_set_list l = refl
get_items-all cron_job_list l = refl
get_items-all job_list l = refl

module _ (J : JsonPath) (R : GoRegexp) (config : Config) (send : AgentPayload → Option Error) where
  -- The outcome of a round against the extracted subject version.
  pub record IsRound (sv : SubjectVersion) (errors : ℕ) (round : Round) : Type 0 where
    -- A round posts at most the payload of the subject version.
    pub posted :
        (p : AgentPayload)
        → round.posted ≡ some p
        → (p ≡ prepare_the_payload config.id config.tags sv) × (has_none sv.versions ≡ false)
    -- Without a URL nothing is posted.
    pub silent : config.control_plane_url ≡ "" → round.posted ≡ none
    -- It fails only if that was refused, which is one more error.
    pub outcome :
        ((round.result ≡ requeue) × (round.errors ≡ errors))
        ⊎ ((e : Error) × (round.result ≡ failed e)
            × (round.errors ≡ errors + 1)
            × (send (prepare_the_payload config.id config.tags sv) ≡ some e)
            × (round.posted ≡ some (prepare_the_payload config.id config.tags sv)))
    -- With a URL the payload is posted exactly if there is a version.
    pub posts :
        config.control_plane_url ≢ ""
        → has_none sv.versions ≡ false
        → round.posted ≡ some (prepare_the_payload config.id config.tags sv)

  shipped_url :
      (x : Bool) → (x || config.control_plane_url == "") ≡ false → config.control_plane_url ≢ ""
  shipped_url x e q = ground (arith, e, (eq_iff config.control_plane_url "").1 q)

  ship-IsRound : (sv : SubjectVersion) (errors : ℕ) → IsRound sv errors (ship config send sv errors)
  unfolding ship
  ship-IsRound sv errors =
      let payload = prepare_the_payload config.id config.tags sv in
      elim (Bool-cases (has_none sv.versions || config.control_plane_url == "")) [
        | inl t ↦ rw t (record {
          posted = λ p e. cc;
          silent = λ e. refl;
          outcome = inl (refl, refl);
          posts = λ u n. absurd (u ((eq_iff _ _).0 (or_right (has_none sv.versions) _ t n)));
        })
        | inr f ↦ elim (Option-cases (send payload)) [
          | inl good ↦
              rw (f, good)
                (record {
                  posted = λ p e.
                      (sym (Option.some-injective _ _ e), or_left-false (has_none sv.versions) _ f);
                  silent = λ e. absurd (shipped_url (has_none sv.versions) f e);
                  outcome = inl (refl, refl);
                  posts = λ u n. refl;
                })
          | inr (x, bad) ↦
              rw (f, bad)
                (record {
                  posted = λ p e.
                      (sym (Option.some-injective _ _ e), or_left-false (has_none sv.versions) _ f);
                  silent = λ e. absurd (shipped_url (has_none sv.versions) f e);
                  outcome = inr (x, refl, refl, bad, refl);
                  posts = λ u n. refl;
                })
        ]
      ]

  -- What a round on listed resources is.
  abbrev pub Rounded : VersionTracker → List J.Resource → Outcome Round → Type 0
  Rounded v items result =
      ((sv : SubjectVersion) × (errors : ℕ) × (es : List (Option (String × String)))
        × (round : Round) × (result ≡ ok round)
        × All2 (λ i e. extract J R (get_local_version v) i ≡ ok e) items es
        × IsCounted es sv errors
        × IsRound sv errors round)
      ⊎ ((result ≡ panic) × (R.compile (get_local_version v).extraction.regex.pattern ≡ none))

  reconcile_items-Rounded :
      (v : VersionTracker) (i : J.Resource) (items : List J.Resource)
      → Rounded v (i ∷ items) (reconcile_items J R config send v (i ∷ items))
  unfolding reconcile_items
  reconcile_items-Rounded v i items = elim (extract_subject_version-IsCounted J R v (i ∷ items)) [
    | inr (e, broken) ↦ inr (rw e refl, broken)
    | inl (sv, errors, es, e, h, k) ↦
        inl (sv, errors, es, ship config send sv errors, rw e refl, h, k, ship-IsRound sv errors)
  ]

  -- For a tracker that is found and, with its defaults, valid, and resources that are listed, one
  -- at least, Reconcile returns unless the tracker's pattern is no regular expression. It counts
  -- each resource that it cannot extract a version from as an error. If there is a version and a
  -- URL it posts the payload of the extracted subject version, and never another, and else nothing.
  -- It fails only if that is refused, which is one more error; else it requeues.
  pub reconcile-Rounded :
      (cluster : Cluster J) (v : VersionTracker) (kind : ObjectList) (selector : String)
      (i : J.Resource) (items : List J.Resource)
      → cluster.get ≡ tracker v
      → validate (set_defaults v) ≡ ok tt
      → cluster.select (set_defaults v).spec.resources.selector ≡ some selector
      → get_object_list (set_defaults v) ≡ ok kind
      → cluster.list_items kind (list_options (set_defaults v) selector) ≡ some (i ∷ items)
      → Rounded (set_defaults v) (i ∷ items) (reconcile J R config send cluster)
  unfolding reconcile
  reconcile-Rounded cluster v kind selector i items found valid selected known listed =
      rw
        (
          reconcile,
          found,
          reconcile_tracker,
          valid,
          selected,
          known,
          listed,
          get_items-all kind (i ∷ items),
        )
        (reconcile_items-Rounded (set_defaults v) i items)
