-- ===== src/Registry/Stored.antt =====
-- A report that AgentsPost of controlplane/handlers.go has stored is what the reads return.
use opvic.Prelude.{◌≡◌, ◌≢◌, refl, sym, ap, ◌∙◌, map, some, ok, Bool-cases, inl, inr, In, String}
use opvic.External.{GoCache, IsCache}
use opvic.Utils.{contains}
use opvic.Api.{Agent, AgentPayload}
use opvic.Cache.{Value, agents, subject_version, State}
use opvic.Cache.Keys.{Key, IsAgentId, IsSlashFree, IsClean}
use opvic.Cache.Typed.{
  IsWellTyped, read, read-write_self, read-write_ne, get_subject_version_cache-ok,
}
use opvic.Cache.Shapes.{agents_or, strings_or}
use opvic.Registry.{update_agents, agents_post, status_ok, agents_subject_version_get}
use opvic.Registry.Reports.{
  add_id, listed, registered, reported, agents_post-ok, agents_post-IsWellTyped, update_agents-In,
}

module _ (C : GoCache Value) where
  -- What is read after a report of `ap` in the state `s` that has left the state `t`.
  pub record IsStored (ap : AgentPayload) (s t : State C) : Type 0 where
    pub answer :
        agents_subject_version_get C ap.agent_id ap.version.id t ≡ (ok (status_ok ap.version), t)
    pub listed_versions :
        strings_or (read C t (Key.versions_of ap.agent_id))
        ≡ add_id ap.version.id (strings_or (read C s (Key.versions_of ap.agent_id)))
    pub agent :
        (g : Agent) × In g (agents_or (read C t Key.agent_list))
        × (g.id ≡ ap.agent_id)
        × (g.tags ≡ ap.agent_tags)
        × (g.last_heartbeat ≡ s.now)
    pub other_agents :
        (g : Agent)
        → g.id ≢ ap.agent_id
        → In g (agents_or (read C s Key.agent_list))
        → In g (agents_or (read C t Key.agent_list))
    pub ids :
        map (λ g. g.id) (agents_or (read C t Key.agent_list))
        ≡ add_id ap.agent_id (map (λ g. g.id) (agents_or (read C s Key.agent_list)))
    pub rest :
        (k : Key)
        → IsClean k
        → k ≢ Key.agent_list
        → k ≢ Key.versions_of ap.agent_id
        → k ≢ Key.subject ap.agent_id ap.version.id
        → read C t k ≡ read C s k

module _ (C : GoCache Value) (c : IsCache C) (p : AgentPayload) (i : IsAgentId p.agent_id)
    (n : IsSlashFree p.version.id) (s : State C) (h : IsWellTyped C s) where
  -- What the second step writes.
  read-listed :
      (v : String) (k : Key)
      → IsClean k
      → k ≢ Key.versions_of p.agent_id
      → (u : State C) → read C (listed C c p.agent_id v u) k ≡ read C u k
  read-listed v k kc ne u =
      elim (Bool-cases (contains (strings_or (read C u (Key.versions_of p.agent_id))) v)) [
        | inl old ↦ rw old refl
        | inr new ↦
            rw new (read-write_ne C c u (Key.versions_of p.agent_id) k _ i kc (λ e. ne (sym e)))
      ]

  listed_strings :
      (v : String) (u : State C)
      → strings_or (read C (listed C c p.agent_id v u) (Key.versions_of p.agent_id))
        ≡ add_id v (strings_or (read C u (Key.versions_of p.agent_id)))
  listed_strings v u =
      elim (Bool-cases (contains (strings_or (read C u (Key.versions_of p.agent_id))) v)) [
        | inl old ↦ rw old refl
        | inr new ↦ rw new (ap strings_or (read-write_self C c u (Key.versions_of p.agent_id) _))
      ]

  abbrev subject_key : Key
  subject_key = Key.subject p.agent_id p.version.id

  -- A key that the last step does not write.
  read-reported :
      (k : Key)
      → IsClean k
      → k ≢ subject_key
      → read C (reported C c p s) k
        ≡ read C (listed C c p.agent_id p.version.id (registered C c p s)) k
  read-reported k kc ne =
      read-write_ne C c (listed C c p.agent_id p.version.id (registered C c p s)) subject_key k
        (subject_version p.version) (i, n) kc (λ e. ne (sym e))

  pub read_agents :
      read C (reported C c p s) Key.agent_list
      ≡ some (
          agents
            (update_agents p.agent_id p.agent_tags s.now (agents_or (read C s Key.agent_list))))
  read_agents =
      read-reported Key.agent_list tt (λ e. cc)
      ∙ read-listed p.version.id Key.agent_list tt (λ e. cc) (registered C c p s)
      ∙ read-write_self C c s Key.agent_list _

  pub read_rest :
      (k : Key)
      → IsClean k
      → k ≢ Key.agent_list
      → k ≢ Key.versions_of p.agent_id
      → k ≢ subject_key
      → read C (reported C c p s) k ≡ read C s k
  read_rest k kc n1 n2 n3 =
      read-reported k kc n3
      ∙ read-listed p.version.id k kc n2 (registered C c p s)
      ∙ read-write_ne C c s Key.agent_list k _ tt kc (λ e. n1 (sym e))

  pub read_subject : read C (reported C c p s) subject_key ≡ some (subject_version p.version)
  read_subject =
      read-write_self C c (listed C c p.agent_id p.version.id (registered C c p s)) subject_key
        (subject_version p.version)

  pub read_versions :
      strings_or (read C (reported C c p s) (Key.versions_of p.agent_id))
      ≡ add_id p.version.id (strings_or (read C s (Key.versions_of p.agent_id)))
  read_versions =
      ap strings_or (read-reported (Key.versions_of p.agent_id) i (λ e. cc))
      ∙ listed_strings p.version.id (registered C c p s)
      ∙ ap (λ o. add_id p.version.id (strings_or o))
          (read-write_ne C c s Key.agent_list (Key.versions_of p.agent_id) _ tt i (λ e. cc))

  answer_lem :
      agents_subject_version_get C p.agent_id p.version.id (reported C c p s)
      ≡ (ok (status_ok p.version), reported C c p s)
  unfolding agents_subject_version_get
  answer_lem =
      let t = reported C c p s in
      rw
        (
          get_subject_version_cache-ok C t (agents_post-IsWellTyped C c p i n s h) p.agent_id
              p.version.id i n,
          read-write_self C c (listed C c p.agent_id p.version.id (registered C c p s)) subject_key
              (subject_version p.version),
        )
        refl

  -- In a well-typed state the report of a clean payload is stored, without a panic, and the state
  -- stays well typed: the GET handler answers with the reported version, its identifier is in the
  -- agent's list, the agent is registered with its tags and the time of the report, other agents
  -- stay registered as they were, no identifier is listed twice that was not before, and nothing
  -- else changes.
  pub agents_post-IsStored :
      (t : State C) × (agents_post C p s ≡ (ok tt, t)) × IsWellTyped C t × IsStored C p s t
  agents_post-IsStored =
      let t = reported C c p s in
      let (there, others, ids) =
        update_agents-In p.agent_id p.agent_tags s.now (agents_or (read C s Key.agent_list)) in
      (
        t,
        agents_post-ok C c p i n s h,
        agents_post-IsWellTyped C c p i n s h,
        record {
          answer = answer_lem;
          listed_versions = read_versions;
          agent = rw read_agents there;
          other_agents = rw read_agents others;
          ids = rw read_agents ids;
          rest = read_rest;
        },
      )
