-- ===== src/Registry.antt =====
-- The operations of controlplane/cache.go on the agents and the versions that they report, and the
-- handlers of controlplane/handlers.go. The cache holds pointers to agents: UpdateAgentListCache
-- changes them in place and then stores the list again, which is one write of the changed list.
pub mod Reports
pub mod Stored
pub mod Live
pub mod Collect
pub mod Views
pub mod Rounds
pub mod Fleet
pub mod Machine
pub mod Timeline
pub mod Silence
pub mod Interleaving
pub mod Bounds
use opvic.Prelude.{
  ℕ, ◌+◌, Bool, true, false, not, ◌||◌, List, [], ◌∷◌, ◌++◌, map, String, ◌==◌, Option, none, some,
  ltb, filter_bool, Outcome, ok, if◌then◌else◌,
}
use opvic.Prelude.State.{Run, pure, gets, for_each, ◌>>=◌, ◌>>◌}
use opvic.External.{GoCache}
use opvic.Utils.{contains}
use opvic.Api.{Agent, AgentPayload, SubjectVersion, VersionInfos, list_ids}
use opvic.Cache.{
  Value, State, get_agent_list_cache, set_agent_list_cache, get_agent_subject_version_list_cache,
  set_agent_subject_version_list_cache, set_subject_version_cache, get_subject_version_cache,
  set_agent_cache, get_agent_cache, get_subject_version_info_cache,
}

-- `found` after the loop over the agents.
unfoldable pub has_agent : List Agent → String → Bool
has_agent [] agent_id = false
has_agent (agent ∷ agents) agent_id = agent.id == agent_id || has_agent agents agent_id

-- The assignments of the loop.
abbrev pub touch : String → List (String × String) → ℕ → Agent → Agent
touch agent_id agent_tags now agent =
    if agent.id == agent_id then record agent { tags = agent_tags; last_heartbeat = now } else agent

unfoldable pub update_agents : String → List (String × String) → ℕ → List Agent → List Agent
update_agents agent_id agent_tags now agents =
    if has_agent agents agent_id
    then map (touch agent_id agent_tags now) agents
    else map (touch agent_id agent_tags now) agents
      ++ record { id = agent_id; tags = agent_tags; last_heartbeat = now } ∷ []

-- `time.Now().Unix()-agent.LastHeartbeat < int64(cp.cacheExpiration.Seconds())`, over the integers.
abbrev pub is_live : ℕ → ℕ → Agent → Bool
is_live expiration now agent = ltb now (expiration + agent.last_heartbeat)

module _ (C : GoCache Value) where
  unfoldable pub update_agent_list_cache :
      String → List (String × String) → Run (State C) (Unit {0})
  unfolding update_agents has_agent
  update_agent_list_cache agent_id agent_tags = do
    agents ← get_agent_list_cache C
    now ← gets (λ s. s.now)
    set_agent_list_cache C (update_agents agent_id agent_tags now agents)

  unfoldable pub update_agent_subject_versions_list : String → String → Run (State C) (Unit {0})
  update_agent_subject_versions_list agent_id version_id = do
    subject_list ← get_agent_subject_version_list_cache C agent_id
    if contains subject_list version_id
        then pure tt
        else set_agent_subject_version_list_cache C agent_id (subject_list ++ version_id ∷ [])

  -- What AgentsPost does with a payload after it has answered 202.
  unfoldable pub agents_post : AgentPayload → Run (State C) (Unit {0})
  agents_post ap = do
    update_agent_list_cache ap.agent_id ap.agent_tags
    update_agent_subject_versions_list ap.agent_id ap.version.id
    set_subject_version_cache C ap.agent_id ap.version.id ap.version

  unfoldable pub agent_list_cache_reconcile : ℕ → Run (State C) (Unit {0})
  agent_list_cache_reconcile expiration = do
    agents ← get_agent_list_cache C
    now ← gets (λ s. s.now)
    set_agent_list_cache C (filter_bool (is_live expiration now) agents)

  -- The inner loop of AgentCacheReconcile.
  pub collect_versions : String → List String → Run (State C) (List SubjectVersion × List String)
  collect_versions agent [] = pure ([], [])
  collect_versions agent (version_id ∷ rest) = do
    found ← get_subject_version_cache C agent version_id
    later ← collect_versions agent rest
    elim found [ none ↦ pure later | some version ↦ pure (version ∷ later.0, version_id ∷ later.1) ]

  pub reconcile_agent : String → Run (State C) (Unit {0})
  unfolding collect_versions
  reconcile_agent agent = do
    list ← get_agent_subject_version_list_cache C agent
    collected ← collect_versions agent list
    set_agent_cache C agent collected.0
    set_agent_subject_version_list_cache C agent collected.1

  unfoldable pub agent_cache_reconcile : Run (State C) (Unit {0})
  unfolding reconcile_agent
  agent_cache_reconcile = do
    agents ← get_agent_list_cache C
    for_each (list_ids agents) reconcile_agent

-- The answers of the GET handlers: 200 with a body, or 404.
pub data Reply (A : Type 0) : Type 0 where
  status_ok : A → Reply A
  not_found : Reply A

abbrev reply : {A : Type 0} → Option A → Reply A
reply none = not_found
reply (some a) = status_ok a

module _ (C : GoCache Value) where
  unfoldable pub agents_get : Run (State C) (Reply (List Agent))
  agents_get = do agents ← get_agent_list_cache C; pure (status_ok agents)

  unfoldable pub agent_get : String → Run (State C) (Reply (List SubjectVersion))
  agent_get agent_id = do found ← get_agent_cache C agent_id; pure (reply found)

  unfoldable pub agents_subject_version_get : String → String → Run (State C) (Reply SubjectVersion)
  agents_subject_version_get agent_id version_id = do
    found ← get_subject_version_cache C agent_id version_id
    pure (reply found)

  unfoldable pub agents_subject_versions_info_get :
      String → String → Run (State C) (Reply VersionInfos)
  agents_subject_versions_info_get agent_id version_id = do
    found ← get_subject_version_info_cache C agent_id version_id
    pure (reply found)
