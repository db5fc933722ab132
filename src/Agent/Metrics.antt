-- ===== src/Agent/Metrics.antt =====
-- agent/metrics.go: the metrics of the agent, and what Reconcile of agent/agent.go sets. Times are
-- numbers of milliseconds.
use opvic.Prelude.{ℕ, ◌+◌, ◌-◌, List, [], ◌∷◌, String}
use opvic.Agent.{Round, Result, requeue, ignored, failed}

pub record MetricName : Type 0 where
  pub namespace : String
  pub subsystem : String
  pub name : String

abbrev pub agent_metric_name : String → MetricName
agent_metric_name name = record { namespace = "opvic"; subsystem = "agent"; name = name }

abbrev pub registered_metrics : List MetricName
registered_metrics =
    agent_metric_name "reconciliation_errors_total"
    ∷ agent_metric_name "last_reconciliation_timestamp_seconds"
    ∷ agent_metric_name "reconciliation_duration_milliseconds"
    ∷ []

pub record AgentMetrics : Type 0 where
  pub reconciliation_errors_total : ℕ
  pub last_reconciliation_timestamp : ℕ
  pub reconciliation_duration : ℕ

-- The gauges are set at the end of a round that is done, between `start` and `now`.
abbrev pub set_gauges : ℕ → ℕ → Result → AgentMetrics → AgentMetrics
set_gauges start now requeue m = record m {
  last_reconciliation_timestamp = now;
  reconciliation_duration = now - start;
}
set_gauges start now ignored m = m
set_gauges start now (failed e) m = m

unfoldable pub observe : ℕ → ℕ → Round → AgentMetrics → AgentMetrics
observe start now round m =
    set_gauges start now round.result
      (record m { reconciliation_errors_total = m.reconciliation_errors_total + round.errors })
