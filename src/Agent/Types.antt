-- ===== src/Agent/Types.antt =====
-- The data of internal/agent/agent.go, and the causes of internal/agent/verify.go.
use incident_pilot.Common.{ℕ, Option, List}
use incident_pilot.Common.Int.{ℤ}
use incident_pilot.Text.{Bytes, lit}
use incident_pilot.Time.{Time}

-- ROOT_CAUSE_FOUND and INSUFFICIENT_EVIDENCE
pub data Status : Type 0 where
  root_cause_found insufficient_evidence : Status

pub record Hypothesis : Type 0 where
  pub statement : Bytes
  pub status : Bytes
  pub evidence_ids : List Bytes

pub record RootCause : Type 0 where
  pub conclusion : Bytes
  pub component : Bytes
  pub cause : Bytes
  pub evidence_ids : List Bytes

pub record Report : Type 0 where
  pub id : Bytes
  pub incident_id : Bytes
  pub status : Status
  pub started_at : Time
  pub completed_at : Time
  pub hypotheses : List Hypothesis
  pub root_cause : Option RootCause
  pub evidence_ids : List Bytes
  pub llm_calls : ℕ
  pub llm_retries : ℕ
  pub input_tokens : ℤ
  pub output_tokens : ℤ
  pub tool_calls : ℕ
  pub reason : Bytes
  pub trace_id : Bytes

unfoldable pub cause_memory_limit_oom : Bytes
cause_memory_limit_oom = lit "memory_limit_oom"

unfoldable pub cause_unpullable_image : Bytes
cause_unpullable_image = lit "deployment_references_unpullable_image"

unfoldable pub cause_invalid_order_mode : Bytes
cause_invalid_order_mode = lit "unsupported_order_mode_from_configmap"

unfoldable pub cause_broken_selector : Bytes
cause_broken_selector = lit "service_selector_matches_no_payment_pods"

unfoldable pub cause_excessive_cpu : Bytes
cause_excessive_cpu = lit "excessive_cpu_work_per_order"

unfoldable pub cause_payment_failure : Bytes
cause_payment_failure = lit "payment_processor_failure_mode_enabled"
