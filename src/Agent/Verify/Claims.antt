-- ===== src/Agent/Verify/Claims.antt =====
-- `verifyClaim`, `supportedCause` and `evidenceAlreadySupportsCause` of internal/agent/verify.go.
use incident_pilot.Common.{Bool, true, false, Option, none, some, List, if◌then◌else◌}
use incident_pilot.Text.{Bytes, lit, ◌==◌}
use incident_pilot.Evidence.{Record}
use incident_pilot.Agent.Types.{
  RootCause, cause_memory_limit_oom, cause_unpullable_image, cause_invalid_order_mode,
  cause_broken_selector, cause_excessive_cpu, cause_payment_failure,
}
use incident_pilot.Agent.Payloads.{Floats}
use incident_pilot.Agent.Verify.Oom.{verify_oom}
use incident_pilot.Agent.Verify.ImagePull.{verify_image_pull}
use incident_pilot.Agent.Verify.OrderConfig.{verify_invalid_order_config}
use incident_pilot.Agent.Verify.Selector.{verify_broken_service_selector}
use incident_pilot.Agent.Verify.Cpu.{verify_excessive_cpu}
use incident_pilot.Agent.Verify.Payment.{verify_payment_failure}

-- the verified cause, or the reason why there is none
or_reason : Option RootCause → Bytes → Option RootCause × Bytes
or_reason (some verified) reason = (some verified, lit "")
or_reason none reason = (none, reason)

module _ (floats : Floats) (records : List Record) where
  unfoldable pub verify_claim : List Bytes → Bytes → Bytes → Option RootCause × Bytes
  unfolding or_reason
  verify_claim cited component cause =
      if component == lit "payments-api"
      then (if cause == cause_memory_limit_oom
          then or_reason (verify_oom records cited) (lit "missing_cited_oom_or_limit")
          else if cause == cause_broken_selector
          then or_reason (verify_broken_service_selector floats records cited)
              (lit "missing_cited_service_routing_evidence")
          else if cause == cause_payment_failure
          then or_reason (verify_payment_failure floats records cited)
              (lit "missing_cited_payment_trace_evidence")
          else (none, lit "unsupported_cause"))
      else if component == lit "orders-api"
      then (if cause == cause_unpullable_image
          then or_reason (verify_image_pull records cited) (lit "missing_cited_image_pull_evidence")
          else if cause == cause_invalid_order_mode
          then or_reason (verify_invalid_order_config records cited)
              (lit "missing_cited_invalid_config_evidence")
          else if cause == cause_excessive_cpu
          then or_reason (verify_excessive_cpu floats records cited)
              (lit "missing_cited_latency_trace_evidence")
          else (none, lit "unsupported_cause"))
      else (none, lit "unsupported_component")

  -- the first of two causes
  abbrev or_else : Option RootCause → Option RootCause → Option RootCause
  or_else none next = next
  or_else (some cause) next = some cause

  unfoldable pub supported_cause : List Bytes → Option RootCause
  supported_cause cited = or_else (verify_oom records cited) (
      or_else (verify_image_pull records cited) (
        or_else (verify_invalid_order_config records cited) (
          or_else (verify_broken_service_selector floats records cited) (
            or_else (verify_excessive_cpu floats records cited)
              (verify_payment_failure floats records cited)))))

  unfoldable pub evidence_already_supports_cause : List Bytes → Bool
  unfolding supported_cause
  evidence_already_supports_cause cited = elim (supported_cause cited) [
    | none ↦ false
    | some cause ↦ true
  ]
