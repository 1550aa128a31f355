-- ===== src/Agent/Verify/Agreement.antt =====
-- `supportedCause` and `verifyClaim` agree.
use incident_pilot.Common.{◌≡◌, refl, false, some, List, inl, inr, arith}
use incident_pilot.Text.{Bytes, lit, ◌==◌, ==_refl}
use incident_pilot.Evidence.{Record}
use incident_pilot.Agent.Types.{
  RootCause, cause_memory_limit_oom, cause_unpullable_image, cause_invalid_order_mode,
  cause_broken_selector, cause_excessive_cpu, cause_payment_failure,
}
use incident_pilot.Agent.Payloads.{Floats}
use incident_pilot.Agent.Verify.Claims.{verify_claim, supported_cause}
use incident_pilot.Agent.Verify.Sound.{
  supported_cause-Origin, oom-Holds, image-Holds, config-Holds, selector-Holds, cpu-Holds,
  payment-Holds,
}

orders_not_payments : (lit "orders-api" == lit "payments-api") ≡ false
unfolding lit ◌==◌
orders_not_payments = refl

selector_not_oom : (cause_broken_selector == cause_memory_limit_oom) ≡ false
unfolding cause_broken_selector cause_memory_limit_oom lit ◌==◌
selector_not_oom = refl

payment_not_oom : (cause_payment_failure == cause_memory_limit_oom) ≡ false
unfolding cause_payment_failure cause_memory_limit_oom lit ◌==◌
payment_not_oom = refl

payment_not_selector : (cause_payment_failure == cause_broken_selector) ≡ false
unfolding cause_payment_failure cause_broken_selector lit ◌==◌
payment_not_selector = refl

config_not_image : (cause_invalid_order_mode == cause_unpullable_image) ≡ false
unfolding cause_invalid_order_mode cause_unpullable_image lit ◌==◌
config_not_image = refl

cpu_not_image : (cause_excessive_cpu == cause_unpullable_image) ≡ false
unfolding cause_excessive_cpu cause_unpullable_image lit ◌==◌
cpu_not_image = refl

cpu_not_config : (cause_excessive_cpu == cause_invalid_order_mode) ≡ false
unfolding cause_excessive_cpu cause_invalid_order_mode lit ◌==◌
cpu_not_config = refl

-- The cause that the collected evidence supports is verified when it is claimed: the claim of its own
-- component and cause, with the same citations, gives that root cause and no reason against it.
pub supported_cause-verify_claim :
    (floats : Floats) (records : List Record) (cited : List Bytes) {rc : RootCause}
    → supported_cause floats records cited ≡ some rc
    → verify_claim floats records cited rc.component rc.cause ≡ (some rc, lit "")
unfolding verify_claim
supported_cause-verify_claim floats records cited h =
    elim (supported_cause-Origin floats records cited h) [
      | inl q ↦
          let (c, k, g) = oom-Holds records cited q in
          ground (arith, c, k, q, ==_refl (lit "payments-api"), ==_refl cause_memory_limit_oom)
      | inr (inl q) ↦
          let (c, k, g) = image-Holds records cited q in
          ground (
            arith,
            c,
            k,
            q,
            orders_not_payments,
            ==_refl (lit "orders-api"),
            ==_refl cause_unpullable_image,
          )
      | inr (inr (inl q)) ↦
          let (c, k, g) = config-Holds records cited q in
          ground (
            arith,
            c,
            k,
            q,
            orders_not_payments,
            config_not_image,
            ==_refl (lit "orders-api"),
            ==_refl cause_invalid_order_mode,
          )
      | inr (inr (inr (inl q))) ↦
          let (c, k, g) = selector-Holds floats records cited q in
          ground (
            arith,
            c,
            k,
            q,
            selector_not_oom,
            ==_refl (lit "payments-api"),
            ==_refl cause_broken_selector,
          )
      | inr (inr (inr (inr (inl q)))) ↦
          let (c, k, g) = cpu-Holds floats records cited q in
          ground (
            arith,
            c,
            k,
            q,
            orders_not_payments,
            cpu_not_image,
            cpu_not_config,
            ==_refl (lit "orders-api"),
            ==_refl cause_excessive_cpu,
          )
      | inr (inr (inr (inr (inr q)))) ↦
          let (c, k, g) = payment-Holds floats records cited q in
          ground (
            arith,
            c,
            k,
            q,
            payment_not_oom,
            payment_not_selector,
            ==_refl (lit "payments-api"),
            ==_refl cause_payment_failure,
          )
    ]
