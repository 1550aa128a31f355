-- ===== src/Agent/Verify/Payment.antt =====
-- `verifyPaymentFailure` of internal/agent/verify.go.
use incident_pilot.Common.{
  ◌≡◌, ◌≢◌, refl, Bool, false, not, ◌&&◌, ◌||◌, Option, none, some, List, [], ◌∷◌, arith,
  if◌then◌else◌,
}
use incident_pilot.Common.Scan.{scan}
use incident_pilot.Text.{Bytes, lit, ◌==◌}
use incident_pilot.Evidence.{Record}
use incident_pilot.Agent.Types.{RootCause, cause_payment_failure}
use incident_pilot.Agent.Payloads.{
  Floats, deployment_runtime_value, metric_parameter, prometheus_range_has_positive_sample,
  trace_shows_payment_failure,
}
use incident_pilot.Agent.Verify.Cited.{
  is_cited, Cites, Named, id_of, never_both, slot-Cites, slot_filled,
}

pub record Slots : Type 0 where
  pub deployment_id : Bytes
  pub metric_id : Bytes
  pub trace_id : Bytes

deployment_not_metric :
    (lit "kubernetes_get_deployment" == lit "prometheus_get_demo_metric_range") ≡ false
unfolding lit ◌==◌
deployment_not_metric = refl

deployment_not_trace : (lit "kubernetes_get_deployment" == lit "tempo_get_trace") ≡ false
unfolding lit ◌==◌
deployment_not_trace = refl

metric_not_trace : (lit "prometheus_get_demo_metric_range" == lit "tempo_get_trace") ≡ false
unfolding lit ◌==◌
metric_not_trace = refl

-- a Deployment of payments-api in its failure mode
unfoldable pub fails_payments : Record → Bool
fails_payments r =
    r.tool == lit "kubernetes_get_deployment"
    && r.source == lit "kubernetes/deployment"
    && r.resource_ref == lit "incidentpilot-demo/payments-api"
    && deployment_runtime_value r.payload (lit "payments-api") (lit "DEMO_PAYMENT_MODE")
      == lit "fail"

-- a trace with the payment error and its two consequences
unfoldable pub trace_failed : Record → Bool
trace_failed r =
    r.tool == lit "tempo_get_trace"
    && r.source == lit "tempo"
    && trace_shows_payment_failure r.payload

module _ (floats : Floats) where
  -- a frontend error rate with a positive sample
  unfoldable pub frontend_errors : Record → Bool
  frontend_errors r =
      r.tool == lit "prometheus_get_demo_metric_range"
      && r.source == lit "prometheus/range"
      && r.resource_ref == lit "incidentpilot-demo/frontend"
      && metric_parameter r.parameters == lit "error_rate"
      && prometheus_range_has_positive_sample floats r.payload

  pub step : List Bytes → Slots → Record → Slots
  step cited s r =
      if not (is_cited cited r.id)
      then s
      else if r.tool == lit "kubernetes_get_deployment"
      then (if r.source == lit "kubernetes/deployment"
            && r.resource_ref == lit "incidentpilot-demo/payments-api"
            && deployment_runtime_value r.payload (lit "payments-api") (lit "DEMO_PAYMENT_MODE")
              == lit "fail"
          then record s { deployment_id = r.id }
          else s)
      else if r.tool == lit "prometheus_get_demo_metric_range"
      then (if r.source == lit "prometheus/range"
            && r.resource_ref == lit "incidentpilot-demo/frontend"
            && metric_parameter r.parameters == lit "error_rate"
            && prometheus_range_has_positive_sample floats r.payload
          then record s { metric_id = r.id }
          else s)
      else if r.tool == lit "tempo_get_trace"
      then (if r.source == lit "tempo" && trace_shows_payment_failure r.payload
          then record s { trace_id = r.id }
          else s)
      else s

  conclude : Slots → Option RootCause
  conclude s =
      if s.deployment_id == [] || s.metric_id == [] || s.trace_id == []
      then none
      else some (record {
        conclusion =
            lit
              "payments-api was configured with DEMO_PAYMENT_MODE=fail; one distributed trace records the originating payment HTTP 503 error and propagated orders-api and frontend HTTP 502 errors";
        component = lit "payments-api";
        cause = cause_payment_failure;
        evidence_ids = s.deployment_id ∷ s.trace_id ∷ s.metric_id ∷ [];
      })

  abbrev start : Slots
  start = record { deployment_id = []; metric_id = []; trace_id = [] }

  unfoldable pub verify_payment_failure : List Record → List Bytes → Option RootCause
  unfolding step conclude scan
  verify_payment_failure records cited = conclude (scan (step cited) start records)

  sets_deployment_id :
      (cited : List Bytes) (s : Slots) (r : Record)
      → (step cited s r).deployment_id
        ≡ (if is_cited cited r.id && fails_payments r then r.id else s.deployment_id)
  unfolding step fails_payments
  sets_deployment_id cited s r = ground (
    arith,
    never_both r.tool _ _ deployment_not_metric,
    never_both r.tool _ _ deployment_not_trace,
    never_both r.tool _ _ metric_not_trace,
  )

  sets_metric_id :
      (cited : List Bytes) (s : Slots) (r : Record)
      → (step cited s r).metric_id
        ≡ (if is_cited cited r.id && frontend_errors r then r.id else s.metric_id)
  unfolding step frontend_errors
  sets_metric_id cited s r = ground (
    arith,
    never_both r.tool _ _ deployment_not_metric,
    never_both r.tool _ _ deployment_not_trace,
    never_both r.tool _ _ metric_not_trace,
  )

  sets_trace_id :
      (cited : List Bytes) (s : Slots) (r : Record)
      → (step cited s r).trace_id
        ≡ (if is_cited cited r.id && trace_failed r then r.id else s.trace_id)
  unfolding step trace_failed
  sets_trace_id cited s r = ground (
    arith,
    never_both r.tool _ _ deployment_not_metric,
    never_both r.tool _ _ deployment_not_trace,
    never_both r.tool _ _ metric_not_trace,
  )

  -- what a conclusion rests on
  conclude_lem :
      (s : Slots) {rc : RootCause}
      → conclude s ≡ some rc
      → ((s.deployment_id == []) ≡ false)
        × ((s.metric_id == []) ≡ false)
        × ((s.trace_id == []) ≡ false)
        × (rc.component ≡ lit "payments-api")
        × (rc.cause ≡ cause_payment_failure)
        × (rc.evidence_ids ≡ s.deployment_id ∷ s.trace_id ∷ s.metric_id ∷ [])
  unfolding conclude
  conclude_lem s h = ground arith

  -- `verifyPaymentFailure` concludes only from three cited records of the collection: a payments-api
  -- Deployment in failure mode, a positive frontend error rate, and a trace of the failure. It names the
  -- payment cause and cites those three: Deployment, trace, metric.
  pub verify_payment_failure_sound :
      (records : List Record) (cited : List Bytes) {rc : RootCause}
      → verify_payment_failure records cited ≡ some rc
      → (rc.component ≡ lit "payments-api")
        × (rc.cause ≡ cause_payment_failure)
        × ((deployment_id metric_id trace_id : Bytes) × (rc.evidence_ids
              ≡ deployment_id ∷ trace_id ∷ metric_id ∷ [])
            × Cites records cited fails_payments id_of deployment_id
            × Cites records cited frontend_errors id_of metric_id
            × Cites records cited trace_failed id_of trace_id)
  unfolding verify_payment_failure
  verify_payment_failure_sound records cited h =
      let s = scan (step cited) start records in
      let (h_deployment_id, h_metric_id, h_trace_id, component, cause, ids) = conclude_lem s h in
      (
        component,
        cause,
        (
          s.deployment_id,
          s.metric_id,
          s.trace_id,
          ids,
          slot-Cites cited (step cited) (λ s. s.deployment_id) fails_payments id_of
              (sets_deployment_id cited) (λ v. v) start records refl h_deployment_id,
          slot-Cites cited (step cited) (λ s. s.metric_id) frontend_errors id_of
              (sets_metric_id cited) (λ v. v) start records refl h_metric_id,
          slot-Cites cited (step cited) (λ s. s.trace_id) trace_failed id_of (sets_trace_id cited)
              (λ v. v) start records refl h_trace_id,
        ),
      )

  -- `verifyPaymentFailure` misses nothing: where every record has an ID, three cited records that show the
  -- three facts are enough for a root cause.
  pub verify_payment_failure_complete :
      (records : List Record) (cited : List Bytes)
      → Named records
      → (deployment_id : Bytes) → Cites records cited fails_payments id_of deployment_id
      → (metric_id : Bytes) → Cites records cited frontend_errors id_of metric_id
      → (trace_id : Bytes) → Cites records cited trace_failed id_of trace_id
      → verify_payment_failure records cited ≢ none
  unfolding verify_payment_failure conclude
  verify_payment_failure_complete records cited named deployment_id c_deployment_id metric_id
        c_metric_id trace_id c_trace_id =
      let f_deployment_id =
        slot_filled cited (step cited) (λ s. s.deployment_id) fails_payments id_of
          (sets_deployment_id cited) (λ v. v) start records deployment_id named c_deployment_id in
      let f_metric_id =
        slot_filled cited (step cited) (λ s. s.metric_id) frontend_errors id_of
          (sets_metric_id cited) (λ v. v) start records metric_id named c_metric_id in
      let f_trace_id =
        slot_filled cited (step cited) (λ s. s.trace_id) trace_failed id_of (sets_trace_id cited)
          (λ v. v) start records trace_id named c_trace_id in
      ground (arith, f_deployment_id, f_metric_id, f_trace_id)
