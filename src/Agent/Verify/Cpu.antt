-- ===== src/Agent/Verify/Cpu.antt =====
-- `verifyExcessiveCPU` of internal/agent/verify.go.
use incident_pilot.Common.{
  ◌≡◌, ◌≢◌, refl, Bool, false, not, ◌&&◌, ◌||◌, Option, none, some, List, [], ◌∷◌, arith,
  if◌then◌else◌,
}
use incident_pilot.Common.Scan.{scan}
use incident_pilot.Text.{Bytes, lit, ◌==◌}
use incident_pilot.Evidence.{Record}
use incident_pilot.Agent.Types.{RootCause, cause_excessive_cpu}
use incident_pilot.Agent.Payloads.{
  Floats, deployment_runtime_value, metric_parameter, prometheus_range_has_sample_at_least,
  trace_shows_slow_successful_checkout,
}
use incident_pilot.Agent.Verify.Cited.{
  is_cited, Cites, Named, id_of, never_both, slot-Cites, slot_filled,
}

pub record Slots : Type 0 where
  pub deployment_id : Bytes
  pub frontend_metric_id : Bytes
  pub orders_metric_id : Bytes
  pub trace_id : Bytes

deployment_not_metric :
    (lit "kubernetes_get_deployment" == lit "prometheus_get_demo_metric_range") ≡ false
unfolding lit ◌==◌
deployment_not_metric = refl

deployment_not_trace : (lit "kubernetes_get_deployment" == lit "tempo_get_trace") ≡ false
unfolding lit ◌==◌
deployment_not_trace = refl

metric_not_trace : (lit "prometheus_get_demo_metric_range" == lit "tempo_get_trace") ≡ false
unfolding lit ◌==◌
metric_not_trace = refl

-- a Deployment of orders-api that burns 1000 ms of CPU for an order
unfoldable pub burns_cpu : Record → Bool
burns_cpu r =
    r.tool == lit "kubernetes_get_deployment"
    && r.source == lit "kubernetes/deployment"
    && r.resource_ref == lit "incidentpilot-demo/orders-api"
    && deployment_runtime_value r.payload (lit "orders-api") (lit "DEMO_ORDER_CPU_BURN_MS")
      == lit "1000"

-- a trace of a slow and successful checkout
unfoldable pub trace_slow : Record → Bool
trace_slow r =
    r.tool == lit "tempo_get_trace"
    && r.source == lit "tempo"
    && trace_shows_slow_successful_checkout r.payload

module _ (floats : Floats) where
  -- a frontend latency of at least 0.75
  unfoldable pub frontend_slow : Record → Bool
  frontend_slow r =
      r.tool == lit "prometheus_get_demo_metric_range"
      && r.source == lit "prometheus/range"
      && metric_parameter r.parameters == lit "success_latency_avg"
      && r.resource_ref == lit "incidentpilot-demo/frontend"
      && prometheus_range_has_sample_at_least floats r.payload (Floats.three_quarters floats)

  -- an orders-api latency of at least 0.9
  unfoldable pub orders_slow : Record → Bool
  orders_slow r =
      r.tool == lit "prometheus_get_demo_metric_range"
      && r.source == lit "prometheus/range"
      && metric_parameter r.parameters == lit "success_latency_avg"
      && r.resource_ref == lit "incidentpilot-demo/orders-api"
      && prometheus_range_has_sample_at_least floats r.payload (Floats.nine_tenths floats)

  pub step : List Bytes → Slots → Record → Slots
  step cited s r =
      if not (is_cited cited r.id)
      then s
      else if r.tool == lit "kubernetes_get_deployment"
      then (if r.source == lit "kubernetes/deployment"
            && r.resource_ref == lit "incidentpilot-demo/orders-api"
            && deployment_runtime_value r.payload (lit "orders-api") (lit "DEMO_ORDER_CPU_BURN_MS")
              == lit "1000"
          then record s { deployment_id = r.id }
          else s)
      else if r.tool == lit "prometheus_get_demo_metric_range"
      then (if not (r.source == lit "prometheus/range")
            || not (metric_parameter r.parameters == lit "success_latency_avg")
          then s
          else let s' =
              if r.resource_ref == lit "incidentpilot-demo/frontend"
                && prometheus_range_has_sample_at_least floats r.payload
                    (Floats.three_quarters floats)
              then record s { frontend_metric_id = r.id }
              else s in
            if r.resource_ref == lit "incidentpilot-demo/orders-api"
              && prometheus_range_has_sample_at_least floats r.payload (Floats.nine_tenths floats)
            then record s' { orders_metric_id = r.id }
            else s')
      else if r.tool == lit "tempo_get_trace"
      then (if r.source == lit "tempo" && trace_shows_slow_successful_checkout r.payload
          then record s { trace_id = r.id }
          else s)
      else s

  conclude : Slots → Option RootCause
  conclude s =
      if s.deployment_id == []
        || s.frontend_metric_id == []
        || s.orders_metric_id == []
        || s.trace_id == []
      then none
      else some (record {
        conclusion =
            lit
              "orders-api was configured with DEMO_ORDER_CPU_BURN_MS=1000, producing at least 900 ms orders spans and elevated successful request latency while checkout still returned HTTP 200";
        component = lit "orders-api";
        cause = cause_excessive_cpu;
        evidence_ids =
            s.deployment_id ∷ s.frontend_metric_id ∷ s.orders_metric_id ∷ s.trace_id ∷ [];
      })

  abbrev start : Slots
  start = record {
    deployment_id = [];
    frontend_metric_id = [];
    orders_metric_id = [];
    trace_id = [];
  }

  unfoldable pub verify_excessive_cpu : List Record → List Bytes → Option RootCause
  unfolding step conclude scan
  verify_excessive_cpu records cited = conclude (scan (step cited) start records)

  sets_deployment_id :
      (cited : List Bytes) (s : Slots) (r : Record)
      → (step cited s r).deployment_id
        ≡ (if is_cited cited r.id && burns_cpu r then r.id else s.deployment_id)
  unfolding step burns_cpu
  sets_deployment_id cited s r = ground (
    arith,
    never_both r.tool _ _ deployment_not_metric,
    never_both r.tool _ _ deployment_not_trace,
    never_both r.tool _ _ metric_not_trace,
  )

  sets_frontend_metric_id :
      (cited : List Bytes) (s : Slots) (r : Record)
      → (step cited s r).frontend_metric_id
        ≡ (if is_cited cited r.id && frontend_slow r then r.id else s.frontend_metric_id)
  unfolding step frontend_slow
  sets_frontend_metric_id cited s r = ground (
    arith,
    never_both r.tool _ _ deployment_not_metric,
    never_both r.tool _ _ deployment_not_trace,
    never_both r.tool _ _ metric_not_trace,
  )

  sets_orders_metric_id :
      (cited : List Bytes) (s : Slots) (r : Record)
      → (step cited s r).orders_metric_id
        ≡ (if is_cited cited r.id && orders_slow r then r.id else s.orders_metric_id)
  unfolding step orders_slow
  sets_orders_metric_id cited s r = ground (
    arith,
    never_both r.tool _ _ deployment_not_metric,
    never_both r.tool _ _ deployment_not_trace,
    never_both r.tool _ _ metric_not_trace,
  )

  sets_trace_id :
      (cited : List Bytes) (s : Slots) (r : Record)
      → (step cited s r).trace_id
        ≡ (if is_cited cited r.id && trace_slow r then r.id else s.trace_id)
  unfolding step trace_slow
  sets_trace_id cited s r = ground (
    arith,
    never_both r.tool _ _ deployment_not_metric,
    never_both r.tool _ _ deployment_not_trace,
    never_both r.tool _ _ metric_not_trace,
  )

  -- what a conclusion rests on
  conclude_lem :
      (s : Slots) {rc : RootCause}
      → conclude s ≡ some rc
      → ((s.deployment_id == []) ≡ false)
        × ((s.frontend_metric_id == []) ≡ false)
        × ((s.orders_metric_id == []) ≡ false)
        × ((s.trace_id == []) ≡ false)
        × (rc.component ≡ lit "orders-api")
        × (rc.cause ≡ cause_excessive_cpu)
        × (rc.evidence_ids
            ≡ s.deployment_id ∷ s.frontend_metric_id ∷ s.orders_metric_id ∷ s.trace_id ∷ [])
  unfolding conclude
  conclude_lem s h = ground arith

  -- `verifyExcessiveCPU` concludes only from four cited records of the collection: an orders-api Deployment
  -- that burns CPU, frontend and orders-api success latencies above their thresholds, and a trace of a
  -- slow successful checkout. It names the CPU cause and cites those four, in this order.
  pub verify_excessive_cpu_sound :
      (records : List Record) (cited : List Bytes) {rc : RootCause}
      → verify_excessive_cpu records cited ≡ some rc
      → (rc.component ≡ lit "orders-api")
        × (rc.cause ≡ cause_excessive_cpu)
        × ((deployment_id frontend_metric_id orders_metric_id trace_id : Bytes) × (rc.evidence_ids
              ≡ deployment_id ∷ frontend_metric_id ∷ orders_metric_id ∷ trace_id ∷ [])
            × Cites records cited burns_cpu id_of deployment_id
            × Cites records cited frontend_slow id_of frontend_metric_id
            × Cites records cited orders_slow id_of orders_metric_id
            × Cites records cited trace_slow id_of trace_id)
  unfolding verify_excessive_cpu
  verify_excessive_cpu_sound records cited h =
      let s = scan (step cited) start records in
      let (
        h_deployment_id, h_frontend_metric_id, h_orders_metric_id, h_trace_id, component, cause,
        ids,
      ) =
        conclude_lem s h in
      (
        component,
        cause,
        (
          s.deployment_id,
          s.frontend_metric_id,
          s.orders_metric_id,
          s.trace_id,
          ids,
          slot-Cites cited (step cited) (λ s. s.deployment_id) burns_cpu id_of
              (sets_deployment_id cited) (λ v. v) start records refl h_deployment_id,
          slot-Cites cited (step cited) (λ s. s.frontend_metric_id) frontend_slow id_of
              (sets_frontend_metric_id cited) (λ v. v) start records refl h_frontend_metric_id,
          slot-Cites cited (step cited) (λ s. s.orders_metric_id) orders_slow id_of
              (sets_orders_metric_id cited) (λ v. v) start records refl h_orders_metric_id,
          slot-Cites cited (step cited) (λ s. s.trace_id) trace_slow id_of (sets_trace_id cited)
              (λ v. v) start records refl h_trace_id,
        ),
      )

  -- `verifyExcessiveCPU` misses nothing: where every record has an ID, four cited records that show the
  -- four facts are enough for a root cause.
  pub verify_excessive_cpu_complete :
      (records : List Record) (cited : List Bytes)
      → Named records
      → (deployment_id : Bytes) → Cites records cited burns_cpu id_of deployment_id
      → (frontend_metric_id : Bytes) → Cites records cited frontend_slow id_of frontend_metric_id
      → (orders_metric_id : Bytes) → Cites records cited orders_slow id_of orders_metric_id
      → (trace_id : Bytes) → Cites records cited trace_slow id_of trace_id
      → verify_excessive_cpu records cited ≢ none
  unfolding verify_excessive_cpu conclude
  verify_excessive_cpu_complete records cited named deployment_id c_deployment_id frontend_metric_id
        c_frontend_metric_id orders_metric_id c_orders_metric_id trace_id c_trace_id =
      let f_deployment_id =
        slot_filled cited (step cited) (λ s. s.deployment_id) burns_cpu id_of
          (sets_deployment_id cited) (λ v. v) start records deployment_id named c_deployment_id in
      let f_frontend_metric_id =
        slot_filled cited (step cited) (λ s. s.frontend_metric_id) frontend_slow id_of
          (sets_frontend_metric_id cited) (λ v. v) start records frontend_metric_id named
          c_frontend_metric_id in
      let f_orders_metric_id =
        slot_filled cited (step cited) (λ s. s.orders_metric_id) orders_slow id_of
          (sets_orders_metric_id cited) (λ v. v) start records orders_metric_id named
          c_orders_metric_id in
      let f_trace_id =
        slot_filled cited (step cited) (λ s. s.trace_id) trace_slow id_of (sets_trace_id cited)
          (λ v. v) start records trace_id named c_trace_id in
      ground (arith, f_deployment_id, f_frontend_metric_id, f_orders_metric_id, f_trace_id)
