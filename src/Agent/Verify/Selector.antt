-- ===== src/Agent/Verify/Selector.antt =====
-- `verifyBrokenServiceSelector` of internal/agent/verify.go.
use incident_pilot.Common.{
  ◌≡◌, ◌≢◌, refl, Bool, false, not, ◌&&◌, ◌||◌, Option, none, some, List, [], ◌∷◌, arith,
  if◌then◌else◌,
}
use incident_pilot.Common.Scan.{scan}
use incident_pilot.Text.{Bytes, lit, ◌==◌}
use incident_pilot.Evidence.{Record}
use incident_pilot.Agent.Types.{RootCause, cause_broken_selector}
use incident_pilot.Agent.Payloads.{
  Floats, payments_service_selector, payment_endpoint_slices_are_empty, payments_pod_is_ready,
  prometheus_range_has_positive_sample,
}
use incident_pilot.Agent.Verify.Cited.{
  is_cited, Cites, Named, id_of, never_both, slot-Cites, slot_filled,
}

pub record Slots : Type 0 where
  pub service_id : Bytes
  pub endpoint_id : Bytes
  pub pod_id : Bytes
  pub metric_id : Bytes

service_not_slices : (lit "kubernetes_get_service" == lit "kubernetes_get_endpointslices") ≡ false
unfolding lit ◌==◌
service_not_slices = refl

service_not_pods : (lit "kubernetes_get_service" == lit "kubernetes_get_pods") ≡ false
unfolding lit ◌==◌
service_not_pods = refl

service_not_metric :
    (lit "kubernetes_get_service" == lit "prometheus_get_demo_metric_range") ≡ false
unfolding lit ◌==◌
service_not_metric = refl

slices_not_pods : (lit "kubernetes_get_endpointslices" == lit "kubernetes_get_pods") ≡ false
unfolding lit ◌==◌
slices_not_pods = refl

slices_not_metric :
    (lit "kubernetes_get_endpointslices" == lit "prometheus_get_demo_metric_range") ≡ false
unfolding lit ◌==◌
slices_not_metric = refl

pods_not_metric : (lit "kubernetes_get_pods" == lit "prometheus_get_demo_metric_range") ≡ false
unfolding lit ◌==◌
pods_not_metric = refl

-- a Service of payments-api whose selector is the disconnected one
unfoldable pub service_disconnected : Record → Bool
service_disconnected r =
    r.tool == lit "kubernetes_get_service"
    && r.source == lit "kubernetes/service"
    && r.resource_ref == lit "incidentpilot-demo/payments-api"
    && payments_service_selector r.payload == lit "payments-api-disconnected"

-- EndpointSlices of payments-api, at least one, without an address
unfoldable pub endpoints_empty : Record → Bool
endpoints_empty r =
    r.tool == lit "kubernetes_get_endpointslices"
    && r.source == lit "kubernetes/endpointslices"
    && r.resource_ref == lit "incidentpilot-demo/payments-api"
    && payment_endpoint_slices_are_empty r.payload

-- a ready payments-api pod
unfoldable pub pod_ready : Record → Bool
pod_ready r =
    r.tool == lit "kubernetes_get_pods"
    && r.source == lit "kubernetes/pods"
    && r.resource_ref == lit "incidentpilot-demo/payments-api"
    && payments_pod_is_ready r.payload

module _ (floats : Floats) where
  -- a frontend metric with a positive sample, whatever the metric
  unfoldable pub frontend_sample : Record → Bool
  frontend_sample r =
      r.tool == lit "prometheus_get_demo_metric_range"
      && r.source == lit "prometheus/range"
      && r.resource_ref == lit "incidentpilot-demo/frontend"
      && prometheus_range_has_positive_sample floats r.payload

  pub step : List Bytes → Slots → Record → Slots
  step cited s r =
      if not (is_cited cited r.id)
      then s
      else if r.tool == lit "kubernetes_get_service"
      then (if r.source == lit "kubernetes/service"
            && r.resource_ref == lit "incidentpilot-demo/payments-api"
            && payments_service_selector r.payload == lit "payments-api-disconnected"
          then record s { service_id = r.id }
          else s)
      else if r.tool == lit "kubernetes_get_endpointslices"
      then (if r.source == lit "kubernetes/endpointslices"
            && r.resource_ref == lit "incidentpilot-demo/payments-api"
            && payment_endpoint_slices_are_empty r.payload
          then record s { endpoint_id = r.id }
          else s)
      else if r.tool == lit "kubernetes_get_pods"
      then (if r.source == lit "kubernetes/pods"
            && r.resource_ref == lit "incidentpilot-demo/payments-api"
            && payments_pod_is_ready r.payload
          then record s { pod_id = r.id }
          else s)
      else if r.tool == lit "prometheus_get_demo_metric_range"
      then (if r.source == lit "prometheus/range"
            && r.resource_ref == lit "incidentpilot-demo/frontend"
            && prometheus_range_has_positive_sample floats r.payload
          then record s { metric_id = r.id }
          else s)
      else s

  conclude : Slots → Option RootCause
  conclude s =
      if s.service_id == [] || s.endpoint_id == [] || s.pod_id == [] || s.metric_id == []
      then none
      else some (record {
        conclusion =
            lit
              "payments-api Service selector app=payments-api-disconnected matched no endpoint addresses while payments-api pods remained ready, causing frontend upstream errors";
        component = lit "payments-api";
        cause = cause_broken_selector;
        evidence_ids = s.service_id ∷ s.endpoint_id ∷ s.pod_id ∷ s.metric_id ∷ [];
      })

  abbrev start : Slots
  start = record { service_id = []; endpoint_id = []; pod_id = []; metric_id = [] }

  unfoldable pub verify_broken_service_selector : List Record → List Bytes → Option RootCause
  unfolding step conclude scan
  verify_broken_service_selector records cited = conclude (scan (step cited) start records)

  sets_service_id :
      (cited : List Bytes) (s : Slots) (r : Record)
      → (step cited s r).service_id
        ≡ (if is_cited cited r.id && service_disconnected r then r.id else s.service_id)
  unfolding step service_disconnected
  sets_service_id cited s r = ground (
    arith,
    never_both r.tool _ _ service_not_slices,
    never_both r.tool _ _ service_not_pods,
    never_both r.tool _ _ service_not_metric,
    never_both r.tool _ _ slices_not_pods,
    never_both r.tool _ _ slices_not_metric,
    never_both r.tool _ _ pods_not_metric,
  )

  sets_endpoint_id :
      (cited : List Bytes) (s : Slots) (r : Record)
      → (step cited s r).endpoint_id
        ≡ (if is_cited cited r.id && endpoints_empty r then r.id else s.endpoint_id)
  unfolding step endpoints_empty
  sets_endpoint_id cited s r = ground (
    arith,
    never_both r.tool _ _ service_not_slices,
    never_both r.tool _ _ service_not_pods,
    never_both r.tool _ _ service_not_metric,
    never_both r.tool _ _ slices_not_pods,
    never_both r.tool _ _ slices_not_metric,
    never_both r.tool _ _ pods_not_metric,
  )

  sets_pod_id :
      (cited : List Bytes) (s : Slots) (r : Record)
      → (step cited s r).pod_id ≡ (if is_cited cited r.id && pod_ready r then r.id else s.pod_id)
  unfolding step pod_ready
  sets_pod_id cited s r = ground (
    arith,
    never_both r.tool _ _ service_not_slices,
    never_both r.tool _ _ service_not_pods,
    never_both r.tool _ _ service_not_metric,
    never_both r.tool _ _ slices_not_pods,
    never_both r.tool _ _ slices_not_metric,
    never_both r.tool _ _ pods_not_metric,
  )

  sets_metric_id :
      (cited : List Bytes) (s : Slots) (r : Record)
      → (step cited s r).metric_id
        ≡ (if is_cited cited r.id && frontend_sample r then r.id else s.metric_id)
  unfolding step frontend_sample
  sets_metric_id cited s r = ground (
    arith,
    never_both r.tool _ _ service_not_slices,
    never_both r.tool _ _ service_not_pods,
    never_both r.tool _ _ service_not_metric,
    never_both r.tool _ _ slices_not_pods,
    never_both r.tool _ _ slices_not_metric,
    never_both r.tool _ _ pods_not_metric,
  )

  -- what a conclusion rests on
  conclude_lem :
      (s : Slots) {rc : RootCause}
      → conclude s ≡ some rc
      → ((s.service_id == []) ≡ false)
        × ((s.endpoint_id == []) ≡ false)
        × ((s.pod_id == []) ≡ false)
        × ((s.metric_id == []) ≡ false)
        × (rc.component ≡ lit "payments-api")
        × (rc.cause ≡ cause_broken_selector)
        × (rc.evidence_ids ≡ s.service_id ∷ s.endpoint_id ∷ s.pod_id ∷ s.metric_id ∷ [])
  unfolding conclude
  conclude_lem s h = ground arith

  -- `verifyBrokenServiceSelector` concludes only from four cited records of the collection: a Service with
  -- the disconnected selector, EndpointSlices without an address, a ready payments pod, and a frontend
  -- metric range with a positive sample. It names the selector cause and cites those four, in this order.
  pub verify_broken_service_selector_sound :
      (records : List Record) (cited : List Bytes) {rc : RootCause}
      → verify_broken_service_selector records cited ≡ some rc
      → (rc.component ≡ lit "payments-api")
        × (rc.cause ≡ cause_broken_selector)
        × ((service_id endpoint_id pod_id metric_id : Bytes) × (rc.evidence_ids
              ≡ service_id ∷ endpoint_id ∷ pod_id ∷ metric_id ∷ [])
            × Cites records cited service_disconnected id_of service_id
            × Cites records cited endpoints_empty id_of endpoint_id
            × Cites records cited pod_ready id_of pod_id
            × Cites records cited frontend_sample id_of metric_id)
  unfolding verify_broken_service_selector
  verify_broken_service_selector_sound records cited h =
      let s = scan (step cited) start records in
      let (h_service_id, h_endpoint_id, h_pod_id, h_metric_id, component, cause, ids) =
        conclude_lem s h in
      (
        component,
        cause,
        (
          s.service_id,
          s.endpoint_id,
          s.pod_id,
          s.metric_id,
          ids,
          slot-Cites cited (step cited) (λ s. s.service_id) service_disconnected id_of
              (sets_service_id cited) (λ v. v) start records refl h_service_id,
          slot-Cites cited (step cited) (λ s. s.endpoint_id) endpoints_empty id_of
              (sets_endpoint_id cited) (λ v. v) start records refl h_endpoint_id,
          slot-Cites cited (step cited) (λ s. s.pod_id) pod_ready id_of (sets_pod_id cited) (λ v. v)
              start records refl h_pod_id,
          slot-Cites cited (step cited) (λ s. s.metric_id) frontend_sample id_of
              (sets_metric_id cited) (λ v. v) start records refl h_metric_id,
        ),
      )

  -- `verifyBrokenServiceSelector` misses nothing: where every record has an ID, four cited records that
  -- show the four facts are enough for a root cause.
  pub verify_broken_service_selector_complete :
      (records : List Record) (cited : List Bytes)
      → Named records
      → (service_id : Bytes) → Cites records cited service_disconnected id_of service_id
      → (endpoint_id : Bytes) → Cites records cited endpoints_empty id_of endpoint_id
      → (pod_id : Bytes) → Cites records cited pod_ready id_of pod_id
      → (metric_id : Bytes) → Cites records cited frontend_sample id_of metric_id
      → verify_broken_service_selector records cited ≢ none
  unfolding verify_broken_service_selector conclude
  verify_broken_service_selector_complete records cited named service_id c_service_id endpoint_id
        c_endpoint_id pod_id c_pod_id metric_id c_metric_id =
      let f_service_id =
        slot_filled cited (step cited) (λ s. s.service_id) service_disconnected id_of
          (sets_service_id cited) (λ v. v) start records service_id named c_service_id in
      let f_endpoint_id =
        slot_filled cited (step cited) (λ s. s.endpoint_id) endpoints_empty id_of
          (sets_endpoint_id cited) (λ v. v) start records endpoint_id named c_endpoint_id in
      let f_pod_id =
        slot_filled cited (step cited) (λ s. s.pod_id) pod_ready id_of (sets_pod_id cited) (λ v. v)
          start records pod_id named c_pod_id in
      let f_metric_id =
        slot_filled cited (step cited) (λ s. s.metric_id) frontend_sample id_of
          (sets_metric_id cited) (λ v. v) start records metric_id named c_metric_id in
      ground (arith, f_service_id, f_endpoint_id, f_pod_id, f_metric_id)
