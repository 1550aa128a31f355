-- ===== src/Agent/Verify/OrderConfig.antt =====
-- `verifyInvalidOrderConfig` of internal/agent/verify.go.
pub mod Sound
use incident_pilot.Common.{
  ◌≡◌, refl, Bool, true, false, not, ◌&&◌, ◌||◌, Option, none, some, List, [], ◌∷◌, ◌++◌, arith,
  if◌then◌else◌,
}
use incident_pilot.Common.Scan.{scan}
use incident_pilot.Text.{Bytes, lit, ◌==◌}
use incident_pilot.Evidence.{Record}
use incident_pilot.Agent.Types.{RootCause, cause_invalid_order_mode}
use incident_pilot.Agent.Payloads.{
  orders_config_is_unsupported, deployment_references_orders_config, orders_crash_loop_pod,
  logs_show_invalid_order_mode,
}
use incident_pilot.Agent.Verify.Cited.{is_cited}

pub record Slots : Type 0 where
  pub config_id : Bytes
  pub deployment_id : Bytes
  -- the record, and the pod that failed
  pub pod : Bytes × Bytes

pub step : List Bytes → Slots → Record → Slots
step cited s r =
    if not (is_cited cited r.id)
    then s
    else if r.tool == lit "kubernetes_get_orders_config"
    then (if r.source == lit "kubernetes/configmap"
          && r.resource_ref == lit "incidentpilot-demo/configmap/orders-config"
          && orders_config_is_unsupported r.payload
        then record s { config_id = r.id }
        else s)
    else if r.tool == lit "kubernetes_get_deployment"
    then (if r.source == lit "kubernetes/deployment"
          && r.resource_ref == lit "incidentpilot-demo/orders-api"
          && deployment_references_orders_config r.payload
        then record s { deployment_id = r.id }
        else s)
    else if r.tool == lit "kubernetes_get_pods"
    then (if r.source == lit "kubernetes/pods"
          && r.resource_ref == lit "incidentpilot-demo/orders-api"
          && not (orders_crash_loop_pod r.payload == [])
        then record s { pod = (r.id, orders_crash_loop_pod r.payload) }
        else s)
    else s

-- the log of the failed pod
unfoldable pub logs_of : Bytes → Record → Bool
logs_of pod r =
    r.tool == lit "kubernetes_get_pod_logs"
    && r.source == lit "kubernetes/pod_logs"
    && r.resource_ref == lit "incidentpilot-demo/" ++ pod
    && logs_show_invalid_order_mode r.payload

-- the second loop, which ends at the first log that fits
pub first_log : List Bytes → Bytes → List Record → Bytes
unfolding logs_of
first_log cited pod [] = []
first_log cited pod (r ∷ records) =
    if is_cited cited r.id && logs_of pod r then r.id else first_log cited pod records

pub find_log : List Bytes → Slots → List Record → Bytes
unfolding first_log
find_log cited s records = if s.pod.1 == [] then [] else first_log cited s.pod.1 records

conclude : Slots → Bytes → Option RootCause
conclude s log_id =
    if s.config_id == [] || s.deployment_id == [] || s.pod.0 == [] || log_id == []
    then none
    else some (record {
      conclusion =
          lit
            "orders-api consumed orders-config key order_mode=unsupported through DEMO_ORDER_MODE; pod "
          ++ (s.pod.1 ++ lit " entered CrashLoopBackOff and logged an invalid order mode");
      component = lit "orders-api";
      cause = cause_invalid_order_mode;
      evidence_ids = s.config_id ∷ s.deployment_id ∷ s.pod.0 ∷ log_id ∷ [];
    })

abbrev start : Slots
start = record { config_id = []; deployment_id = []; pod = ([], []) }

unfoldable pub verify_invalid_order_config : List Record → List Bytes → Option RootCause
unfolding step find_log conclude scan
verify_invalid_order_config records cited =
    let s = scan (step cited) start records in conclude s (find_log cited s records)

-- the orders-config map with the unsupported order mode
unfoldable pub config_unsupported : Record → Bool
config_unsupported r =
    r.tool == lit "kubernetes_get_orders_config"
    && r.source == lit "kubernetes/configmap"
    && r.resource_ref == lit "incidentpilot-demo/configmap/orders-config"
    && orders_config_is_unsupported r.payload

-- a Deployment of orders-api that takes its mode from that map
unfoldable pub consumes_config : Record → Bool
consumes_config r =
    r.tool == lit "kubernetes_get_deployment"
    && r.source == lit "kubernetes/deployment"
    && r.resource_ref == lit "incidentpilot-demo/orders-api"
    && deployment_references_orders_config r.payload

-- a pod list of orders-api with a pod that crashes again and again
unfoldable pub pod_crashes : Record → Bool
pod_crashes r =
    r.tool == lit "kubernetes_get_pods"
    && r.source == lit "kubernetes/pods"
    && r.resource_ref == lit "incidentpilot-demo/orders-api"
    && not (orders_crash_loop_pod r.payload == [])

abbrev pub crash_of : Record → Bytes × Bytes
crash_of r = (r.id, orders_crash_loop_pod r.payload)
