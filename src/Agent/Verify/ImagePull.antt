-- ===== src/Agent/Verify/ImagePull.antt =====
-- `verifyImagePull` of internal/agent/verify.go.
pub mod Sound
use incident_pilot.Common.{
  ◌≡◌, refl, Bool, true, false, not, ◌&&◌, ◌||◌, Option, none, some, List, [], ◌∷◌, ◌++◌, arith,
  if◌then◌else◌,
}
use incident_pilot.Common.Scan.{scan}
use incident_pilot.Text.{Bytes, lit, ◌==◌}
use incident_pilot.Text.Regex.{matches}
use incident_pilot.Json.{RawMessage}
use incident_pilot.Evidence.{Record}
use incident_pilot.Agent.Types.{RootCause, cause_unpullable_image}
use incident_pilot.Agent.Patterns.{image_reference_pattern}
use incident_pilot.Agent.Payloads.{
  ImagePullPod, DeploymentImage, pod_waiting_for_image, orders_deployment_image,
  events_show_failed_pull,
}
use incident_pilot.Agent.Verify.Cited.{is_cited, Cites, never_both, slot-Cites}

pub record Slots : Type 0 where
  pub pod : Bytes × ImagePullPod
  pub deployment : Bytes × DeploymentImage
  pub event : Bytes × RawMessage

-- `*pod` and `*deployment` of a result that is not nil; the zero value stands for nil
abbrev pub pod_or_zero : Option ImagePullPod → ImagePullPod
pod_or_zero none = record { name = []; image = []; reason = [] }
pod_or_zero (some pod) = pod

abbrev pub image_or_zero : Option DeploymentImage → DeploymentImage
image_or_zero none = record { image = []; pull_policy = [] }
image_or_zero (some deployment) = deployment

abbrev pub is_some {ℓ} : {A : Type ℓ} → Option A → Bool
is_some none = false
is_some (some a) = true

pub step : List Bytes → Slots → Record → Slots
step cited s r =
    if not (is_cited cited r.id) || not (r.resource_ref == lit "incidentpilot-demo/orders-api")
    then s
    else if r.tool == lit "kubernetes_get_pods"
    then (let pod = pod_waiting_for_image r.payload in
        if r.source == lit "kubernetes/pods" && is_some pod
        then record s { pod = (r.id, pod_or_zero pod) }
        else s)
    else if r.tool == lit "kubernetes_get_deployment"
    then (let deployment = orders_deployment_image r.payload in
        if r.source == lit "kubernetes/deployment" && is_some deployment
        then record s { deployment = (r.id, image_or_zero deployment) }
        else s)
    else if r.tool == lit "kubernetes_get_events"
    then (if r.source == lit "kubernetes/events" then record s { event = (r.id, r.payload) } else s)
    else s

conclude : Slots → Option RootCause
conclude s =
    let failed = s.pod.1 in
    let configured = s.deployment.1 in
    if s.pod.0 == []
      || s.deployment.0 == []
      || s.event.0 == []
      || not (failed.image == configured.image)
      || not (configured.pull_policy == lit "Always")
      || not (matches image_reference_pattern configured.image)
      || not (events_show_failed_pull s.event.1 failed.name configured.image)
    then none
    else some (record {
      conclusion =
          lit "orders-api Deployment references image "
          ++ (configured.image
              ++ (lit " with pull policy Always; its new pod entered "
                  ++ (failed.reason ++ lit " after Kubernetes failed to pull that image")));
      component = lit "orders-api";
      cause = cause_unpullable_image;
      evidence_ids = s.pod.0 ∷ s.deployment.0 ∷ s.event.0 ∷ [];
    })

abbrev start : Slots
start = record {
  pod = ([], pod_or_zero none);
  deployment = ([], image_or_zero none);
  event = ([], none);
}

unfoldable pub verify_image_pull : List Record → List Bytes → Option RootCause
unfolding step conclude scan
verify_image_pull records cited = conclude (scan (step cited) start records)

-- a pod list of orders-api with a pod that waits for its image
unfoldable pub pod_waits : Record → Bool
pod_waits r =
    r.resource_ref == lit "incidentpilot-demo/orders-api"
    && r.tool == lit "kubernetes_get_pods"
    && r.source == lit "kubernetes/pods"
    && is_some (pod_waiting_for_image r.payload)

-- a Deployment of orders-api with a well-formed image
unfoldable pub names_image : Record → Bool
names_image r =
    r.resource_ref == lit "incidentpilot-demo/orders-api"
    && r.tool == lit "kubernetes_get_deployment"
    && r.source == lit "kubernetes/deployment"
    && is_some (orders_deployment_image r.payload)

-- the events of orders-api
unfoldable pub lists_events : Record → Bool
lists_events r =
    r.resource_ref == lit "incidentpilot-demo/orders-api"
    && r.tool == lit "kubernetes_get_events"
    && r.source == lit "kubernetes/events"

abbrev pub pod_of : Record → Bytes × ImagePullPod
pod_of r = (r.id, pod_or_zero (pod_waiting_for_image r.payload))

abbrev pub image_of : Record → Bytes × DeploymentImage
image_of r = (r.id, image_or_zero (orders_deployment_image r.payload))

abbrev pub events_of : Record → Bytes × RawMessage
events_of r = (r.id, r.payload)
