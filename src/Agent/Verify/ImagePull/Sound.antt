-- ===== src/Agent/Verify/ImagePull/Sound.antt =====
-- What a root cause of `verifyImagePull` rests on.
use incident_pilot.Common.{◌≡◌, refl, true, false, ◌&&◌, some, List, [], ◌∷◌, arith, if◌then◌else◌}
use incident_pilot.Common.Scan.{scan}
use incident_pilot.Text.{Bytes, lit, ◌==◌, ==_iff}
use incident_pilot.Text.Regex.{matches}
use incident_pilot.Json.{RawMessage}
use incident_pilot.Evidence.{Record}
use incident_pilot.Agent.Types.{RootCause, cause_unpullable_image}
use incident_pilot.Agent.Patterns.{image_reference_pattern}
use incident_pilot.Agent.Payloads.{ImagePullPod, DeploymentImage, events_show_failed_pull}
use incident_pilot.Agent.Verify.Cited.{is_cited, Cites, never_both, slot-Cites}
use incident_pilot.Agent.Verify.ImagePull.{
  Slots, step, start, conclude, verify_image_pull, pod_waits, names_image, lists_events, pod_of,
  image_of, events_of,
}

pods_not_deployment : (lit "kubernetes_get_pods" == lit "kubernetes_get_deployment") ≡ false
unfolding lit ◌==◌
pods_not_deployment = refl

pods_not_events : (lit "kubernetes_get_pods" == lit "kubernetes_get_events") ≡ false
unfolding lit ◌==◌
pods_not_events = refl

deployment_not_events : (lit "kubernetes_get_deployment" == lit "kubernetes_get_events") ≡ false
unfolding lit ◌==◌
deployment_not_events = refl

module _ (cited : List Bytes) (s : Slots) (r : Record) where
  sets_pod : (step cited s r).pod ≡ (if is_cited cited r.id && pod_waits r then pod_of r else s.pod)
  unfolding step pod_waits
  sets_pod = ground arith

  sets_deployment :
      (step cited s r).deployment
      ≡ (if is_cited cited r.id && names_image r then image_of r else s.deployment)
  unfolding step names_image
  sets_deployment = ground (arith, never_both r.tool _ _ pods_not_deployment)

  sets_event :
      (step cited s r).event
      ≡ (if is_cited cited r.id && lists_events r then events_of r else s.event)
  unfolding step lists_events
  sets_event =
      ground
        (arith, never_both r.tool _ _ pods_not_events, never_both r.tool _ _ deployment_not_events)

-- the pod and the Deployment agree on an image, which is always pulled and whose pull failed
pub record Agrees (pod : ImagePullPod) (deployment : DeploymentImage) (events : RawMessage)
    : Type 0 where
  pub same_image : pod.image ≡ deployment.image
  pub always : deployment.pull_policy ≡ lit "Always"
  pub well_formed : matches image_reference_pattern deployment.image ≡ true
  pub failed : events_show_failed_pull events pod.name deployment.image ≡ true

conclude_ids :
    (s : Slots) {rc : RootCause}
    → conclude s ≡ some rc
    → ((s.pod.0 == []) ≡ false)
      × ((s.deployment.0 == []) ≡ false)
      × ((s.event.0 == []) ≡ false)
      × (rc.component ≡ lit "orders-api")
      × (rc.cause ≡ cause_unpullable_image)
      × (rc.evidence_ids ≡ s.pod.0 ∷ s.deployment.0 ∷ s.event.0 ∷ [])
unfolding conclude
conclude_ids s h = ground arith

conclude-Agrees :
    (s : Slots) {rc : RootCause} → conclude s ≡ some rc → Agrees s.pod.1 s.deployment.1 s.event.1
unfolding conclude
conclude-Agrees s h = ground (
  arith,
  ==_iff s.pod.1.image s.deployment.1.image,
  ==_iff s.deployment.1.pull_policy (lit "Always"),
)

-- `verifyImagePull` concludes only from three cited records of orders-api in the collection: a pod
-- list with a waiting pod, a Deployment, and events. The pod and the Deployment name the same
-- well-formed image, which is always pulled, and an event tells that the pull failed for that pod. It
-- names the image cause and cites those three, in this order.
pub verify_image_pull_sound :
    (records : List Record) (cited : List Bytes) {rc : RootCause}
    → verify_image_pull records cited ≡ some rc
    → (rc.component ≡ lit "orders-api")
      × (rc.cause ≡ cause_unpullable_image)
      × ((pod : Bytes × ImagePullPod) × (deployment : Bytes × DeploymentImage) × (event : Bytes
            × RawMessage)
          × (rc.evidence_ids ≡ pod.0 ∷ deployment.0 ∷ event.0 ∷ [])
          × Cites records cited pod_waits pod_of pod
          × Cites records cited names_image image_of deployment
          × Cites records cited lists_events events_of event
          × Agrees pod.1 deployment.1 event.1)
unfolding verify_image_pull
verify_image_pull_sound records cited h =
    let s = scan (step cited) start records in
    let (p, d, e, component, cause, ids) = conclude_ids s h in
    (
      component,
      cause,
      (
        s.pod,
        s.deployment,
        s.event,
        ids,
        slot-Cites cited (step cited) (λ s. s.pod) pod_waits pod_of (sets_pod cited) (λ v. v.0)
            start records refl p,
        slot-Cites cited (step cited) (λ s. s.deployment) names_image image_of
            (sets_deployment cited) (λ v. v.0) start records refl d,
        slot-Cites cited (step cited) (λ s. s.event) lists_events events_of (sets_event cited)
            (λ v. v.0) start records refl e,
        conclude-Agrees s h,
      ),
    )
