-- ===== src/Agent/Verify/Oom.antt =====
-- `verifyOOM` of internal/agent/verify.go.
use incident_pilot.Common.{
  ◌≡◌, ◌≢◌, refl, Bool, false, not, ◌&&◌, ◌||◌, Option, none, some, List, [], ◌∷◌, ◌++◌, arith,
  if◌then◌else◌,
}
use incident_pilot.Common.Scan.{scan}
use incident_pilot.Text.{Bytes, lit, ◌==◌}
use incident_pilot.Text.Regex.{matches}
use incident_pilot.Evidence.{Record}
use incident_pilot.Agent.Types.{RootCause, cause_memory_limit_oom}
use incident_pilot.Agent.Patterns.{memory_limit_pattern}
use incident_pilot.Agent.Payloads.{pods_show_oom, deployment_memory_limit}
use incident_pilot.Agent.Verify.Cited.{
  is_cited, Cites, Named, id_of, never_both, slot-Cites, slot_filled,
}

pub record Slots : Type 0 where
  pub pod_id : Bytes
  pub deployment : Bytes × Bytes

pub step : List Bytes → Slots → Record → Slots
step cited s r =
    if not (is_cited cited r.id) || not (r.resource_ref == lit "incidentpilot-demo/payments-api")
    then s
    else if r.tool == lit "kubernetes_get_pods"
    then (if r.source == lit "kubernetes/pods" && pods_show_oom r.payload
        then record s { pod_id = r.id }
        else s)
    else if r.tool == lit "kubernetes_get_deployment"
    then (let limit = deployment_memory_limit r.payload in
        if r.source == lit "kubernetes/deployment" && matches memory_limit_pattern limit
        then record s { deployment = (r.id, limit) }
        else s)
    else s

conclude : Slots → Option RootCause
conclude s =
    if s.pod_id == [] || s.deployment.0 == []
    then none
    else some (record {
      conclusion =
          lit "payments-api was OOMKilled while its Deployment memory limit was "
          ++ (s.deployment.1 ++ lit "; the limit did not sustain the workload");
      component = lit "payments-api";
      cause = cause_memory_limit_oom;
      evidence_ids = s.pod_id ∷ s.deployment.0 ∷ [];
    })

unfoldable pub verify_oom : List Record → List Bytes → Option RootCause
unfolding step conclude scan
verify_oom records cited =
    conclude (scan (step cited) (record { pod_id = []; deployment = ([], []) }) records)

-- the records that show the two facts
unfoldable pub pod_shows_oom : Record → Bool
pod_shows_oom r =
    r.resource_ref == lit "incidentpilot-demo/payments-api"
    && r.tool == lit "kubernetes_get_pods"
    && r.source == lit "kubernetes/pods"
    && pods_show_oom r.payload

unfoldable pub shows_limit : Record → Bool
shows_limit r =
    r.resource_ref == lit "incidentpilot-demo/payments-api"
    && r.tool == lit "kubernetes_get_deployment"
    && r.source == lit "kubernetes/deployment"
    && matches memory_limit_pattern (deployment_memory_limit r.payload)

-- the Deployment and its limit
abbrev pub limit_of : Record → Bytes × Bytes
limit_of r = (r.id, deployment_memory_limit r.payload)

pods_not_deployment : (lit "kubernetes_get_pods" == lit "kubernetes_get_deployment") ≡ false
unfolding lit ◌==◌
pods_not_deployment = refl

sets_pod :
    (cited : List Bytes) (s : Slots) (r : Record)
    → (step cited s r).pod_id ≡ (if is_cited cited r.id && pod_shows_oom r then r.id else s.pod_id)
unfolding step pod_shows_oom
sets_pod cited s r = ground arith

sets_deployment :
    (cited : List Bytes) (s : Slots) (r : Record)
    → (step cited s r).deployment ≡ (
        if is_cited cited r.id && shows_limit r
        then (r.id, deployment_memory_limit r.payload)
        else s.deployment)
unfolding step shows_limit
sets_deployment cited s r = ground (arith, never_both r.tool _ _ pods_not_deployment)

abbrev start : Slots
start = record { pod_id = []; deployment = ([], []) }

-- what a conclusion rests on
conclude_lem :
    (s : Slots) {rc : RootCause}
    → conclude s ≡ some rc
    → ((s.pod_id == []) ≡ false)
      × ((s.deployment.0 == []) ≡ false)
      × (rc.component ≡ lit "payments-api")
      × (rc.cause ≡ cause_memory_limit_oom)
      × (rc.evidence_ids ≡ s.pod_id ∷ s.deployment.0 ∷ [])
unfolding conclude
conclude_lem s h = ground arith

module _ (records : List Record) (cited : List Bytes) where
  -- `verifyOOM` concludes only from two cited records of payments-api in the collection: a pod list
  -- that shows an OOM-killed container, and a Deployment whose memory limit is well formed. It names
  -- the memory-limit cause and cites those two records, in this order, and no other.
  pub verify_oom_sound :
      {rc : RootCause}
      → verify_oom records cited ≡ some rc
      → (rc.component ≡ lit "payments-api")
        × (rc.cause ≡ cause_memory_limit_oom)
        × ((pod deployment limit : Bytes) × (rc.evidence_ids ≡ pod ∷ deployment ∷ [])
            × Cites records cited pod_shows_oom id_of pod
            × Cites records cited shows_limit limit_of (deployment, limit))
  unfolding verify_oom
  verify_oom_sound h =
      let s = scan (step cited) start records in
      let (p, d, component, cause, ids) = conclude_lem s h in
      (
        component,
        cause,
        (
          s.pod_id,
          s.deployment.0,
          s.deployment.1,
          ids,
          slot-Cites cited (step cited) (λ s. s.pod_id) pod_shows_oom id_of (sets_pod cited)
              (λ v. v) start records refl p,
          slot-Cites cited (step cited) (λ s. s.deployment) shows_limit limit_of
              (sets_deployment cited) (λ v. v.0) start records refl d,
        ),
      )

  -- `verifyOOM` misses nothing: where every record has an ID, a cited pod list and a cited Deployment
  -- that show the two facts are enough for a root cause.
  pub verify_oom_complete :
      Named records
      → (pod : Bytes) → Cites records cited pod_shows_oom id_of pod
      → (deployment : Bytes × Bytes) → Cites records cited shows_limit limit_of deployment
      → verify_oom records cited ≢ none
  unfolding verify_oom conclude
  verify_oom_complete named pod p deployment d =
      let fp =
        slot_filled cited (step cited) (λ s. s.pod_id) pod_shows_oom id_of (sets_pod cited) (λ v. v)
          start records pod named p in
      let fd =
        slot_filled cited (step cited) (λ s. s.deployment) shows_limit limit_of
          (sets_deployment cited) (λ v. v.0) start records deployment named d in
      ground (arith, fp, fd)
