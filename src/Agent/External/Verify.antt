-- ===== src/Agent/External/Verify.antt =====
-- The verifiers of internal/agent/external_verify.go.
use incident_pilot.Common.{
  Bool, false, not, ◌&&◌, ◌||◌, Option, none, some, List, [], ◌∷◌, ◌++◌, any, if◌then◌else◌, ◌>>=◌,
}
use incident_pilot.Common.Scan.{last_of}
use incident_pilot.Text.{Bytes, lit, ◌==◌, contains, to_lower}
use incident_pilot.Text.Regex.{matches}
use incident_pilot.Time.{Time, zero_time, is_zero}
use incident_pilot.Json.{Json, RawMessage, fields, string_at, list_at, map_value, unmarshal}
use incident_pilot.Incident.{Incident}
use incident_pilot.Evidence.{Record}
use incident_pilot.Onboarding.Profile.{Profile, Workload, workload_of}
use incident_pilot.Agent.Types.{RootCause, cause_memory_limit_oom, cause_unpullable_image}
use incident_pilot.Agent.External.Payloads.{
  Clock, PodContainer, PodStatus, ScopedPod, scoped_deployment_container, recent, scoped_pods,
  time_at,
}
use incident_pilot.Agent.Patterns.{memory_limit_pattern, image_reference_pattern}

-- an event: its reason, message, object and time
record Event : Type 0 where
  pub reason : Bytes
  pub message : Bytes
  pub at : Time
  pub kind : Bytes
  pub name : Bytes

-- evidence.Record{}
abbrev pub no_record : Record
no_record = record {
  id = [];
  collection_id = [];
  incident_id = [];
  tool = [];
  source = [];
  collected_at = zero_time;
  window_start = none;
  window_end = none;
  parameters = none;
  summary = [];
  resource_ref = [];
  trace_id = [];
  payload = none;
}

unfoldable pub is_about : Bytes → Bytes → Bytes → Record → Bool
is_about ref tool source r = r.resource_ref == ref && r.tool == tool && r.source == source

-- byTool[tool], after the loop over the records
unfoldable pub by_tool : Bytes → Bytes → Bytes → List Record → Record
unfolding is_about last_of
by_tool ref tool source records = last_of (is_about ref tool source) (λ r. r) no_record records

-- the loop over the verifiers
unfoldable pub first_cause : (Bytes → Option RootCause) → List Bytes → Option RootCause
first_cause verify [] = none
first_cause verify (v ∷ vs) =
    let rest = first_cause verify vs in elim (verify v) [ none ↦ rest | some cause ↦ some cause ]

module _ (clock : Clock) where
  -- a container status that shows a recent kill
  killed : Incident → Workload → PodStatus → Bool
  unfolding recent
  killed inc workload s =
      let t = if not (s.last.reason == lit "OOMKilled") then s.terminated else s.last in
      s.name == workload.container
      && t.reason == lit "OOMKilled"
      && recent clock t.finished_at inc.started_at

  has_limit : Workload → Bytes → PodContainer → Bool
  unfolding map_value
  has_limit workload limit c =
      c.name == workload.container && map_value (lit "memory") c.limits == limit

  first_killed : Incident → Workload → Bytes → List ScopedPod → Option Bytes
  unfolding killed has_limit any
  first_killed inc workload limit [] = none
  first_killed inc workload limit (p ∷ ps) =
      let rest = first_killed inc workload limit ps in
      if any (has_limit workload limit) p.containers && any (killed inc workload) p.statuses
      then some p.name
      else rest

  unfoldable pub external_oom : Profile → Incident → Workload → Record → Record → Option RootCause
  unfolding first_killed scoped_pods scoped_deployment_container matches memory_limit_pattern
  external_oom profile inc workload deployment pods =
      let limit = (scoped_deployment_container deployment.payload workload).2 in
      if not (matches memory_limit_pattern limit)
      then none
      else elim (first_killed inc workload limit
          (scoped_pods clock pods.payload profile workload)) [
            | none ↦ none
            | some pod ↦ some (record {
              conclusion =
                  workload.container
                  ++ (lit " container in pod "
                      ++ (pod
                          ++ (lit " was OOMKilled with a configured "
                              ++ (limit ++ lit " memory limit"))));
              component = workload.name;
              cause = cause_memory_limit_oom;
              evidence_ids = pods.id ∷ deployment.id ∷ [];
            })
          ]

  read_event : Json → Option Event
  unfolding string_at fields time_at
  read_event v = do
    reason ← string_at ("reason" ∷ []) v
    message ← string_at ("message" ∷ []) v
    last ← fields ("lastTimestamp" ∷ []) v
    stamp ← time_at clock last
    made ← fields ("metadata" ∷ "creationTimestamp" ∷ []) v
    created ← time_at clock made
    kind ← string_at ("involvedObject" ∷ "kind" ∷ []) v
    name ← string_at ("involvedObject" ∷ "name" ∷ []) v
    some (record {
      reason = reason;
      message = message;
      at = if is_zero stamp then created else stamp;
      kind = kind;
      name = name;
    })

  failed_pull : Bytes → Bytes → Time → Event → Bool
  unfolding recent contains to_lower
  failed_pull pod image started e =
      e.reason == lit "Failed"
      && e.kind == lit "Pod"
      && e.name == pod
      && contains (to_lower e.message) (lit "pull image")
      && contains e.message image
      && recent clock e.at started

  unfoldable pub recent_pull_event : RawMessage → Bytes → Bytes → Time → Bool
  unfolding read_event failed_pull unmarshal list_at any
  recent_pull_event raw pod image started =
      elim (unmarshal (list_at ("items" ∷ []) read_event) raw) [
        | none ↦ false
        | some events ↦ any (failed_pull pod image started) events
      ]

  -- the image of the last container with the workload's name
  pod_image : Workload → List PodContainer → Bytes
  unfolding last_of
  pod_image workload containers =
      last_of (λ c. c.name == workload.container) (λ c. c.image) [] containers

  waits : Workload → Bytes → PodStatus → Bool
  waits workload image s =
      s.name == workload.container
      && (s.waiting == lit "ErrImagePull" || s.waiting == lit "ImagePullBackOff")
      && (s.image == [] || s.image == image)

  -- the reason of the first status that fits
  first_status : Workload → Bytes → List PodStatus → Option Bytes
  unfolding waits
  first_status workload image [] = none
  first_status workload image (s ∷ ss) =
      if waits workload image s then some s.waiting else first_status workload image ss

  -- the pod and the reason; whether the events show its pull is the same for all statuses of a pod
  first_waiting : Incident → Workload → Bytes → RawMessage → List ScopedPod → Option (Bytes × Bytes)
  unfolding recent_pull_event pod_image first_status
  first_waiting inc workload image events [] = none
  first_waiting inc workload image events (p ∷ ps) =
      let rest = first_waiting inc workload image events ps in
      if not (pod_image workload p.containers == image)
        || not (recent_pull_event events p.name image inc.started_at)
      then rest
      else elim (first_status workload image p.statuses) [
        | none ↦ rest
        | some reason ↦ some (p.name, reason)
      ]

  unfoldable pub external_image_pull :
      Profile → Incident → Workload → Record → Record → Record → Option RootCause
  unfolding first_waiting scoped_pods scoped_deployment_container matches image_reference_pattern
  external_image_pull profile inc workload deployment pods events =
      let (image, policy, limit) = scoped_deployment_container deployment.payload workload in
      if events.id == []
        || not (matches image_reference_pattern image)
        || (not (policy == lit "Always") && not (policy == lit "IfNotPresent"))
      then none
      else elim (first_waiting inc workload image events.payload
          (scoped_pods clock pods.payload profile workload)) [
            | none ↦ none
            | some found ↦ some (record {
              conclusion =
                  workload.name
                  ++ (lit " Deployment references image "
                      ++ (image
                          ++ (lit "; pod "
                              ++ (found.0
                                  ++ (lit " entered "
                                      ++ (found.1
                                          ++ lit " after Kubernetes failed to pull it"))))));
              component = workload.name;
              cause = cause_unpullable_image;
              evidence_ids = deployment.id ∷ pods.id ∷ events.id ∷ [];
            })
          ]

  -- one turn of it
  unfoldable pub verifier :
      Profile → Incident → Workload → Record → Record → Record → Bytes → Option RootCause
  unfolding external_oom external_image_pull
  verifier profile inc workload deployment pods events name =
      if name == lit "kubernetes_oom"
      then external_oom profile inc workload deployment pods
      else if name == lit "image_pull"
      then external_image_pull profile inc workload deployment pods events
      else none

  unfoldable pub external_verified_cause : Profile → Incident → List Record → Option RootCause
  unfolding workload_of by_tool first_cause verifier
  external_verified_cause profile inc records = elim (workload_of profile inc.service) [
    | none ↦ none
    | some workload ↦
        let ref = inc.namespace ++ (lit "/" ++ inc.service) in
        let deployment =
          by_tool ref (lit "kubernetes_get_deployment") (lit "kubernetes/deployment") records in
        let pods = by_tool ref (lit "kubernetes_get_pods") (lit "kubernetes/pods") records in
        let events = by_tool ref (lit "kubernetes_get_events") (lit "kubernetes/events") records in
        if deployment.id == [] || pods.id == []
        then none
        else first_cause (verifier profile inc workload deployment pods events) profile.verifiers
  ]
