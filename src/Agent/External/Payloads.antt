-- ===== src/Agent/External/Payloads.antt =====
-- The payloads of internal/agent/external_verify.go. The times in them are read by the parser of
-- time.Time, of the library, and the clock is a parameter too: one reading of it serves a whole run.
use incident_pilot.Common.{
  ◌+◌, ◌*◌, Bool, not, ◌&&◌, Option, none, some, List, [], ◌∷◌, ◌++◌, ltb, if◌then◌else◌, ◌>>=◌,
}
use incident_pilot.Text.{Bytes, lit, ◌==◌, has_prefix}
use incident_pilot.Time.{Time, second, minute, zero_time, is_zero}
use incident_pilot.Json.{
  Json, RawMessage, null, str, fields, string_at, list_at, map_at, map_value, unmarshal,
}
use incident_pilot.Onboarding.Profile.{Profile, Workload, pod_label}

pub record Clock : Type 0 where
  -- the text of a JSON string as an RFC 3339 time
  pub parse_time : Bytes → Option Time
  pub now : Time

pub record PodContainer : Type 0 where
  pub name : Bytes
  pub image : Bytes
  pub limits : List (Bytes × Bytes)

read_pod_container : Json → Option PodContainer
unfolding string_at map_at
read_pod_container v = do
  name ← string_at ("name" ∷ []) v
  image ← string_at ("image" ∷ []) v
  limits ← map_at ("resources" ∷ "limits" ∷ []) v
  some (record { name = name; image = image; limits = limits })

pub record Termination : Type 0 where
  pub reason : Bytes
  pub finished_at : Time

pub record PodStatus : Type 0 where
  pub name : Bytes
  pub image : Bytes
  pub last : Termination
  pub waiting : Bytes
  pub terminated : Termination

pub record ScopedPod : Type 0 where
  pub name : Bytes
  pub labels : List (Bytes × Bytes)
  pub containers : List PodContainer
  pub statuses : List PodStatus

record DeploymentContainer : Type 0 where
  pub name : Bytes
  pub image : Bytes
  pub pull_policy : Bytes
  pub limits : List (Bytes × Bytes)

read_deployment_container : Json → Option DeploymentContainer
unfolding string_at map_at
read_deployment_container v = do
  name ← string_at ("name" ∷ []) v
  image ← string_at ("image" ∷ []) v
  policy ← string_at ("imagePullPolicy" ∷ []) v
  limits ← map_at ("resources" ∷ "limits" ∷ []) v
  some (record { name = name; image = image; pull_policy = policy; limits = limits })

-- the image, the pull policy and the memory limit
abbrev pub Configured : Type 0
Configured = Bytes × Bytes × Bytes

container_of : Bytes → List DeploymentContainer → Configured
unfolding map_value
container_of name [] = ([], [], [])
container_of name (c ∷ cs) =
    if c.name == name
    then (c.image, c.pull_policy, map_value (lit "memory") c.limits)
    else container_of name cs

read_deployment : Json → Option (Bytes × List DeploymentContainer)
unfolding string_at list_at read_deployment_container
read_deployment v = do
  name ← string_at ("metadata" ∷ "name" ∷ []) v
  containers ←
      list_at ("spec" ∷ "template" ∷ "spec" ∷ "containers" ∷ []) read_deployment_container v
  some (name, containers)

unfoldable pub scoped_deployment_container : RawMessage → Workload → Configured
unfolding read_deployment container_of unmarshal
scoped_deployment_container raw workload = elim (unmarshal read_deployment raw) [
  | none ↦ ([], [], [])
  | some d ↦
      if not (d.0 == workload.name) then ([], [], []) else container_of workload.container d.1
]

module _ (clock : Clock) where
  unfoldable pub time_at : Json → Option Time
  time_at null = some zero_time
  time_at (str s) = Clock.parse_time clock s
  time_at v = none

  read_termination : Json → Option Termination
  unfolding string_at fields time_at
  read_termination v = do
    reason ← string_at ("reason" ∷ []) v
    when ← fields ("finishedAt" ∷ []) v
    finished ← time_at when
    some (record { reason = reason; finished_at = finished })

  read_pod_status : Json → Option PodStatus
  unfolding string_at fields read_termination
  read_pod_status v = do
    name ← string_at ("name" ∷ []) v
    image ← string_at ("image" ∷ []) v
    last ← fields ("lastState" ∷ "terminated" ∷ []) v
    was ← read_termination last
    waiting ← string_at ("state" ∷ "waiting" ∷ "reason" ∷ []) v
    state ← fields ("state" ∷ "terminated" ∷ []) v
    terminated ← read_termination state
    some (record {
      name = name;
      image = image;
      last = was;
      waiting = waiting;
      terminated = terminated;
    })

  read_scoped_pod : Json → Option ScopedPod
  unfolding string_at map_at list_at read_pod_container read_pod_status
  read_scoped_pod v = do
    name ← string_at ("metadata" ∷ "name" ∷ []) v
    labels ← map_at ("metadata" ∷ "labels" ∷ []) v
    containers ← list_at ("spec" ∷ "containers" ∷ []) read_pod_container v
    statuses ← list_at ("status" ∷ "containerStatuses" ∷ []) read_pod_status v
    some (record { name = name; labels = labels; containers = containers; statuses = statuses })

  -- `when` is set, not earlier than two minutes before `start`, and at most 30 seconds ahead
  unfoldable pub recent : Time → Time → Bool
  recent when start =
      not (is_zero when)
      && not (is_zero start)
      && not (ltb (when + 2 * minute) start)
      && not (ltb (Clock.now clock + 30 * second) when)

  in_scope : Bytes × Bytes → Workload → ScopedPod → Bool
  unfolding map_value has_prefix
  in_scope label workload pod =
      has_prefix pod.name (workload.name ++ lit "-") && map_value label.0 pod.labels == label.1

  -- the pods of a list that pass a test
  keep : (ScopedPod → Bool) → List ScopedPod → List ScopedPod
  keep test [] = []
  keep test (p ∷ ps) = let rest = keep test ps in if test p then p ∷ rest else rest

  label_or_zero : Option (Bytes × Bytes) → Bytes × Bytes
  label_or_zero none = ([], [])
  label_or_zero (some label) = label

  unfoldable pub scoped_pods : RawMessage → Profile → Workload → List ScopedPod
  unfolding read_scoped_pod in_scope keep label_or_zero pod_label unmarshal list_at
  scoped_pods raw profile workload = elim (unmarshal (list_at ("items" ∷ []) read_scoped_pod) raw) [
    | none ↦ []
    | some pods ↦ keep (in_scope (label_or_zero (pod_label profile workload.name)) workload) pods
  ]
