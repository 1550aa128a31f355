-- ===== src/Agent/Payloads/Pods.antt =====
-- The pod lists of internal/agent/verify.go.
use incident_pilot.Common.{
  Bool, false, not, ◌&&◌, ◌||◌, Option, none, some, List, [], ◌∷◌, any, if◌then◌else◌, ◌>>=◌,
}
use incident_pilot.Common.Int.{ℤ, pos, lt_int}
use incident_pilot.Text.{Bytes, lit, ◌==◌}
use incident_pilot.Text.Regex.{matches}
use incident_pilot.Json.{
  Json, RawMessage, string_at, int_at, bool_at, list_at, map_at, map_value, unmarshal,
}
use incident_pilot.Agent.Patterns.{image_reference_pattern}

record OomStatus : Type 0 where
  pub name : Bytes
  pub last_reason : Bytes
  pub reason : Bytes

read_oom_status : Json → Option OomStatus
unfolding string_at
read_oom_status v = do
  name ← string_at ("name" ∷ []) v
  last ← string_at ("lastState" ∷ "terminated" ∷ "reason" ∷ []) v
  now ← string_at ("state" ∷ "terminated" ∷ "reason" ∷ []) v
  some (record { name = name; last_reason = last; reason = now })

read_oom_pods : Json → Option (List (List OomStatus))
unfolding list_at read_oom_status
read_oom_pods =
    list_at ("items" ∷ []) (list_at ("status" ∷ "containerStatuses" ∷ []) read_oom_status)

oom_killed : OomStatus → Bool
oom_killed s =
    s.name == lit "payments-api"
    && (s.last_reason == lit "OOMKilled" || s.reason == lit "OOMKilled")

unfoldable pub pods_show_oom : RawMessage → Bool
unfolding read_oom_pods oom_killed unmarshal any ◌==◌ lit
pods_show_oom raw = elim (unmarshal read_oom_pods raw) [
  | none ↦ false
  | some pods ↦ any (any oom_killed) pods
]

pub record ImagePullPod : Type 0 where
  pub name : Bytes
  pub image : Bytes
  pub reason : Bytes

record Container : Type 0 where
  pub name : Bytes
  pub image : Bytes

record WaitingStatus : Type 0 where
  pub name : Bytes
  pub image : Bytes
  pub waiting_reason : Bytes

record WaitingPod : Type 0 where
  pub name : Bytes
  pub containers : List Container
  pub statuses : List WaitingStatus

read_container : Json → Option Container
unfolding string_at
read_container v = do
  name ← string_at ("name" ∷ []) v
  image ← string_at ("image" ∷ []) v
  some (record { name = name; image = image })

read_waiting_status : Json → Option WaitingStatus
unfolding string_at
read_waiting_status v = do
  name ← string_at ("name" ∷ []) v
  image ← string_at ("image" ∷ []) v
  reason ← string_at ("state" ∷ "waiting" ∷ "reason" ∷ []) v
  some (record { name = name; image = image; waiting_reason = reason })

read_waiting_pod : Json → Option WaitingPod
unfolding string_at list_at read_container read_waiting_status
read_waiting_pod v = do
  name ← string_at ("metadata" ∷ "name" ∷ []) v
  containers ← list_at ("spec" ∷ "containers" ∷ []) read_container v
  statuses ← list_at ("status" ∷ "containerStatuses" ∷ []) read_waiting_status v
  some (record { name = name; containers = containers; statuses = statuses })

-- the image of the first container called orders-api
orders_image : List Container → Bytes
orders_image [] = []
orders_image (c ∷ cs) = if c.name == lit "orders-api" then c.image else orders_image cs

-- the statuses of one pod; a skipped status may still leave its image to the next
waiting_status : Bytes → Bytes → List WaitingStatus → Option ImagePullPod
unfolding image_reference_pattern
waiting_status name image [] = none
waiting_status name image (s ∷ ss) =
    let waiting =
      s.name == lit "orders-api"
      && (s.waiting_reason == lit "ImagePullBackOff" || s.waiting_reason == lit "ErrImagePull") in
    let image' = if waiting && not (s.image == []) then s.image else image in
    let rest = waiting_status name image' ss in
    if waiting && not (name == []) && matches image_reference_pattern image'
    then some (record { name = name; image = image'; reason = s.waiting_reason })
    else rest

first_waiting : List WaitingPod → Option ImagePullPod
unfolding orders_image waiting_status
first_waiting [] = none
first_waiting (p ∷ ps) = elim (waiting_status p.name (orders_image p.containers) p.statuses) [
  | none ↦ first_waiting ps
  | some found ↦ some found
]

unfoldable pub pod_waiting_for_image : RawMessage → Option ImagePullPod
unfolding read_waiting_pod first_waiting unmarshal list_at ◌==◌ lit matches
pod_waiting_for_image raw = do
  pods ← unmarshal (list_at ("items" ∷ []) read_waiting_pod) raw
  first_waiting pods

record CrashStatus : Type 0 where
  pub name : Bytes
  pub restart_count : ℤ
  pub waiting_reason : Bytes
  pub terminated_reason : Bytes

record CrashPod : Type 0 where
  pub name : Bytes
  pub statuses : List CrashStatus

read_crash_status : Json → Option CrashStatus
unfolding string_at int_at
read_crash_status v = do
  name ← string_at ("name" ∷ []) v
  restarts ← int_at ("restartCount" ∷ []) v
  waiting ← string_at ("state" ∷ "waiting" ∷ "reason" ∷ []) v
  terminated ← string_at ("state" ∷ "terminated" ∷ "reason" ∷ []) v
  some (record {
    name = name;
    restart_count = restarts;
    waiting_reason = waiting;
    terminated_reason = terminated;
  })

read_crash_pod : Json → Option CrashPod
unfolding string_at list_at read_crash_status
read_crash_pod v = do
  name ← string_at ("metadata" ∷ "name" ∷ []) v
  statuses ← list_at ("status" ∷ "containerStatuses" ∷ []) read_crash_status v
  some (record { name = name; statuses = statuses })

crash_loops : CrashPod → CrashStatus → Bool
unfolding image_reference_pattern lt_int
crash_loops pod s =
    s.name == lit "orders-api"
    && (s.waiting_reason == lit "CrashLoopBackOff"
        || (s.terminated_reason == lit "Error" && lt_int (pos 0) s.restart_count))
    && matches image_reference_pattern pod.name

first_crash : List CrashPod → Bytes
unfolding crash_loops any
first_crash [] = []
first_crash (p ∷ ps) = if any (crash_loops p) p.statuses then p.name else first_crash ps

unfoldable pub orders_crash_loop_pod : RawMessage → Bytes
unfolding read_crash_pod first_crash unmarshal list_at ◌==◌ lit matches
orders_crash_loop_pod raw = elim (unmarshal (list_at ("items" ∷ []) read_crash_pod) raw) [
  | none ↦ []
  | some pods ↦ first_crash pods
]

record ReadyStatus : Type 0 where
  pub name : Bytes
  pub ready : Bool

record ReadyPod : Type 0 where
  pub labels : List (Bytes × Bytes)
  pub phase : Bytes
  pub statuses : List ReadyStatus

read_ready_status : Json → Option ReadyStatus
unfolding string_at bool_at
read_ready_status v = do
  name ← string_at ("name" ∷ []) v
  ready ← bool_at ("ready" ∷ []) v
  some (record { name = name; ready = ready })

read_ready_pod : Json → Option ReadyPod
unfolding string_at map_at list_at read_ready_status
read_ready_pod v = do
  labels ← map_at ("metadata" ∷ "labels" ∷ []) v
  phase ← string_at ("status" ∷ "phase" ∷ []) v
  statuses ← list_at ("status" ∷ "containerStatuses" ∷ []) read_ready_status v
  some (record { labels = labels; phase = phase; statuses = statuses })

payments_ready : ReadyPod → Bool
unfolding any map_value
payments_ready p =
    map_value (lit "app") p.labels == lit "payments-api"
    && p.phase == lit "Running"
    && any (λ s. s.name == lit "payments-api" && s.ready) p.statuses

unfoldable pub payments_pod_is_ready : RawMessage → Bool
unfolding read_ready_pod payments_ready unmarshal list_at any ◌==◌ lit
payments_pod_is_ready raw = elim (unmarshal (list_at ("items" ∷ []) read_ready_pod) raw) [
  | none ↦ false
  | some pods ↦ any payments_ready pods
]
