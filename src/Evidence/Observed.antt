-- ===== src/Evidence/Observed.antt =====
-- The readers of tool results in internal/evidence/collector.go.
use incident_pilot.Common.{
  ℕ, Bool, false, not, ◌&&◌, ◌||◌, Option, none, some, List, [], ◌∷◌, ◌++◌, length, any, all, ltb,
  leb, if◌then◌else◌, ◌>>=◌,
}
use incident_pilot.Common.Int.{ℤ, pos, lt_int}
use incident_pilot.Text.{Bytes, lit, ◌==◌, has_prefix, equal_fold, is_digit}
use incident_pilot.Json.{Json, Members, obj, end, member, string_at, int_at, list_at}

-- a status of a container, as `crashLoopPod` reads it
pub record CrashStatus : Type 0 where
  pub name : Bytes
  pub restart_count : ℤ
  pub waiting_reason : Bytes
  pub terminated_reason : Bytes

read_status : Json → Option CrashStatus
unfolding string_at int_at
read_status v = do
  name ← string_at ("name" ∷ []) v
  restarts ← int_at ("restartCount" ∷ []) v
  waiting ← string_at ("state" ∷ "waiting" ∷ "reason" ∷ []) v
  terminated ← string_at ("state" ∷ "terminated" ∷ "reason" ∷ []) v
  some (record {
    name = name;
    restart_count = restarts;
    waiting_reason = waiting;
    terminated_reason = terminated;
  })

unfoldable pub read_pod : Json → Option (Bytes × List CrashStatus)
unfolding string_at list_at read_status
read_pod v = do
  name ← string_at ("metadata" ∷ "name" ∷ []) v
  statuses ← list_at ("status" ∷ "containerStatuses" ∷ []) read_status v
  some (name, statuses)

pod_char : ℕ → Bool
unfolding is_digit
pod_char c = (leb b'a' c && leb c b'z') || is_digit c || leb b'-' c && leb c b'-'

-- a byte above 127 belongs to no character that is allowed
unfoldable pub valid_pod_name : Bytes → Bytes → Bool
unfolding pod_char has_prefix all
valid_pod_name name workload =
    if not (has_prefix name (workload ++ lit "-")) || ltb 63 (length name)
    then false
    else all pod_char name

unfoldable pub crashes : Bytes → Bytes → Bytes → CrashStatus → Bool
unfolding valid_pod_name lt_int
crashes workload container pod s =
    s.name == container
    && (s.waiting_reason == lit "CrashLoopBackOff"
        || (s.terminated_reason == lit "Error" && lt_int (pos 0) s.restart_count))
    && valid_pod_name pod workload

unfoldable pub first_crash : Bytes → Bytes → List (Bytes × List CrashStatus) → Bytes
unfolding crashes any
first_crash workload container [] = []
first_crash workload container (p ∷ ps) =
    let rest = first_crash workload container ps in
    if any (crashes workload container p.0) p.1 then p.0 else rest

-- `[]` for the empty string
unfoldable pub crash_loop_pod : Json → Bytes → Bytes → Bytes
unfolding read_pod first_crash list_at
crash_loop_pod raw workload container = elim (list_at ("items" ∷ []) read_pod raw) [
  | none ↦ []
  | some pods ↦ first_crash workload container pods
]

read_identity : Json → Option (Bytes × Bytes)
unfolding string_at
read_identity v = do
  application ← string_at ("application" ∷ []) v
  repository ← string_at ("repository" ∷ []) v
  some (application, repository)

unfoldable pub evidence_resource_ref : Bytes → Json → Bytes → Bytes
unfolding read_identity has_prefix
evidence_resource_ref tool payload fallback = elim (read_identity payload) [
  | none ↦ fallback
  | some identity ↦
      if has_prefix tool (lit "argocd_") && not (identity.0 == [])
      then lit "argocd/" ++ identity.0
      else if has_prefix tool (lit "github_") && not (identity.1 == [])
      then lit "github/" ++ identity.1
      else fallback
]

-- strings.ContainsRune("0123456789abcdefABCDEF", c), for a byte of the text
pub hex_char : ℕ → Bool
unfolding is_digit
hex_char c = is_digit c || (leb b'a' c && leb c b'f') || (leb b'A' c && leb c b'F')

-- a text of hexadecimal digits with a length between the two bounds, and `[]` in place of any other
unfoldable pub hex_of_length : ℕ → ℕ → Bytes → Bytes
unfolding hex_char all
hex_of_length lo hi s =
    if ltb (length s) lo || ltb hi (length s) then [] else if all hex_char s then s else []

unfoldable pub first_hex : ℕ → ℕ → Option (List Bytes) → Bytes
unfolding hex_of_length
first_hex lo hi none = []
first_hex lo hi (some []) = []
first_hex lo hi (some (s ∷ ss)) = hex_of_length lo hi s

unfoldable pub newest_revision : Json → Bytes
unfolding first_hex list_at string_at
newest_revision raw =
    first_hex 7 64 (list_at ("deployments" ∷ []) (string_at ("revision" ∷ [])) raw)

unfoldable pub first_trace_id : Json → Bytes
unfolding first_hex list_at string_at
first_trace_id raw = first_hex 16 32 (list_at ("traces" ∷ []) (string_at ("traceID" ∷ [])) raw)

-- obj[key] of a map[string]json.RawMessage: the last member of that very name
raw_member : Bytes → Option Json → Members → Option Json
raw_member key v end = v
raw_member key v (member k w ms) = raw_member key (if k == key then some w else v) ms

-- the same for a field of a struct, whose name is compared up to letter case
raw_field : Bytes → Option Json → Members → Option Json
unfolding equal_fold
raw_field key v end = v
raw_field key v (member k w ms) = raw_field key (if equal_fold k key then some w else v) ms

-- wrapper.Data.Result, where the JSON decodes into the wrapper and has one
wrapped_result : Members → Option Json
unfolding raw_field
wrapped_result ms = elim (raw_field (lit "data") none ms) [
  | some (obj inner) ↦ raw_field (lit "result") none inner
  | some v ↦ none
  | none ↦ none
]

unfoldable pub compact_payload : Bytes → Json → Json
unfolding raw_member wrapped_result
compact_payload tool (obj ms) =
    if tool == lit "tempo_search_demo_traces"
    then elim (raw_member (lit "traces") none ms) [
      | some traces ↦ obj (member (lit "traces") traces end)
      | none ↦ obj ms
    ]
    else if tool == lit "loki_get_demo_logs" || tool == lit "prometheus_get_demo_metric_range"
    then elim (wrapped_result ms) [
      | some result ↦ obj (member (lit "result") result end)
      | none ↦ obj ms
    ]
    else obj ms
compact_payload tool raw = raw
