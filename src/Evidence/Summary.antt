-- ===== src/Evidence/Summary.antt =====
-- `summarize` of internal/evidence/collector.go and its helpers. The texts of a float64 and of a
-- duration, and the parser of times, are parameters, of the libraries.
use Prim.Native.String.{String}
use incident_pilot.Common.{
  ℕ, ◌+◌, ◌-◌, ◌^◌, Option, none, some, List, [], ◌∷◌, ◌++◌, length, take, ltb, leb, if◌then◌else◌,
}
use incident_pilot.Common.Int.{ℤ, pos, negsuc}
use incident_pilot.Text.{Bytes, lit, ◌==◌, show_int}
use incident_pilot.Time.{Time, zero_time}
use incident_pilot.Json.{Json, Members, null, num, str, arr, obj, elements, end, member}

pub record Formats : Type 0 where
  -- strconv.FormatFloat(f, 'f', -1, 64) for the float64 of a number's text
  pub float : Bytes → Bytes
  -- time.Parse(time.RFC3339, s)
  pub parse_time : Bytes → Option Time
  -- Duration.Round(time.Second) and the verb %s, on nanoseconds
  pub round_second : ℤ → ℤ
  pub duration : ℤ → Bytes

-- obj[key] of a map[string]any; `null` stands for nil
unfoldable pub value_of : Bytes → Members → Json
value_of key end = null
value_of key (member k v ms) = let rest = value_of key ms in if k == key then v else rest

-- value.(map[string]any), where the assertion may fail
as_map : Json → Members
as_map (obj ms) = ms
as_map v = end

-- value.([]any)
as_slice : Json → List Json
unfolding elements
as_slice (arr vs) = elements vs
as_slice v = []

unfoldable pub text_value : Json → Bytes
text_value (str s) = s
text_value v = []

unfoldable pub short_revision : Bytes → Bytes
short_revision revision = if ltb 12 (length revision) then take 12 revision else revision

-- the loop over the keys stops at a value that is no map
unfoldable pub nested : Json → List String → Json
unfolding value_of
nested v [] = v
nested (obj ms) (key ∷ keys) = nested (value_of (lit key) ms) keys
nested v (key ∷ keys) = null

count_members : Members → ℕ
count_members end = 0
count_members (member k v ms) = 1 + count_members ms

-- the sum of the lengths of a list that each item has under a name
sum_of : Bytes → List Json → ℕ
unfolding as_map as_slice value_of
sum_of key [] = 0
sum_of key (v ∷ vs) = length (as_slice (value_of key (as_map v))) + sum_of key vs

sum_addresses : List Json → ℕ
unfolding sum_of as_slice value_of as_map
sum_addresses [] = 0
sum_addresses (v ∷ vs) =
    sum_of (lit "addresses") (as_slice (value_of (lit "endpoints") (as_map v))) + sum_addresses vs

count : ℕ → Bytes
unfolding show_int
count n = show_int (pos n)

-- t.Sub(u), which is clipped to an int64
sub_time : Time → Time → ℤ
sub_time t u =
    if leb u t
    then (if leb (2 ^ 63) (t - u) then pos (2 ^ 63 - 1) else pos (t - u))
    else (if leb (2 ^ 63) (u - t) then negsuc (2 ^ 63 - 1) else negsuc (u - t - 1))

module _ (f : Formats) where
  number : Json → Bytes
  number null = lit "0"
  number (num text) = Formats.float f text
  number v = lit "unknown"

  parsed_or_zero : Option Time → Time
  parsed_or_zero none = zero_time
  parsed_or_zero (some t) = t

  not_negative : ℤ → ℤ
  not_negative (pos n) = pos n
  not_negative (negsuc n) = pos 0

  summarize_history : List Json → Time → Bytes
  unfolding as_map value_of text_value short_revision sub_time parsed_or_zero not_negative
  summarize_history [] window_end = lit "No Argo CD deployments found near the incident window"
  summarize_history (first ∷ items) window_end =
      let latest = as_map first in
      let deployed =
        parsed_or_zero (Formats.parse_time f (text_value (value_of (lit "deployed_at") latest))) in
      let age = not_negative (Formats.round_second f (sub_time window_end deployed)) in
      lit "Latest nearby Argo CD deployment revision "
      ++ (short_revision (text_value (value_of (lit "revision") latest))
          ++ (lit " was " ++ (Formats.duration f age ++ lit " before the incident window ended")))

  -- the cases of the tools of the cluster
  summarize_cluster : Bytes → Members → Option Bytes
  unfolding nested number count_members as_map as_slice value_of sum_addresses count
  summarize_cluster tool ms =
      let items = as_slice (value_of (lit "items") ms) in
      if tool == lit "kubernetes_get_deployment"
      then some (
          lit "Deployment replicas: desired "
          ++ (number (nested (obj ms) ("spec" ∷ "replicas" ∷ []))
              ++ (lit ", available "
                  ++ number (nested (obj ms) ("status" ∷ "availableReplicas" ∷ [])))))
      else if tool == lit "kubernetes_get_orders_config"
      then some (lit "Allowlisted orders-config order_mode returned")
      else if tool == lit "kubernetes_get_service"
      then some (
          lit "Service selector has "
          ++ (count (count_members (as_map (nested (obj ms) ("spec" ∷ "selector" ∷ []))))
              ++ lit " labels"))
      else if tool == lit "kubernetes_get_endpointslices"
      then some (
          lit "EndpointSlices: "
          ++ (count (length items) ++ (lit ", addresses: " ++ count (sum_addresses items))))
      else if tool == lit "kubernetes_get_pods"
      then some (count (length items) ++ lit " workload pods returned")
      else if tool == lit "kubernetes_get_events"
      then some (count (length items) ++ lit " workload events returned")
      else if tool == lit "kubernetes_get_pod_logs"
      then some (lit "20 bounded lines returned from observed CrashLoopBackOff pod")
      else none

  -- the cases of telemetry and of changes
  summarize_rest : Bytes → Members → Time → Bytes
  unfolding as_slice value_of sum_of count text_value short_revision summarize_history
  summarize_rest tool ms window_end =
      let result = as_slice (value_of (lit "result") ms) in
      if tool == lit "prometheus_get_demo_metric_range"
      then lit "Metric series: "
        ++ (count (length result) ++ (lit ", samples: " ++ count (sum_of (lit "values") result)))
      else if tool == lit "loki_get_demo_logs"
      then lit "Log streams: "
        ++ (count (length result) ++ (lit ", entries: " ++ count (sum_of (lit "values") result)))
      else if tool == lit "tempo_search_demo_traces"
      then lit "Traces found: " ++ count (length (as_slice (value_of (lit "traces") ms)))
      else if tool == lit "tempo_get_trace"
      then lit "Trace batches: " ++ count (length (as_slice (value_of (lit "batches") ms)))
      else if tool == lit "argocd_get_application"
      then lit "Argo CD application sync="
        ++ (text_value (value_of (lit "sync_status") ms)
            ++ (lit " health="
                ++ (text_value (value_of (lit "health_status") ms)
                    ++ (lit " revision="
                        ++ short_revision (text_value (value_of (lit "current_revision") ms))))))
      else if tool == lit "argocd_get_revision_history"
      then summarize_history (as_slice (value_of (lit "deployments") ms)) window_end
      else if tool == lit "github_get_commit"
      then lit "GitHub commit "
        ++ (short_revision (text_value (value_of (lit "sha") ms))
            ++ (lit " at " ++ text_value (value_of (lit "committed_at") ms)))
      else if tool == lit "github_get_diff"
      then lit "GitHub commit "
        ++ (short_revision (text_value (value_of (lit "sha") ms))
            ++ (lit " changed "
                ++ (count (length (as_slice (value_of (lit "files") ms))) ++ lit " files")))
      else lit "Structured observation collected"

  summarize_map : Bytes → Members → Time → Bytes
  unfolding summarize_cluster summarize_rest
  summarize_map tool ms window_end = elim (summarize_cluster tool ms) [
    | some text ↦ text
    | none ↦ summarize_rest tool ms window_end
  ]

  unfoldable pub summarize : Bytes → Json → Time → Bytes
  unfolding summarize_map
  summarize tool (obj ms) window_end = summarize_map tool ms window_end
  summarize tool null window_end = summarize_map tool end window_end
  summarize tool v window_end = lit "Structured result could not be summarized"
