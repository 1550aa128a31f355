-- ===== src/Evidence/Collector.antt =====
-- `Collect`, `CollectTarget`, `collectChanges` and `makeRecord` of internal/evidence/collector.go. The
-- tools, the store, the clock, uuid.NewString, the length of an encoded value and the form of a time are
-- parameters. A tool answers as a function of the calls before; tracing and the time limit are left
-- out. The text of an observation is valid UTF-8, since it was decoded from JSON.
pub mod Plan
pub mod Provenance
pub mod Trail
pub mod Scope
use incident_pilot.Common.{
  ℕ, ◌+◌, ◌*◌, Bool, true, false, not, ◌&&◌, ◌||◌, Option, none, some, List, [], ◌∷◌, ◌++◌, length,
  ltb, Result, ok, err, if◌then◌else◌, ◌>>=◌, ◌>>◌, guard,
}
use incident_pilot.Text.{Bytes, lit, ◌==◌}
use incident_pilot.Time.{Time, is_zero}
use incident_pilot.Json.{Json, Members, str, obj, end, member, RawMessage}
use incident_pilot.Incident.{Incident}
use incident_pilot.Onboarding.Profile.{
  Profile, Workload, effective, allows_incident, allows_workload, workload_of,
}
use incident_pilot.Evidence.{Record, Failure, Report}
use incident_pilot.Evidence.Window.{window}
use incident_pilot.Evidence.Redact.{Redactor, redact_payload}
use incident_pilot.Evidence.Observed.{
  crash_loop_pod, evidence_resource_ref, newest_revision, first_trace_id, compact_payload,
}
use incident_pilot.Evidence.Summary.{Formats, summarize}
use incident_pilot.Evidence.Collector.Plan.{
  Item, parameters, argument, initial_metric, plan, pod_logs, trace_of, application, history,
  commit_of, diff_of,
}

-- the field Data is `raw`: empty (`none`), or a text; a text that is not JSON is `some none`
pub record ToolObservation : Type 0 where
  pub source : Bytes
  pub collected_at : Time
  pub raw : Option RawMessage
  pub text : Bytes

pub record ToolCall : Type 0 where
  pub tool : Bytes
  pub arguments : Json

pub record Collector : Type 0 where
  -- Caller and Store are not nil
  pub configured : Bool
  pub now : Time
  pub profile : Profile
  -- the answer to a call after the calls before it; `none` is an error
  pub call : List ToolCall → ToolCall → Option ToolObservation
  -- whether the batch was stored
  pub save_batch : List Record → Bool
  -- the n-th uuid.NewString of a collection
  pub new_id : ℕ → Bytes
  pub redactor : Redactor
  pub formats : Formats
  -- the length of json.Marshal's text
  pub size : Json → ℕ
  pub format_time : Time → Bytes

pub data CollectError : Type 0 where
  not_configured unavailable_window unsupported_incident no_evidence not_persisted : CollectError

-- the calls made, and what the report holds of them
pub record State : Type 0 where
  pub calls : List ToolCall
  pub evidence : List Record
  pub failures : List Failure

pub raw_of : ToolObservation → RawMessage
raw_of obs = elim obs.raw [
  | some text ↦ text
  | none ↦ if obs.text == [] then none else some (obj (member (lit "text") (str obs.text) end))
]

call_of : Item → ToolCall
unfolding parameters
call_of item = record { tool = item.tool; arguments = parameters item }

unfoldable pub called : State → Item → State
unfolding call_of
called st item = record st { calls = st.calls ++ call_of item ∷ [] }

unfoldable pub failed : State → Item → Bytes → State
unfolding called
failed st item reason = record (called st item) {
  failures = st.failures ++ record { tool = item.tool; reason = reason } ∷ [];
}

unfoldable pub recorded : State → Item → Record → State
unfolding called
recorded st item r = record (called st item) { evidence = st.evidence ++ r ∷ [] }

container_of : Collector → Bytes → Bytes
unfolding effective workload_of
container_of c workload =
    let p = effective c.profile in
    if p.mode == lit "external"
    then elim (workload_of p workload) [ none ↦ [] | some w ↦ w.container ]
    else workload

pod_follow_up : Incident → Bytes → Bytes → Option Item
unfolding pod_logs
pod_follow_up inc workload pod = if pod == [] then none else some (pod_logs inc workload pod)

trace_follow_up : Bytes → Option Item
unfolding trace_of
trace_follow_up trace_id = if trace_id == [] then none else some (trace_of trace_id)

module _ (c : Collector) (inc : Incident) (start : Time) (finish : Time) where
  -- the record of a payload that was let through, with its parameters
  record_of : Bytes → Item → ToolObservation → Bytes → Json → Record
  unfolding parameters argument evidence_resource_ref summarize
  record_of workload item obs id payload =
      let ref =
        if item.resource_ref == []
        then inc.namespace ++ (lit "/" ++ workload)
        else item.resource_ref in
      record {
        id = id;
        collection_id = c.new_id 0;
        incident_id = inc.id;
        tool = item.tool;
        source = item.source;
        collected_at = obs.collected_at;
        window_start = if item.timed then some start else none;
        window_end = if item.timed then some finish else none;
        parameters = some (parameters item);
        summary = summarize c.formats item.tool payload finish;
        resource_ref = evidence_resource_ref item.tool payload ref;
        trace_id =
            if item.tool == lit "tempo_get_trace" then argument (lit "trace_id") item else [];
        payload = some payload;
      }

  -- a payload, and the record of it
  unfoldable pub make_record : Bytes → Item → ToolObservation → Bytes → Option (Json × Record)
  unfolding raw_of compact_payload redact_payload parameters record_of
  make_record workload item obs id = do
    guard (not (not (obs.source == item.source) || is_zero obs.collected_at))
    raw ← raw_of obs
    payload ← redact_payload c.redactor (compact_payload item.tool raw)
    guard (not (ltb (256 * 1024) (c.size payload)))
    guard (not (ltb 2048 (c.size (parameters item))))
    some (payload, record_of workload item obs id payload)

  -- the answer as a record, or what is noted as the failure's reason
  answer : State → Bytes → Item → Result Bytes (Json × Record)
  unfolding make_record call_of
  answer st workload item = elim (c.call st.calls (call_of item)) [
    | none ↦ err (lit "tool call failed")
    | some obs ↦ elim (make_record workload item obs (c.new_id (1 + length st.evidence))) [
      | none ↦ err (lit "invalid tool result")
      | some made ↦ ok made
    ]
  ]

  -- call the tool of an item and note its record or failure; the payload for what follows
  unfoldable pub collect_item : State → Bytes → Item → Option Json × State
  unfolding answer failed recorded
  collect_item st workload item = elim (answer st workload item) [
    | err reason ↦ (none, failed st item reason)
    | ok made ↦ (some made.0, recorded st item made.1)
  ]

  -- the item that the payload of a planned one leads to
  unfoldable pub follow_up : Bytes → Item → Json → Option Item
  unfolding crash_loop_pod first_trace_id container_of effective pod_follow_up trace_follow_up
  follow_up workload item payload =
      if item.tool == lit "kubernetes_get_pods"
      then pod_follow_up inc workload (crash_loop_pod payload workload (container_of c workload))
      else if item.tool == lit "tempo_search_demo_traces"
          && (effective c.profile).mode == lit "demo"
      then trace_follow_up (first_trace_id payload)
      else none

  -- one turn of the loop over the plan
  unfoldable pub plan_step : State → Bytes → Item → State
  unfolding collect_item follow_up
  plan_step st workload item =
      let (found, next) = collect_item st workload item in
      elim found [
        | none ↦ next
        | some payload ↦ elim (follow_up workload item payload) [
          | none ↦ next
          | some more ↦ (collect_item next workload more).1
        ]
      ]

  unfoldable pub run_plan : Bytes → State → List Item → State
  unfolding plan_step
  run_plan workload st [] = st
  run_plan workload st (item ∷ items) = run_plan workload (plan_step st workload item) items

  -- from the payload of the revision history on
  follow_revision : State → Json → State
  unfolding collect_item newest_revision commit_of diff_of
  follow_revision st payload =
      let revision = newest_revision payload in
      if revision == []
      then st
      else let t = (collect_item st [] (commit_of c.format_time revision start finish)).1 in
        (collect_item t [] (diff_of c.format_time revision start finish)).1

  read_history : State → State
  unfolding collect_item follow_revision history
  read_history st =
      let (found, next) = collect_item st [] (history c.format_time start finish) in
      elim found [ none ↦ next | some payload ↦ follow_revision next payload ]

  unfoldable pub collect_changes : State → State
  unfolding collect_item read_history application
  collect_changes st =
      let (found, next) = collect_item st [] application in
      elim found [ none ↦ next | some payload ↦ read_history next ]

  -- everything that is collected for a workload
  unfoldable pub gather : Bytes → Bytes → Bool → State
  unfolding run_plan plan collect_changes effective
  gather workload metric include_changes =
      let empty : State = record { calls = []; evidence = []; failures = [] } in
      let p = effective c.profile in
      let planned =
        run_plan workload empty (plan c.format_time p inc workload metric start finish) in
      if include_changes && p.mode == lit "demo" then collect_changes planned else planned

  report_of : State → Report
  report_of st = record {
    collection_id = c.new_id 0;
    incident_id = inc.id;
    window_start = start;
    window_end = finish;
    evidence = st.evidence;
    failures = st.failures;
  }

  unfoldable pub finish_report : State → Result CollectError Report
  unfolding report_of
  finish_report st =
      if ltb 0 (length st.evidence)
      then (if c.save_batch st.evidence then ok (report_of st) else err not_persisted)
      else err no_evidence

-- the report, with the calls made for it
unfoldable pub collect_bounded :
    Collector → Incident → Bytes → Bytes → Bool → Result CollectError Report × List ToolCall
unfolding window effective allows_incident allows_workload gather finish_report
collect_bounded c inc workload metric include_changes =
    if not c.configured then (err not_configured, []) else elim (window inc c.now) [
      | none ↦ (err unavailable_window, [])
      | some (start, finish) ↦
          let p = effective c.profile in
          if not (allows_incident p inc.namespace inc.service inc.alert_name)
            || not (allows_workload p workload)
          then (err unsupported_incident, [])
          else let st = gather c inc start finish workload metric include_changes in
            (finish_report c inc start finish st, st.calls)
    ]

unfoldable pub collect : Collector → Incident → Result CollectError Report × List ToolCall
unfolding collect_bounded initial_metric
collect c inc = collect_bounded c inc inc.service (initial_metric inc) true

unfoldable pub collect_target :
    Collector → Incident → Bytes → Bytes → Result CollectError Report × List ToolCall
unfolding collect_bounded
collect_target c inc workload metric =
    if not (metric == lit "error_rate")
      && not (metric == lit "heap_bytes")
      && not (metric == lit "success_latency_avg")
    then (err unsupported_incident, [])
    else collect_bounded c inc workload metric false
