-- ===== src/Agent/Payloads/Traces.antt =====
-- The projection of a trace in internal/agent/brief.go, and the two tests on it in verify.go.
use incident_pilot.Common.{
  ℕ, Bool, false, not, ◌&&◌, ◌||◌, Option, none, some, List, [], ◌∷◌, ◌++◌, length, take, any, leb,
  if◌then◌else◌, ◌>>=◌,
}
use incident_pilot.Common.Int.{ℤ, pos, lt_int, eq_int, sub64, quot_int}
use incident_pilot.Text.{Bytes, lit, ◌==◌, parse_int, to_valid_utf8}
use incident_pilot.Json.{Json, num, str, RawMessage, fields, string_at, list_at, unmarshal}

pub record TraceSpan : Type 0 where
  pub service : Bytes
  pub name : Bytes
  pub kind : Bytes
  pub duration_ms : ℤ
  pub http_status : ℤ
  pub status_code : Bytes

record Attribute : Type 0 where
  pub key : Bytes
  pub string_value : Bytes
  pub int_value : Json

read_attribute : Json → Option Attribute
unfolding string_at fields
read_attribute v = do
  key ← string_at ("key" ∷ []) v
  text ← string_at ("value" ∷ "stringValue" ∷ []) v
  number ← fields ("value" ∷ "intValue" ∷ []) v
  some (record { key = key; string_value = text; int_value = number })

record Span : Type 0 where
  pub name : Bytes
  pub kind : Bytes
  pub start : Json
  pub finish : Json
  pub attributes : List Attribute
  pub code : Bytes

read_span : Json → Option Span
unfolding string_at fields list_at read_attribute
read_span v = do
  name ← string_at ("name" ∷ []) v
  kind ← string_at ("kind" ∷ []) v
  start ← fields ("startTimeUnixNano" ∷ []) v
  finish ← fields ("endTimeUnixNano" ∷ []) v
  attributes ← list_at ("attributes" ∷ []) read_attribute v
  code ← string_at ("status" ∷ "code" ∷ []) v
  some (record {
    name = name;
    kind = kind;
    start = start;
    finish = finish;
    attributes = attributes;
    code = code;
  })

record Batch : Type 0 where
  pub attributes : List Attribute
  pub scopes : List (List Span)

read_batch : Json → Option Batch
unfolding list_at read_attribute read_span
read_batch v = do
  attributes ← list_at ("resource" ∷ "attributes" ∷ []) read_attribute v
  scopes ← list_at ("scopeSpans" ∷ []) (list_at ("spans" ∷ []) read_span) v
  some (record { attributes = attributes; scopes = scopes })

string_attribute : List Attribute → Bytes → Bytes
string_attribute [] key = []
string_attribute (a ∷ rest) key = if a.key == key then a.string_value else string_attribute rest key

-- a quoted or a bare integer; a missing value, `null`, and any other kind do not parse
trace_integer : Json → ℤ × Bool
unfolding parse_int
trace_integer (str text) = parse_int text
trace_integer (num text) = parse_int text
trace_integer v = (pos 0, false)

int_attribute : List Attribute → Bytes → ℤ
unfolding trace_integer
int_attribute [] key = pos 0
int_attribute (a ∷ rest) key =
    if a.key == key then (trace_integer a.int_value).0 else int_attribute rest key

-- at most 24 spans are kept; a span whose times do not parse or run backwards is skipped
add_span : Bytes → List TraceSpan → Span → List TraceSpan
unfolding trace_integer int_attribute
add_span service out span =
    let (start, start_fine) = trace_integer span.start in
    let (finish, finish_fine) = trace_integer span.finish in
    if leb 24 (length out) || not start_fine || not finish_fine || lt_int finish start
    then out
    else out
      ++ record {
        service = service;
        name = take 128 (to_valid_utf8 span.name);
        kind = span.kind;
        duration_ms = quot_int (sub64 finish start) 1000000;
        http_status = int_attribute span.attributes (lit "http.response.status_code");
        status_code = span.code;
      }
        ∷ []

add_spans : Bytes → List TraceSpan → List Span → List TraceSpan
unfolding add_span
add_spans service out [] = out
add_spans service out (s ∷ spans) = add_spans service (add_span service out s) spans

add_scopes : Bytes → List TraceSpan → List (List Span) → List TraceSpan
unfolding add_spans
add_scopes service out [] = out
add_scopes service out (s ∷ scopes) = add_scopes service (add_spans service out s) scopes

is_workload : Bytes → Bool
is_workload s = s == lit "frontend" || s == lit "orders-api" || s == lit "payments-api"

add_batches : List TraceSpan → List Batch → List TraceSpan
unfolding add_scopes string_attribute is_workload
add_batches out [] = out
add_batches out (b ∷ batches) =
    let service = string_attribute b.attributes (lit "service.name") in
    add_batches (if is_workload service then add_scopes service out b.scopes else out) batches

unfoldable pub project_trace : RawMessage → List TraceSpan
unfolding add_batches read_batch unmarshal list_at ◌==◌ lit to_valid_utf8 lt_int eq_int sub64
    quot_int
project_trace raw = elim (unmarshal (list_at ("batches" ∷ []) read_batch) raw) [
  | none ↦ []
  | some batches ↦ add_batches [] batches
]

slow_success : Bytes → Bytes → TraceSpan → Bool
slow_success service name span =
    span.service == service
    && span.name == name
    && eq_int span.http_status (pos 200)
    && not (lt_int span.duration_ms (pos 900))

unfoldable pub trace_shows_slow_successful_checkout : RawMessage → Bool
unfolding slow_success any
trace_shows_slow_successful_checkout raw =
    any (slow_success (lit "frontend") (lit "frontend.http")) (project_trace raw)
    && any (slow_success (lit "orders-api") (lit "orders-api.http")) (project_trace raw)

failed_with : Bytes → Bytes → ℕ → TraceSpan → Bool
failed_with service name status span =
    span.service == service
    && span.name == name
    && eq_int span.http_status (pos status)
    && (span.status_code == lit "STATUS_CODE_ERROR" || span.status_code == lit "ERROR")

unfoldable pub trace_shows_payment_failure : RawMessage → Bool
unfolding failed_with any
trace_shows_payment_failure raw =
    any (failed_with (lit "frontend") (lit "frontend.http") 502) (project_trace raw)
    && any (failed_with (lit "orders-api") (lit "orders-api.http") 502) (project_trace raw)
    && any (failed_with (lit "payments-api") (lit "payments-api.http") 503) (project_trace raw)
