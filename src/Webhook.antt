-- ===== src/Webhook.antt =====
-- `decodeWebhook` of internal/httpapi/handler.go: the alerts that Alertmanager posts. A request is what
-- mime.ParseMediaType and the JSON decoder make of it; the parser of times is a parameter.
pub mod Valid
use incident_pilot.Common.{
  ℕ, Bool, true, false, not, ◌&&◌, ◌||◌, Option, none, some, List, [], ◌∷◌, length, ltb, Result, ok,
  err, if◌then◌else◌, ◌>>=◌,
}
use incident_pilot.Common.Int.{ℤ, pos, eq_int}
use incident_pilot.Text.{Bytes, lit, ◌==◌}
use incident_pilot.Text.Regex.{
  Regex, class, seq, star, repeat, optional, between, upper, lower, digit, one_of, matches,
}
use incident_pilot.Time.{Time, zero_time, is_zero}
use incident_pilot.Json.{
  Json, null, str, RawMessage, fields, string_at, int_at, list_at, map_at, map_value, unmarshal,
}
use incident_pilot.Incident.{Signal, detected, resolved}

-- ^[0-9a-fA-F]{16}$
unfoldable pub fingerprint_pattern : Regex
fingerprint_pattern =
    repeat 16 16 (class (λ c. digit c || between b'a' b'f' c || between b'A' b'F' c))

name_first : ℕ → Bool
unfolding one_of lit
name_first c = upper c || lower c || one_of (lit "_:") c

-- ^[A-Za-z_:][A-Za-z0-9_:]*$
unfoldable pub name_pattern : Regex
unfolding name_first
name_pattern = seq (class name_first) (star (class (λ c. name_first c || digit c)))

label_end : ℕ → Bool
label_end c = lower c || digit c

-- ^[a-z0-9]([-a-z0-9]*[a-z0-9])?$
unfoldable pub dns_label_pattern : Regex
unfolding label_end one_of lit
dns_label_pattern =
    seq (class label_end)
      (optional (seq (star (class (λ c. label_end c || one_of (lit "-") c))) (class label_end)))

pub record Alert : Type 0 where
  pub status : Bytes
  pub labels : List (Bytes × Bytes)
  pub fingerprint : Bytes
  pub starts_at : Time
  pub ends_at : Time

pub record WebhookPayload : Type 0 where
  pub version : Bytes
  pub truncated_alerts : ℤ
  pub alerts : List Alert

pub record WebhookRequest : Type 0 where
  -- the media type, if the header has one
  pub media_type : Option Bytes
  -- the first value of the body; a body that is too long or not JSON is `none`
  pub body : RawMessage
  -- whether nothing follows that value
  pub at_end : Bool

label : Bytes → Alert → Bytes
unfolding map_value
label key a = map_value key a.labels

-- a name of at most 63 bytes
unfoldable pub is_label : Bytes → Bool
unfolding dns_label_pattern matches
is_label name = not (ltb 63 (length name)) && matches dns_label_pattern name

is_identified : Alert → Bool
unfolding label fingerprint_pattern name_pattern is_label matches lit
is_identified a =
    matches fingerprint_pattern a.fingerprint
    && not (ltb 128 (length (label (lit "alertname") a)))
    && matches name_pattern (label (lit "alertname") a)
    && is_label (label (lit "namespace") a)
    && is_label (label (lit "service") a)
    && (label (lit "severity") a == lit "warning" || label (lit "severity") a == lit "critical")
    && not (is_zero a.starts_at)

firing : Alert → Signal
unfolding label lit
firing a = record {
  fingerprint = a.fingerprint;
  alert_name = label (lit "alertname") a;
  namespace = label (lit "namespace") a;
  service = label (lit "service") a;
  severity = label (lit "severity") a;
  started_at = a.starts_at;
  resolved_at = none;
  status = detected;
  trace_id = [];
  trace_parent = [];
  trace_state = [];
}

-- one turn of the loop over the alerts
signal_of : Alert → Result Bytes Signal
unfolding is_identified firing lit
signal_of a =
    if not (is_identified a)
    then err (lit "invalid Alertmanager alert identity or labels")
    else if a.status == lit "firing"
    then ok (firing a)
    else if a.status == lit "resolved"
    then (if is_zero a.ends_at || ltb a.ends_at a.starts_at
        then err (lit "resolved alert needs a valid end time")
        else ok (record (firing a) { resolved_at = some a.ends_at; status = resolved }))
    else err (lit "invalid Alertmanager alert status")

signals_of : List Alert → Result Bytes (List Signal)
unfolding signal_of
signals_of [] = ok []
signals_of (a ∷ others) =
    let rest = signals_of others in
    elim (signal_of a) [
      | err text ↦ err text
      | ok signal ↦ elim rest [ err text ↦ err text | ok signals ↦ ok (signal ∷ signals) ]
    ]

unfoldable pub accept : WebhookPayload → Result Bytes (List Signal)
unfolding signals_of eq_int lit
accept payload =
    if not (payload.version == lit "4")
      || not (eq_int payload.truncated_alerts (pos 0))
      || ltb (length payload.alerts) 1
      || ltb 50 (length payload.alerts)
    then err (lit "unsupported Alertmanager payload version or alert count")
    else signals_of payload.alerts

is_json : Option Bytes → Bool
unfolding lit
is_json none = false
is_json (some media_type) = media_type == lit "application/json"

after_body : WebhookRequest → Option WebhookPayload → Result Bytes (List Signal)
unfolding accept lit
after_body request none = err (lit "invalid Alertmanager JSON body")
after_body request (some payload) =
    if not request.at_end
    then err (lit "unexpected data after Alertmanager JSON body")
    else accept payload

module _ (parse_time : Bytes → Option Time) where
  -- Time.UnmarshalJSON: `null` and a missing member leave the zero time
  read_time : Json → Option Time
  read_time null = some zero_time
  read_time (str s) = parse_time s
  read_time v = none

  read_alert : Json → Option Alert
  unfolding string_at map_at fields read_time
  read_alert v = do
    status ← string_at ("status" ∷ []) v
    labels ← map_at ("labels" ∷ []) v
    fingerprint ← string_at ("fingerprint" ∷ []) v
    starts ← fields ("startsAt" ∷ []) v
    starts_at ← read_time starts
    ends ← fields ("endsAt" ∷ []) v
    ends_at ← read_time ends
    some (record {
      status = status;
      labels = labels;
      fingerprint = fingerprint;
      starts_at = starts_at;
      ends_at = ends_at;
    })

  unfoldable pub read_payload : Json → Option WebhookPayload
  unfolding string_at int_at list_at read_alert
  read_payload v = do
    version ← string_at ("version" ∷ []) v
    truncated_alerts ← int_at ("truncatedAlerts" ∷ []) v
    alerts ← list_at ("alerts" ∷ []) read_alert v
    some (record { version = version; truncated_alerts = truncated_alerts; alerts = alerts })

  unfoldable pub decode_webhook : WebhookRequest → Result Bytes (List Signal)
  unfolding is_json read_payload after_body unmarshal lit
  decode_webhook request =
      if not (is_json request.media_type)
      then err (lit "Content-Type must be application/json")
      else after_body request (unmarshal read_payload request.body)
