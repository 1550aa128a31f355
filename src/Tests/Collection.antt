-- ===== src/Tests/Collection.antt =====
-- A collection for the demo's payments-api, whose Deployment is the only one that answers.
use incident_pilot.Common.{
  ◌-◌, ◌*◌, ◌≡◌, refl, true, Option, none, some, List, [], ◌∷◌, All, if◌then◌else◌, ok, err,
}
use incident_pilot.Text.{lit, ◌==◌, show_int}
use incident_pilot.Time.{day, minute}
use incident_pilot.Json.{Json}
use incident_pilot.Incident.{Incident, detected}
use incident_pilot.Onboarding.Profile.{demo, effective, allows_incident, allows_workload}
use incident_pilot.Evidence.{Report}
use incident_pilot.Evidence.Window.{window}
use incident_pilot.Evidence.Redact.{Redactor, decode_any, redact_payload}
use incident_pilot.Evidence.Redact.Inline.{scrub}
use incident_pilot.Evidence.Redact.Clean.{Clean, redact_payload-Clean}
use incident_pilot.Evidence.Summary.{Formats}
use incident_pilot.Evidence.Collector.{Collector, ToolCall, ToolObservation, collect_bounded}
use incident_pilot.Evidence.Collector.Provenance.{Accounted, collect_bounded-Accounted}
use incident_pilot.Evidence.Collector.Scope.{in_scope, collect_bounded-Scoped}
use incident_pilot.Tests.Fixtures.{text, object, within}

-- numbers are kept as they are written
abbrev redactor : Redactor
redactor = record { number = λ n. some n }

abbrev formats : Formats
formats = record {
  float = λ n. n;
  parse_time = λ s. none;
  round_second = λ n. n;
  duration = λ n. show_int n;
}

leaky : Json
unfolding object text
leaky = object (("note", text "tried token = abc, failed") ∷ ("Password", text "hunter2") ∷ [])

masked : Json
unfolding object text
masked =
    object (("Password", text "<redacted>") ∷ ("note", text "tried token=<redacted>, failed") ∷ [])

masks_both : redact_payload redactor leaky ≡ some masked
unfolding redact_payload scrub leaky masked object text lit ◌==◌
masks_both = refl

redact_payload-Clean_example :
    (read : Json) × (decode_any redactor leaky ≡ some read) × Clean read masked
redact_payload-Clean_example = redact_payload-Clean redactor leaky masks_both

-- the word boundary, the letter case, the long s, and a value that ends at a quote
scrubs :
    scrub (lit "mytoken: a \"PASSWORD: b\" tokens=c")
    ≡ lit "mytoken: a \"PASSWORD=<redacted>\" tokens=c"
unfolding scrub lit
scrubs = refl

abbrev outage : Incident
outage = record {
  id = lit "i1";
  fingerprint = lit "f";
  alert_name = lit "DemoCheckoutErrors";
  namespace = lit "incidentpilot-demo";
  service = lit "payments-api";
  severity = lit "critical";
  started_at = 400 * day - minute;
  detected_at = 400 * day;
  resolved_at = none;
  status = detected;
  trace_id = [];
  trace_parent = [];
  trace_state = [];
}

abbrev cluster : List ToolCall → ToolCall → Option ToolObservation
cluster before call =
    if call.tool == lit "kubernetes_get_deployment"
    then some (record {
      source = lit "kubernetes/deployment";
      collected_at = 400 * day;
      raw = some (some (within ("spec" ∷ "token" ∷ []) (text "abc")));
      text = [];
    })
    else none

abbrev collector : Collector
collector = record {
  configured = true;
  now = 400 * day;
  profile = demo;
  call = cluster;
  save_batch = λ batch. true;
  new_id = λ n. n ∷ [];
  redactor = redactor;
  formats = formats;
  size = λ v. 100;
  format_time = λ t. t ∷ [];
}

collected : Report
unfolding collect_bounded demo lit ◌==◌
collected = elim (collect_bounded collector outage (lit "payments-api") (lit "error_rate") true).0 [
  | ok report ↦ report
  | err e ↦ record {
    collection_id = [];
    incident_id = [];
    window_start = 0;
    window_end = 0;
    evidence = [];
    failures = [];
  }
]

collects :
    (collect_bounded collector outage (lit "payments-api") (lit "error_rate") true).0 ≡ ok collected
unfolding collect_bounded collected demo lit ◌==◌ within text
collects = refl

collect_bounded-Accounted_example :
    (allows_incident
        (effective demo)
        (lit "incidentpilot-demo")
        (lit "payments-api")
        (lit "DemoCheckoutErrors")
      ≡ true)
    × (allows_workload (effective demo) (lit "payments-api") ≡ true)
    × Accounted collector outage collected
        (collect_bounded collector outage (lit "payments-api") (lit "error_rate") true).1
collect_bounded-Accounted_example =
    collect_bounded-Accounted collector outage (lit "payments-api") (lit "error_rate") true collects

outage_is_recent : window outage (400 * day) ≡ some (400 * day - 3 * minute, 400 * day)
unfolding window
outage_is_recent = refl

collect_bounded-Scoped_example :
    All
      (λ call.
        in_scope (lit "payments-api") ((400 * day - 3 * minute) ∷ []) ((400 * day) ∷ []) call
        ≡ true)
      (collect_bounded collector outage (lit "payments-api") (lit "error_rate") true).1
collect_bounded-Scoped_example =
    collect_bounded-Scoped collector outage (lit "payments-api") (lit "error_rate") true
      outage_is_recent
