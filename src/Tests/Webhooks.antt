-- ===== src/Tests/Webhooks.antt =====
-- A webhook with one resolved alert.
use incident_pilot.Common.{
  ◌≡◌, refl, true, false, Option, none, some, List, [], ◌∷◌, ok, err, length, ◌*◌, if◌then◌else◌,
}
use incident_pilot.Text.{Bytes, lit, ◌==◌, equal_fold}
use incident_pilot.Time.{Time, day}
use incident_pilot.Json.{Json}
use incident_pilot.Incident.{Signal}
use incident_pilot.Webhook.{WebhookRequest, decode_webhook}
use incident_pilot.Webhook.Valid.{Decoded, decode_webhook-Decoded}
use incident_pilot.Tests.Fixtures.{text, number, object, list_of}

-- times are days
abbrev parse_time : Bytes → Option Time
parse_time s = if s == lit "day 400" then some (400 * day) else none

posted : Json
unfolding object text number list_of lit
posted = object (
    ("version", text "4")
    ∷ (
      "alerts",
      list_of (
          object (
            ("status", text "resolved")
            ∷ ("fingerprint", text "0123456789abcdef")
            ∷ ("startsAt", text "day 400")
            ∷ ("endsAt", text "day 400")
            ∷ (
              "labels",
              object (
                  ("alertname", text "DemoCheckoutErrors")
                  ∷ ("namespace", text "incidentpilot-demo")
                  ∷ ("service", text "payments-api")
                  ∷ ("severity", text "critical")
                  ∷ []),
            )
            ∷ [])
          ∷ []),
    )
    ∷ [])

abbrev webhook : WebhookRequest
webhook = record { media_type = some (lit "application/json"); body = some posted; at_end = true }

decoded : List Signal
unfolding decode_webhook posted lit ◌==◌
decoded = elim (decode_webhook parse_time webhook) [ ok signals ↦ signals | err e ↦ [] ]

decodes : decode_webhook parse_time webhook ≡ ok decoded
unfolding decode_webhook decoded posted object text number list_of lit ◌==◌ equal_fold
decodes = refl

one_signal : length decoded ≡ 1
unfolding decode_webhook decoded posted object text number list_of lit ◌==◌ equal_fold
one_signal = refl

trailing_data_refused :
    decode_webhook parse_time (record webhook { at_end = false })
    ≡ err (lit "unexpected data after Alertmanager JSON body")
unfolding decode_webhook posted object text number list_of lit ◌==◌ equal_fold
trailing_data_refused = refl

decode_webhook-Decoded_example : Decoded parse_time webhook decoded
decode_webhook-Decoded_example = decode_webhook-Decoded parse_time webhook decodes
