-- ===== src/Tests/Reports.antt =====
-- Claims, the call of the model, and an investigation from its first collection to its report.
use incident_pilot.Common.{
  ◌≡◌, refl, ◌⊎◌, ◌+◌, ◌*◌, ◌≤◌, ◌<◌, ◌≢◌, ℕ, zero, suc, false, some, none, Option, List, [], ◌∷◌,
  All, ok, err, arith, length,
}
use incident_pilot.Common.Int.{pos, eq_int, lt_int, add64}
use incident_pilot.Text.{Bytes, lit, ◌==◌, equal_fold}
use incident_pilot.Text.Regex.{matches}
use incident_pilot.Time.{second, minute, hour, day}
use incident_pilot.Json.{Json}
use incident_pilot.Incident
use incident_pilot.Evidence
use incident_pilot.Evidence.Window.{EndsAt, window, window_bounds}
use incident_pilot.Llm.{ChatResponse, http_failure}
use incident_pilot.Agent.Types.{
  Report, Hypothesis, root_cause_found, insufficient_evidence, cause_memory_limit_oom,
}
use incident_pilot.Agent.Payloads.{pods_show_oom, deployment_memory_limit}
use incident_pilot.Agent.Patterns.{memory_limit_pattern}
use incident_pilot.Agent.Chat.{Turn, Counters, chat, chat_ends, chat_budget, Counted}
use incident_pilot.Agent.Verify.Cited.{is_cited}
use incident_pilot.Agent.Verify.Oom.{verify_oom}
use incident_pilot.Agent.Verify.Claims.{
  verify_claim, supported_cause, evidence_already_supports_cause,
}
use incident_pilot.Agent.Verify.Sound.{Grounded, verify_claim-Holds}
use incident_pilot.Agent.Verify.Agreement.{supported_cause-verify_claim}
use incident_pilot.Agent.Investigate.Ids.{add_hypotheses, Settled, add_hypotheses-Settled}
use incident_pilot.Agent.Investigate.Targets.{
  Progress, Collected, collect_targets, collect_targets-Collected,
}
use incident_pilot.Agent.Investigate.Analysis.{World, investigate}
use incident_pilot.Agent.Investigate.Sound.{Sound, investigate-Sound}
use incident_pilot.Tests.Fixtures.{text, list_of, object, oom_pods, oom_deployment, whole_numbers}
use incident_pilot.Tests.Causes.{oom_records, oom_cited, oom_cause}

verify_claim-Holds_example :
    (oom_cause.component ≡ lit "payments-api")
    × (oom_cause.cause ≡ cause_memory_limit_oom)
    × All (Grounded oom_records oom_cited) oom_cause.evidence_ids
unfolding verify_claim verify_oom is_cited pods_show_oom deployment_memory_limit matches
    memory_limit_pattern oom_pods oom_deployment equal_fold lit ◌==◌ cause_memory_limit_oom
verify_claim-Holds_example =
    verify_claim-Holds whole_numbers oom_records oom_cited (lit "payments-api")
      cause_memory_limit_oom refl

oom_supported : supported_cause whole_numbers oom_records oom_cited ≡ some oom_cause
unfolding supported_cause verify_oom is_cited pods_show_oom deployment_memory_limit matches
    memory_limit_pattern oom_pods oom_deployment equal_fold lit ◌==◌ cause_memory_limit_oom
oom_supported = refl

supported_cause-verify_claim_example :
    verify_claim whole_numbers oom_records oom_cited oom_cause.component oom_cause.cause
    ≡ (some oom_cause, lit "")
supported_cause-verify_claim_example =
    supported_cause-verify_claim whole_numbers oom_records oom_cited oom_supported

abbrev answer_text : ChatResponse
answer_text = record { content = lit "{}"; input_tokens = pos 900; output_tokens = pos 80 }

-- a rate limit, then an answer
abbrev limited : ℕ → Turn
limited zero = record {
  expired = none;
  answer = err (http_failure (pos 429) (pos second) []);
  too_late = false;
  interrupted = none;
}
limited (suc n) = record {
  expired = none;
  answer = ok answer_text;
  too_late = false;
  interrupted = none;
}

abbrev uncounted : Counters
uncounted = record { llm_calls = 0; llm_retries = 0; input_tokens = pos 0; output_tokens = pos 0 }

chat_ends_example : chat 2 limited 0 uncounted ≢ none
chat_ends_example = chat_ends limited uncounted

abbrev counted : Counters
counted = record { llm_calls = 2; llm_retries = 1; input_tokens = pos 900; output_tokens = pos 80 }

chat_budget_example : Counted uncounted counted (ok answer_text)
unfolding chat eq_int lt_int add64
chat_budget_example = chat_budget 2 limited 0 uncounted (omega arith) (omega arith) refl

abbrev abc : List Bytes
abc = lit "a" ∷ lit "b" ∷ lit "c" ∷ []

abbrev guess : Hypothesis
guess = record { statement = lit "a leak"; status = lit "certain"; evidence_ids = lit "c" ∷ [] }

add_hypotheses-Settled_example :
    (length (add_hypotheses abc [] (guess ∷ guess ∷ [])) ≤ 5)
    × All (Settled abc) (add_hypotheses abc [] (guess ∷ guess ∷ []))
add_hypotheses-Settled_example = add_hypotheses-Settled abc [] (guess ∷ guess ∷ []) (omega arith) tt

abbrev pub checkout : Incident.Incident
checkout = record {
  id = lit "i";
  fingerprint = lit "f";
  alert_name = lit "DemoCheckoutErrors";
  namespace = lit "incidentpilot-demo";
  service = lit "frontend";
  severity = lit "critical";
  started_at = 400 * day;
  detected_at = 400 * day;
  resolved_at = none;
  status = Incident.detected;
  trace_id = [];
  trace_parent = [];
  trace_state = [];
}

-- the same incident, resolved two hours after it started
abbrev resolved_checkout : Incident.Incident
resolved_checkout = record checkout {
  resolved_at = some (400 * day + 2 * hour);
  status = Incident.resolved;
}

window_bounds_example :
    EndsAt (400 * day + 3 * hour) (400 * day + 2 * hour) (some (400 * day + 2 * hour))
    × ((400 * day + hour + 2 * minute ≡ 400 * day)
          × (400 * day + 2 * hour ≤ 400 * day + hour + hour)
        ⊎ (400 * day + hour + hour ≡ 400 * day + 2 * hour)
          × (400 * day < 400 * day + hour + 2 * minute))
    × (400 * day + hour < 400 * day + 2 * hour)
    × (400 * day ≤ 400 * day + 2 * hour + 30 * second)
    × (400 * day + 3 * hour ≤ 400 * day + day)
    × (400 * day + 3 * hour ≤ 400 * day + 2 * hour + day)
unfolding window
window_bounds_example = window_bounds resolved_checkout (400 * day + 3 * hour) (omega arith) refl

abbrev collection : List Evidence.Record → Evidence.Report
collection records = record {
  collection_id = lit "c";
  incident_id = lit "i";
  window_start = 400 * day;
  window_end = 400 * day + hour;
  evidence = records;
  failures = [];
}

-- the first workload has nothing to show, the second the pods and the Deployment
abbrev collects : Bytes → Bytes → Option Evidence.Report
collects workload metric = some (collection oom_records)

abbrev unstarted : Progress
unstarted = record {
  records = [];
  evidence_ids = [];
  tool_calls = 0;
  seen = lit "frontend" ∷ [];
  asked = [];
}

collect_targets-Collected_example :
    Collected whole_numbers checkout
      (λ n. false)
      collects
      2
      unstarted
      (collect_targets whole_numbers checkout (λ n. false) collects 2 unstarted).0
collect_targets-Collected_example =
    collect_targets-Collected whole_numbers checkout (λ n. false) collects 2 unstarted

-- the model's answer, once parsed
abbrev analysis : Json
analysis = object (
    ("suspected_component", text "payments-api")
    ∷ ("suspected_cause", text "memory_limit_oom")
    ∷ ("evidence_ids", list_of (text "p1" ∷ text "d1" ∷ text "p1" ∷ []))
    ∷ [])

abbrev world : World
world = record {
  floats = whole_numbers;
  collect = some (collection oom_records);
  collect_target = collects;
  expired = λ n. false;
  expired_before_call = false;
  turns = limited;
  parse_json = λ s. some analysis;
}

abbrev pub unwritten : Report
unwritten = record {
  id = lit "r";
  incident_id = lit "i";
  status = insufficient_evidence;
  started_at = 400 * day;
  completed_at = 0;
  hypotheses = [];
  root_cause = none;
  evidence_ids = [];
  llm_calls = 0;
  llm_retries = 0;
  input_tokens = pos 0;
  output_tokens = pos 0;
  tool_calls = 0;
  reason = [];
  trace_id = [];
}

abbrev pub written : Report
written = record unwritten {
  status = root_cause_found;
  root_cause = some oom_cause;
  evidence_ids = lit "p1" ∷ lit "d1" ∷ [];
  llm_calls = 2;
  llm_retries = 1;
  input_tokens = pos 900;
  output_tokens = pos 80;
  tool_calls = 2;
}

investigated : investigate world checkout unwritten ≡ some written
unfolding investigate verify_oom is_cited pods_show_oom deployment_memory_limit matches
    memory_limit_pattern oom_pods oom_deployment equal_fold lit ◌==◌ cause_memory_limit_oom object
    list_of text eq_int lt_int add64 supported_cause verify_claim evidence_already_supports_cause
investigated = refl

investigate-Sound_example : Sound written
investigate-Sound_example =
    investigate-Sound world checkout unwritten
      (record {
        no_hypotheses = refl;
        no_cause = refl;
        unfound = refl;
        calls = omega arith;
        retries = omega arith;
      })
      refl investigated
