-- ===== src/Agent/Investigate/Analysis.antt =====
-- `Run` of internal/agent/agent.go in demo mode, from the first collection to the report: targeted
-- collections, the call of the model, and the analysis of its answer. The model's prompt is left out:
-- what the provider answers is a parameter, whatever it was asked.
use incident_pilot.Common.{
  ℕ, ◌+◌, Bool, Option, none, some, List, [], ◌∷◌, ◌++◌, map, length, leb, Result, ok, err,
  if◌then◌else◌, ◌>>=◌,
}
use incident_pilot.Text.{Bytes, lit}
use incident_pilot.Json.{Json, RawMessage, string_at, list_at, as_string, unmarshal}
use incident_pilot.Incident.{Incident}
use incident_pilot.Evidence
use incident_pilot.Llm.{ChatResponse, failure_code}
use incident_pilot.Agent.Types.{Report, Hypothesis, root_cause_found}
use incident_pilot.Agent.Payloads.{Floats}
use incident_pilot.Agent.Chat.{
  Turn, Counters, ChatFailure, budget_exhausted, failed, chat, max_llm_calls,
}
use incident_pilot.Agent.Verify.Cited.{id_of}
use incident_pilot.Agent.Verify.Claims.{verify_claim}
use incident_pilot.Agent.Investigate.Ids.{valid_ids, add_hypotheses}
use incident_pilot.Agent.Investigate.Targets.{Progress, collect_targets}

-- what the investigation depends on
pub record World : Type 1 where
  pub floats : Floats
  -- Collector.Collect and Collector.CollectTarget
  pub collect : Option Evidence.Report
  pub collect_target : Bytes → Bytes → Option Evidence.Report
  -- ctx.Err() in the loop and before the call of the model
  pub expired : ℕ → Bool
  pub expired_before_call : Bool
  -- the turns of the call of the model
  pub turns : ℕ → Turn
  -- encoding/json; `none` for text that is not JSON
  pub parse_json : Bytes → RawMessage

-- the answer of the model
pub record Answer : Type 0 where
  pub hypotheses : List Hypothesis
  pub suspected_component : Bytes
  pub suspected_cause : Bytes
  pub evidence_ids : List Bytes

read_hypothesis : Json → Option Hypothesis
unfolding string_at list_at as_string
read_hypothesis v = do
  statement ← string_at ("statement" ∷ []) v
  status ← string_at ("status" ∷ []) v
  ids ← list_at ("evidence_ids" ∷ []) as_string v
  some (record { statement = statement; status = status; evidence_ids = ids })

unfoldable pub read_answer : Json → Option Answer
unfolding read_hypothesis string_at list_at as_string
read_answer v = do
  hypotheses ← list_at ("hypotheses" ∷ []) read_hypothesis v
  component ← string_at ("suspected_component" ∷ []) v
  cause ← string_at ("suspected_cause" ∷ []) v
  ids ← list_at ("evidence_ids" ∷ []) as_string v
  some (record {
    hypotheses = hypotheses;
    suspected_component = component;
    suspected_cause = cause;
    evidence_ids = ids;
  })

-- the report with the reason that `finish` is given
abbrev pub finish : Report → Bytes → Report
finish report reason = record report { reason = reason }

unfoldable pub conclude : Floats → List Evidence.Record → Answer → Report → Report
unfolding add_hypotheses valid_ids verify_claim
conclude floats records answer report =
    let valid = map id_of records in
    let kept = record report {
      hypotheses = add_hypotheses valid report.hypotheses answer.hypotheses;
    } in
    let (cause, reason) =
      verify_claim floats records (valid_ids answer.evidence_ids valid) answer.suspected_component
        answer.suspected_cause in
    elim cause [
      | some found ↦
          finish (record kept { status = root_cause_found; root_cause = some found }) (lit "")
      | none ↦ finish kept (lit "root cause not verified: " ++ reason)
    ]

unfoldable pub chat_failure_code : ChatFailure → Bytes
unfolding failure_code
chat_failure_code budget_exhausted = lit "unknown"
chat_failure_code (failed e) = failure_code e

abbrev pub counters_of : Report → Counters
counters_of r = record {
  llm_calls = r.llm_calls;
  llm_retries = r.llm_retries;
  input_tokens = r.input_tokens;
  output_tokens = r.output_tokens;
}

unfoldable pub with_counters : Report → Counters → Report
with_counters r c = record r {
  llm_calls = c.llm_calls;
  llm_retries = c.llm_retries;
  input_tokens = c.input_tokens;
  output_tokens = c.output_tokens;
}

-- the records, IDs and calls of the first collection
abbrev pub start_of : Incident → Report → Evidence.Report → Progress
start_of inc report initial = record {
  records = initial.evidence;
  evidence_ids = report.evidence_ids ++ map id_of initial.evidence;
  tool_calls = report.tool_calls + (length initial.evidence + length initial.failures);
  seen = inc.service ∷ [];
  asked = [];
}

-- the report after the loop
abbrev pub gathered : Report → Progress → Report
gathered report p = record report { evidence_ids = p.evidence_ids; tool_calls = p.tool_calls }

module _ (w : World) where
  unfoldable pub after_chat :
      List Evidence.Record → Report → Result ChatFailure ChatResponse → Report
  unfolding conclude chat_failure_code read_answer unmarshal
  after_chat records report (err e) =
      finish report (lit "analysis call failed: " ++ chat_failure_code e)
  after_chat records report (ok response) =
      elim (unmarshal read_answer (World.parse_json w response.content)) [
        | none ↦ finish report (lit "invalid analysis output")
        | some answer ↦ conclude (World.floats w) records answer report
      ]

  -- two turns of the loop are enough
  unfoldable pub analyse : List Evidence.Record → Report → Option Report
  unfolding after_chat chat with_counters
  analyse records report =
      if World.expired_before_call w
      then some (finish report (lit "duration budget exhausted"))
      else if leb max_llm_calls report.llm_calls
      then some (finish report (lit "LLM call budget exhausted"))
      else do
        (counters, answer) ← chat 2 (World.turns w) 0 (counters_of report)
        some (after_chat records (with_counters report counters) answer)

  -- the report once the loop has ended, and the reason that it ended for
  unfoldable pub after_loop : Report → Progress × Option Bytes → Option Report
  unfolding analyse
  after_loop report (after, some reason) = some (finish (gathered report after) reason)
  after_loop report (after, none) = analyse after.records (gathered report after)

  -- from the new report; `none` only when the call of the model does not end
  unfoldable pub investigate : Incident → Report → Option Report
  unfolding after_loop collect_targets
  investigate inc report = elim (World.collect w) [
    | none ↦ some (finish report (lit "initial evidence unavailable"))
    | some initial ↦ after_loop report (
        collect_targets (World.floats w) inc (World.expired w) (World.collect_target w) 2
          (start_of inc report initial))
  ]
