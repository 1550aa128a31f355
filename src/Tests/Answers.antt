-- ===== src/Tests/Answers.antt =====
-- An answer of a model that calls the one tool of its request.
use incident_pilot.Common.{◌≡◌, refl, false, none, some, [], ◌∷◌}
use incident_pilot.Common.Int.{pos}
use incident_pilot.Text.{lit, ◌==◌}
use incident_pilot.Json.{obj, end}
use incident_pilot.Llm.Validate.{
  ToolCall, Message, ChatRequest, validate_request, validate_response,
}
use incident_pilot.Llm.Validate.Valid.{ValidResponse, validate_response-ValidResponse}

abbrev question : ChatRequest
question = record {
  model = lit "llama";
  messages =
      record {
        role = lit "user";
        content = lit "why";
        tool_call_id = [];
        tool_name = [];
        tool_calls = [];
      }
      ∷ [];
  tools = record { name = lit "logs"; description = []; parameters = some (obj end) } ∷ [];
  tool_choice = lit "required";
  json_output = false;
  json_schema = none;
  max_tokens = pos 100;
}

abbrev reply_with : ToolCall → Message
reply_with call = record {
  role = lit "assistant";
  content = [];
  tool_call_id = [];
  tool_name = [];
  tool_calls = call ∷ [];
}

abbrev logs_call : ToolCall
logs_call = record { id = lit "1"; name = lit "logs"; arguments = some (obj end) }

question_accepted : validate_request question ≡ none
unfolding validate_request lit ◌==◌
question_accepted = refl

other_tool_refused :
    validate_response (λ s. none) question (reply_with (record logs_call { name = lit "exec" }))
    ≡ some (lit "unadvertised_tool")
unfolding validate_response lit ◌==◌
other_tool_refused = refl

logs_accepted : validate_response (λ s. none) question (reply_with logs_call) ≡ none
unfolding validate_response lit ◌==◌
logs_accepted = refl

validate_response-ValidResponse_example : ValidResponse (λ s. none) question (reply_with logs_call)
validate_response-ValidResponse_example =
    validate_response-ValidResponse (λ s. none) question (reply_with logs_call) logs_accepted
