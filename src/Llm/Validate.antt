-- ===== src/Llm/Validate.antt =====
-- `validateRequest`, `validateResponse` and `jsonObject` of internal/llm/llm.go. An invalid answer is
-- told by its code. The parser of a message's content is a parameter.
pub mod Valid
use incident_pilot.Common.{
  ℕ, Bool, true, false, not, ◌&&◌, ◌||◌, Option, none, some, List, [], ◌∷◌, length, any, ltb, map,
  if◌then◌else◌,
}
use incident_pilot.Common.Int.{ℤ, pos, lt_int}
use incident_pilot.Text.{Bytes, lit, ◌==◌, trim_space}
use incident_pilot.Json.{Json, RawMessage, obj}

pub record ToolDefinition : Type 0 where
  pub name : Bytes
  pub description : Bytes
  pub parameters : RawMessage

pub record ToolCall : Type 0 where
  pub id : Bytes
  pub name : Bytes
  pub arguments : RawMessage

-- a role is a text, since one beyond the four is handled
pub record Message : Type 0 where
  pub role : Bytes
  pub content : Bytes
  pub tool_call_id : Bytes
  pub tool_name : Bytes
  pub tool_calls : List ToolCall

-- `json_schema` is empty (`none`), or a text; a text that is not JSON is `some none`
pub record ChatRequest : Type 0 where
  pub model : Bytes
  pub messages : List Message
  pub tools : List ToolDefinition
  pub tool_choice : Bytes
  pub json_output : Bool
  pub json_schema : Option RawMessage
  pub max_tokens : ℤ

unfoldable pub json_object : RawMessage → Bool
json_object (some (obj ms)) = true
json_object raw = false

unfoldable pub has_key : List Bytes → Bytes → Bool
unfolding any
has_key keys k = any (λ j. j == k) keys

unfoldable pub no_calls : List ToolCall → Bool
no_calls [] = true
no_calls (c ∷ cs) = false

-- the loop over the tools, with the names seen
unfoldable pub tools_are_valid : List Bytes → List ToolDefinition → Bool
unfolding has_key json_object
tools_are_valid seen [] = true
tools_are_valid seen (t ∷ ts) =
    let rest = tools_are_valid (t.name ∷ seen) ts in
    if t.name == []
      || ltb 64 (length t.name)
      || has_key seen t.name
      || not (json_object t.parameters)
    then false
    else rest

unfoldable pub prior_calls_are_valid : List ToolCall → Bool
unfolding json_object
prior_calls_are_valid [] = true
prior_calls_are_valid (c ∷ cs) =
    let rest = prior_calls_are_valid cs in
    if c.id == [] || c.name == [] || not (json_object c.arguments) then false else rest

unfoldable pub message_error : Message → Option Bytes
unfolding no_calls prior_calls_are_valid lit
message_error m =
    if m.role == lit "system" || m.role == lit "user"
    then (if m.content == [] || not (m.tool_call_id == []) || not (no_calls m.tool_calls)
        then some (lit "invalid system or user message")
        else none)
    else if m.role == lit "assistant"
    then (if m.content == [] && no_calls m.tool_calls
        then some (lit "empty assistant message")
        else if not (prior_calls_are_valid m.tool_calls)
        then some (lit "invalid prior tool call")
        else none)
    else if m.role == lit "tool"
    then (if m.tool_call_id == []
          || m.tool_name == []
          || m.content == []
          || not (no_calls m.tool_calls)
        then some (lit "invalid tool result")
        else none)
    else some (lit "unknown role")

messages_error : List Message → Option Bytes
unfolding message_error
messages_error [] = none
messages_error (m ∷ ms) =
    let rest = messages_error ms in elim (message_error m) [ some text ↦ some text | none ↦ rest ]

unfoldable pub no_tools : List ToolDefinition → Bool
no_tools [] = true
no_tools (t ∷ ts) = false

-- the schema is there without structured output, or is no object
schema_misplaced : ChatRequest → Bool
unfolding json_object
schema_misplaced req = elim req.json_schema [
  | none ↦ false
  | some schema ↦ not req.json_output || not (json_object schema)
]

-- the error's text, which follows "invalid LLM request: "
unfoldable pub validate_request : ChatRequest → Option Bytes
unfolding trim_space lt_int no_tools schema_misplaced tools_are_valid messages_error lit
validate_request req =
    if trim_space req.model == []
      || ltb 128 (length req.model)
      || ltb (length req.messages) 1
      || ltb 64 (length req.messages)
      || ltb 16 (length req.tools)
      || lt_int req.max_tokens (pos 0)
      || lt_int (pos 8192) req.max_tokens
    then some (lit "model, message, tool, or token limit")
    else if not (req.tool_choice == [])
        && not (req.tool_choice == lit "none")
        && not (req.tool_choice == lit "auto")
        && not (req.tool_choice == lit "required")
    then some (lit "unknown tool choice")
    else if req.tool_choice == lit "required" && no_tools req.tools
    then some (lit "required tools are missing")
    else if req.tool_choice == lit "none" && not (no_tools req.tools)
    then some (lit "tools supplied with none choice")
    else if req.json_output && not (no_tools req.tools)
    then some (lit "JSON output and tool calling must use separate turns")
    else if schema_misplaced req
    then some (lit "JSON schema requires structured JSON output")
    else if not (tools_are_valid [] req.tools)
    then some (lit "invalid or duplicate tool definition")
    else messages_error req.messages

-- the loop over the calls of an answer, with the IDs seen
unfoldable pub calls_error : List Bytes → List Bytes → List ToolCall → Option Bytes
unfolding has_key json_object lit
calls_error allowed seen [] = none
calls_error allowed seen (c ∷ cs) =
    let rest = calls_error allowed (c.id ∷ seen) cs in
    if c.id == [] || has_key seen c.id
    then some (lit "invalid_tool_call_id")
    else if not (has_key allowed c.name)
    then some (lit "unadvertised_tool")
    else if not (json_object c.arguments)
    then some (lit "invalid_tool_arguments")
    else rest

module _ (parse_json : Bytes → RawMessage) where
  -- the code of the invalidResponseError
  unfoldable pub validate_response : ChatRequest → Message → Option Bytes
  unfolding no_calls no_tools calls_error json_object lit
  validate_response req message =
      if not (message.role == lit "assistant")
        || (message.content == [] && no_calls message.tool_calls)
      then some (lit "missing_assistant_output")
      else if req.tool_choice == lit "required" && no_calls message.tool_calls
      then some (lit "required_tool_call_missing")
      else if (req.tool_choice == lit "none" || no_tools req.tools)
          && not (no_calls message.tool_calls)
      then some (lit "unexpected_tool_call")
      else elim (calls_error (map (λ t. t.name) req.tools) [] message.tool_calls) [
        | some code ↦ some code
        | none ↦
            if req.json_output
              && (not (no_calls message.tool_calls)
                  || not (json_object (parse_json message.content)))
            then some (lit "structured_json_missing")
            else none
      ]
