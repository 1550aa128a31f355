-- ===== src/Policy/Evaluator.antt =====
-- `Evaluate` of internal/policy/evaluator.go. The policy engine is a parameter: its result set, a list
-- of the values of each result's expressions, or an error.
use incident_pilot.Common.{
  Bool, true, false, not, ◌&&◌, ◌||◌, Option, none, some, List, [], ◌∷◌, length, ltb, Result, ok,
  err, if◌then◌else◌, ◌>>=◌,
}
use incident_pilot.Text.{Bytes, lit, ◌==◌}
use incident_pilot.Json.{Json, Members, bool, str, arr, obj, elements, end, member}
use incident_pilot.Time.{zero_time}
use incident_pilot.Remediation.Types.{PolicyInput, PolicyDecision}

-- value[key], for a value of type map[string]any: `none` for nil
unfoldable pub value_at : Bytes → Members → Option Json
value_at key end = none
value_at key (member k v ms) = let rest = value_at key ms in if k == key then some v else rest

-- the type assertions .(bool), .([]any) and .(string)
to_bool : Option Json → Option Bool
to_bool (some (bool b)) = some b
to_bool v = none

to_slice : Option Json → Option (List Json)
unfolding elements
to_slice (some (arr vs)) = some (elements vs)
to_slice v = none

to_text : Json → Option Bytes
to_text (str s) = some s
to_text v = none

-- the loop over the reasons
unfoldable pub read_reasons : List Json → Option (List Bytes)
unfolding to_text
read_reasons [] = some []
read_reasons (v ∷ vs) = do
  reason ← to_text v
  rest ← read_reasons vs
  if reason == [] || ltb 128 (length reason) then none else some (reason ∷ rest)

abbrev pub no_reasons : List Bytes → Bool
no_reasons [] = true
no_reasons (r ∷ rs) = false

unfoldable pub remediation_version : Bytes
remediation_version = lit "phase10-v1"

judge : Bool → List Bytes → Result Bytes PolicyDecision
unfolding remediation_version
judge allowed reasons =
    if (allowed && not (no_reasons reasons)) || (not allowed && no_reasons reasons)
    then err (lit "remediation policy returned an inconsistent decision")
    else ok (record {
      id = [];
      allowed = allowed;
      reasons = reasons;
      policy_version = remediation_version;
      evaluated_at = zero_time;
    })

read_decision : Members → Result Bytes PolicyDecision
unfolding value_at to_bool to_slice read_reasons judge
read_decision value = elim (to_bool (value_at (lit "allow") value)) [
  | none ↦ err (lit "remediation policy omitted allow")
  | some allowed ↦ elim (to_slice (value_at (lit "reasons") value)) [
    | none ↦ err (lit "remediation policy omitted reasons")
    | some values ↦ elim (read_reasons values) [
      | none ↦ err (lit "remediation policy returned an invalid reason")
      | some reasons ↦ judge allowed reasons
    ]
  ]
]

read_results : List (List Json) → Result Bytes PolicyDecision
unfolding read_decision
read_results ((obj value ∷ []) ∷ []) = read_decision value
read_results ((v ∷ []) ∷ []) = err (lit "remediation policy returned an invalid decision")
read_results results = err (lit "remediation policy returned no single decision")

unfoldable pub evaluate :
    (PolicyInput → Result Bytes (List (List Json))) → PolicyInput → Result Bytes PolicyDecision
unfolding read_results
evaluate engine input = elim (engine input) [
  | err text ↦ err text
  | ok results ↦ read_results results
]
