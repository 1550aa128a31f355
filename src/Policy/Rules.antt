-- ===== src/Policy/Rules.antt =====
-- policies/remediation.rego. `deny` is a set, so its reasons are listed without repetition, and
-- `decision` sorts them.
use incident_pilot.Common.{Bool, true, false, not, ◌||◌, List, [], ◌∷◌, if◌then◌else◌}
use incident_pilot.Text.{Bytes, lit, ◌==◌}
use incident_pilot.Json.{Json, Items, bool, str, arr, obj, nil, cons, end, member}
use incident_pilot.Sorting.{sort}
use incident_pilot.Remediation.Types.{PolicyInput}

-- the rules for `deny`, the three for unsupported_target in one
unfoldable pub rules : PolicyInput → List (Bool × Bytes)
rules i =
    (not (i.environment == lit "development"), lit "environment_not_development")
    ∷ (not i.repository_allowed, lit "repository_not_allowed")
    ∷ (not i.path_allowed, lit "path_not_allowed")
    ∷ (i.protected_namespace, lit "protected_namespace")
    ∷ (i.secret_target, lit "secret_target")
    ∷ (i.direct_mutation, lit "direct_cluster_mutation")
    ∷ (i.destructive, lit "destructive_operation")
    ∷ (not i.evidence_verified, lit "evidence_not_verified")
    ∷ (not (i.root_cause == lit "memory_limit_oom"), lit "unsupported_root_cause")
    ∷ (not (i.operation == lit "update_resource_limit"), lit "unsupported_operation")
    ∷ (
      not (i.target_kind == lit "Deployment")
          || not (i.target_name == lit "payments-api")
          || not (i.container == lit "payments-api"),
      lit "unsupported_target",
    )
    ∷ (not (i.field == lit "memory_limit"), lit "unsupported_field")
    ∷ (not i.resource_change_safe, lit "unsafe_resource_change")
    ∷ []

-- the reasons of the rules that apply
unfoldable pub reasons_of : List (Bool × Bytes) → List Bytes
reasons_of [] = []
reasons_of ((applies, reason) ∷ rest) =
    let others = reasons_of rest in if applies then reason ∷ others else others

unfoldable pub deny : PolicyInput → List Bytes
unfolding rules reasons_of
deny i = reasons_of (rules i)

abbrev is_empty : List Bytes → Bool
is_empty [] = true
is_empty (x ∷ xs) = false

-- allow if count(deny) == 0
unfoldable pub allow : PolicyInput → Bool
allow i = is_empty (deny i)

unfoldable pub strings : List Bytes → Items
strings [] = nil
strings (s ∷ ss) = cons (str s) (strings ss)

-- the value that the query for `decision` yields
unfoldable pub decision : PolicyInput → Json
unfolding allow strings
decision i = obj (
    member (lit "allow") (bool (allow i))
      (member (lit "reasons") (arr (strings (sort (deny i)))) end))
