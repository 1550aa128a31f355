-- ===== src/Tests/Changes.antt =====
-- A remediation request from its validation to its pull request, and the policy on its own.
use mathlib.Core.List.{Perm}
use incident_pilot.Common.{◌≡◌, refl, ◌↔◌, true, false, some, none, Bool, [], ◌∷◌, ok, err, Memᴰ}
use incident_pilot.Common.Int.{pos, lt_int}
use incident_pilot.Text.{
  lit, ◌==◌, equal_fold, contains, trim_space, valid_utf8, has_prefix, parse_int,
}
use incident_pilot.Text.Regex.{matches}
use incident_pilot.Time.{zero_time}
use incident_pilot.Sorting.{sort}
use incident_pilot.Agent.Types
use incident_pilot.Policy.Rules.{allow, deny, decision}
use incident_pilot.Policy.Evaluator.{evaluate, remediation_version}
use incident_pilot.Policy.Decisions.{Permitted, allow_iff, evaluate-decision}
use incident_pilot.Remediation.Types.{
  Request, Config, PolicyInput, PolicyDecision, Proposal, PullRequest, Outcome, policy_allowed,
  pr_created, pr_failed,
}
use incident_pilot.Remediation.Patterns.{
  dns_label_pattern, repository_pattern, path_pattern, operation_pattern, branch_pattern,
  commit_pattern,
}
use incident_pilot.Remediation.Memory.{memory_mib, deployment_memory_limit, derive_policy_input}
use incident_pilot.Remediation.SameIds.{same_ids, same_ids_iff}
use incident_pilot.Remediation.Validate.{ids_are_valid, validate_request}
use incident_pilot.Remediation.Validate.Sound.{Valid, validate_request-Valid}
use incident_pilot.Remediation.Service.Asked.{Asked}
use incident_pilot.Remediation.Service.{
  Services, create_pr, valid_created_pull_request, request_remediation,
}
use incident_pilot.Remediation.Service.Gate.{Cleared, creates, request_remediation-Cleared}
use incident_pilot.Remediation.Service.Safety.{
  Bounded, derive_policy_input-Bounded, request_remediation-Bounded,
}
use incident_pilot.Remediation.Service.Results.{Consistent, request_remediation-Consistent}
use incident_pilot.Tests.Fixtures.{oom_pods, oom_deployment}
use incident_pilot.Tests.Causes.{oom_records}
use incident_pilot.Tests.Reports.{written}

abbrev manifest : Config
manifest = record {
  environment = lit "development";
  repository = lit "demo/repo";
  allowed_path = lit "payments.yaml";
}

abbrev change : Request
change = record {
  incident_id = lit "i";
  investigation_id = lit "r";
  operation = lit "update_resource_limit";
  target = record {
    repository = lit "demo/repo";
    path = lit "payments.yaml";
    namespace = lit "incidentpilot-demo";
    kind = lit "Deployment";
    name = lit "payments-api";
    container = lit "payments-api";
  };
  change = record { field = lit "memory_limit"; before = lit "128Mi"; after = lit "256Mi" };
  reason = lit "it needs more memory";
  evidence_ids = lit "d1" ∷ lit "p1" ∷ [];
}

-- a pull request that passes the checks
abbrev opened : Proposal → PolicyDecision → PullRequest × Bool
opened proposal decision = (
  record {
    id = [];
    status = pr_failed;
    repository = lit "demo/repo";
    base_branch = lit "main";
    head_branch = lit "raise-limit";
    number = pos 7;
    url = lit "https://github.example/7";
    commit_sha = lit "0123456789012345678901234567890123456789";
    reused = false;
    failure_code = [];
    created_at = 0;
  },
  false,
)

abbrev services : Services
services = record {
  configured = true;
  config = manifest;
  get_investigation = λ id. ok written;
  evidence_for_remediation = λ incident ids. ok oom_records;
  evaluate = evaluate (λ i. ok ((decision i ∷ []) ∷ []));
  executor = some opened;
  save = λ outcome input. true;
  get_remediation = λ id. err [];
  uuid_ok = λ id. true;
  new_id = λ n. lit "id";
  now = 0;
  trace_id = [];
}

calls_executor : creates (request_remediation services change).1 ≡ true
unfolding creates request_remediation validate_request ids_are_valid same_ids sort
    deployment_memory_limit derive_policy_input memory_mib evaluate decision matches
    dns_label_pattern repository_pattern path_pattern operation_pattern contains trim_space
    valid_utf8 equal_fold parse_int lit ◌==◌ oom_pods oom_deployment Types.cause_memory_limit_oom
    deny
calls_executor = refl

request_remediation-Cleared_example : Cleared services change
request_remediation-Cleared_example = request_remediation-Cleared services change calls_executor

abbrev raised : Outcome
raised = record {
  proposal = record {
    id = lit "id";
    incident_id = lit "i";
    investigation_id = lit "r";
    operation = change.operation;
    target = change.target;
    change = change.change;
    reason = change.reason;
    evidence_ids = change.evidence_ids;
    status = pr_created;
    created_at = 0;
  };
  decision = record {
    id = lit "id";
    allowed = true;
    reasons = [];
    policy_version = remediation_version;
    evaluated_at = 0;
  };
  pull_request = some (record {
    id = lit "id";
    status = pr_created;
    repository = lit "demo/repo";
    base_branch = lit "main";
    head_branch = lit "raise-limit";
    number = pos 7;
    url = lit "https://github.example/7";
    commit_sha = lit "0123456789012345678901234567890123456789";
    reused = false;
    failure_code = [];
    created_at = 0;
  });
  audit = record {
    id = lit "id";
    incident_id = lit "i";
    actor = lit "incidentpilot-remediation";
    action = lit "request_remediation";
    resource = lit "incidentpilot-demo/Deployment/payments-api";
    decision = policy_allowed;
    policy_version = remediation_version;
    trace_id = [];
    outcome = lit "pr_created";
    created_at = 0;
  };
}

returns_outcome : (request_remediation services change).0 ≡ ok raised
unfolding request_remediation validate_request ids_are_valid same_ids sort deployment_memory_limit
    derive_policy_input memory_mib evaluate decision matches dns_label_pattern repository_pattern
    path_pattern operation_pattern branch_pattern commit_pattern contains trim_space valid_utf8
    equal_fold parse_int lt_int has_prefix valid_created_pull_request lit ◌==◌ oom_pods
    oom_deployment Types.cause_memory_limit_oom deny remediation_version
returns_outcome = refl

request_remediation-Consistent_example : Consistent services change raised
request_remediation-Consistent_example =
    request_remediation-Consistent services change raised returns_outcome

-- what the executor is given
abbrev given_change : Proposal
given_change = record raised.proposal { status = pr_failed }

asks_executor :
    Memᴰ (create_pr given_change raised.decision) (request_remediation services change).1
unfolding request_remediation validate_request ids_are_valid same_ids sort deployment_memory_limit
    derive_policy_input memory_mib evaluate decision matches dns_label_pattern repository_pattern
    path_pattern operation_pattern branch_pattern commit_pattern contains trim_space valid_utf8
    equal_fold parse_int lt_int has_prefix valid_created_pull_request lit ◌==◌ oom_pods
    oom_deployment Types.cause_memory_limit_oom deny remediation_version
asks_executor = Memᴰ.tail (Memᴰ.tail (Memᴰ.tail (Memᴰ.head refl)))

request_remediation-Bounded_example :
    Asked change given_change raised.decision
    × (c : Cleared services change) × Bounded services.config change c.cause.cause
        (deployment_memory_limit c.records)
request_remediation-Bounded_example =
    request_remediation-Bounded services change (λ i. refl) given_change raised.decision
      asks_executor

change_valid : validate_request (λ id. true) change ≡ none
unfolding validate_request ids_are_valid matches dns_label_pattern repository_pattern path_pattern
    operation_pattern contains trim_space valid_utf8 lit ◌==◌
change_valid = refl

validate_request-Valid_example : Valid (λ id. true) change
validate_request-Valid_example = validate_request-Valid (λ id. true) change change_valid

same_ids_iff_example :
    (same_ids (lit "d1" ∷ lit "p1" ∷ []) (lit "p1" ∷ lit "d1" ∷ []) ≡ true)
    ↔ Perm (lit "d1" ∷ lit "p1" ∷ []) (lit "p1" ∷ lit "d1" ∷ [])
same_ids_iff_example = same_ids_iff (lit "d1" ∷ lit "p1" ∷ []) (lit "p1" ∷ lit "d1" ∷ [])

abbrev asked : PolicyInput
asked = derive_policy_input manifest change (lit "memory_limit_oom") (lit "128Mi")

allow_iff_example : (allow asked ≡ true) ↔ Permitted asked
allow_iff_example = allow_iff asked

asked_allowed : allow asked ≡ true
unfolding allow derive_policy_input memory_mib matches equal_fold parse_int lit ◌==◌ deny
asked_allowed = refl

derive_policy_input-Bounded_example : Bounded manifest change (lit "memory_limit_oom") (lit "128Mi")
derive_policy_input-Bounded_example =
    derive_policy_input-Bounded manifest change (lit "memory_limit_oom") (lit "128Mi")
      ((allow_iff asked).0 asked_allowed)

evaluate-decision_example :
    evaluate (λ i. ok ((decision i ∷ []) ∷ [])) asked
    ≡ ok (record {
      id = [];
      allowed = allow asked;
      reasons = sort (deny asked);
      policy_version = remediation_version;
      evaluated_at = zero_time;
    })
evaluate-decision_example = evaluate-decision asked
