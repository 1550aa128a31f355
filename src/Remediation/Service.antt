-- ===== src/Remediation/Service.antt =====
-- `Service.Request` and `Service.Get` of internal/remediation/remediation.go. The interfaces Source,
-- Store, Evaluator and Executor are functions, each called once at most; a call list beside the result
-- tells which were called, in order, and with what. Tracing and metrics are left out.
pub mod Gate
pub mod Asked
pub mod Safety
pub mod Results
use incident_pilot.Common.{
  ℕ, Bool, true, false, not, ◌||◌, Option, none, some, List, [], ◌∷◌, ◌++◌, length, ltb, eqb,
  Result, ok, err, if◌then◌else◌,
}
use incident_pilot.Common.Int.{pos, lt_int}
use incident_pilot.Text.{Bytes, lit, ◌==◌, has_prefix, contains, trim_space}
use incident_pilot.Text.Regex.{matches}
use incident_pilot.Time.{Time}
use incident_pilot.Evidence.{Record}
use incident_pilot.Agent.Types
use incident_pilot.Remediation.Types.{
  Request, Proposal, PolicyInput, PolicyDecision, AuditEvent, PullRequest, Outcome, Config, Status,
  policy_allowed, policy_denied, pr_created, pr_failed,
}
use incident_pilot.Remediation.Patterns.{
  repository_pattern, path_pattern, branch_pattern, commit_pattern, failure_code_pattern,
}
use incident_pilot.Remediation.Memory.{deployment_memory_limit, derive_policy_input}
use incident_pilot.Remediation.SameIds.{same_ids}
use incident_pilot.Remediation.Validate.{validate_request}

-- what the service depends on; an error is its text
pub record Services : Type 0 where
  -- Source, Store and Evaluator are not nil
  pub configured : Bool
  pub config : Config
  pub get_investigation : Bytes → Result Bytes Types.Report
  pub evidence_for_remediation : Bytes → List Bytes → Result Bytes (List Record)
  pub evaluate : PolicyInput → Result Bytes PolicyDecision
  -- the Executor, or nil; it returns a pull request also beside an error
  pub executor : Option (Proposal → PolicyDecision → PullRequest × Bool)
  -- whether the evaluation was stored
  pub save : Outcome → PolicyInput → Bool
  pub get_remediation : Bytes → Result Bytes Outcome
  -- uuid.Parse, and the n-th uuid.NewString of a request
  pub uuid_ok : Bytes → Bool
  pub new_id : ℕ → Bytes
  pub now : Time
  pub trace_id : Bytes

pub data Call : Type 0 where
  load_report : Bytes → Call
  load_evidence : Bytes → List Bytes → Call
  ask_policy : PolicyInput → Call
  create_pr : Proposal → PolicyDecision → Call
  store_outcome : Outcome → PolicyInput → Call

pub data Failure : Type 0 where
  not_configured : Failure
  -- wraps ErrInvalidProposal
  invalid_proposal : Bytes → Failure
  bad_configuration : Failure
  no_investigation : Bytes → Failure
  no_evidence : Bytes → Failure
  no_decision : Bytes → Failure
  not_stored : Failure

-- the service's answer with the calls it made
abbrev pub Answer : Type 0
Answer = Result Failure Outcome × List Call

unfoldable pub valid_created_pull_request : PullRequest → Bytes → Bool
unfolding lt_int
valid_created_pull_request result repository =
    if lt_int result.number (pos 1)
      || lt_int (pos 1000000000) result.number
      || not (result.repository == repository)
      || not (matches branch_pattern result.base_branch)
      || not (matches branch_pattern result.head_branch)
      || not (matches commit_pattern result.commit_sha)
    then false
    else if ltb (length result.url) 9
        || ltb 2048 (length result.url)
        || not (has_prefix result.url (lit "https://"))
    then false
    else true

-- the pull request, the proposal's status, the outcome, and the calls made for them
abbrev Action : Type 0
Action = Option PullRequest × Status × Bytes × List Call

abbrev is_found : Types.Status → Bool
is_found Types.root_cause_found = true
is_found Types.insufficient_evidence = false

module _ (s : Services) (request : Request) where
  -- what is reported before the executor answers
  pending : PullRequest
  pending = record {
    id = s.new_id 2;
    status = pr_failed;
    repository = s.config.repository;
    base_branch = [];
    head_branch = [];
    number = pos 0;
    url = [];
    commit_sha = [];
    reused = false;
    failure_code = lit "github_not_configured";
    created_at = s.now;
  }

  -- the parts of a failed attempt that are safe to report
  failed_action : PullRequest → PullRequest
  failed_action created = record pending {
    repository =
        if created.repository == s.config.repository
        then created.repository
        else pending.repository;
    base_branch =
        if matches branch_pattern created.base_branch
        then created.base_branch
        else pending.base_branch;
    head_branch =
        if matches branch_pattern created.head_branch
        then created.head_branch
        else pending.head_branch;
    failure_code =
        if matches failure_code_pattern created.failure_code
        then created.failure_code
        else lit "github_action_failed";
  }

  -- the answer of the executor, and whether it came with an error
  executed : PullRequest → Bool → PullRequest × Status × Bytes
  unfolding failed_action pending
  executed created true = (failed_action created, pr_failed, lit "pr_failed")
  executed created false =
      if valid_created_pull_request created s.config.repository
      then (
        record created {
          id = s.new_id 3;
          status = pr_created;
          repository = s.config.repository;
          created_at = s.now;
        },
        pr_created,
        lit "pr_created",
      )
      else (
        record pending { failure_code = lit "github_invalid_result" },
        pr_failed,
        lit "pr_failed",
      )

  act : Proposal → PolicyDecision → Action
  unfolding executed pending
  act proposal decision =
      if not decision.allowed then (none, policy_denied, lit "denied", []) else elim s.executor [
        | none ↦ (some pending, pr_failed, lit "pr_failed", [])
        | some create ↦
            let asked = record proposal { status = pr_failed } in
            let (created, failed) = create asked decision in
            let (action, status, outcome) = executed created failed in
            (some action, status, outcome, create_pr asked decision ∷ [])
      ]

  proposal_of : Proposal
  proposal_of = record {
    id = s.new_id 1;
    incident_id = request.incident_id;
    investigation_id = request.investigation_id;
    operation = request.operation;
    target = request.target;
    change = request.change;
    reason = trim_space request.reason;
    evidence_ids = request.evidence_ids;
    status = policy_denied;
    created_at = s.now;
  }

  audit_of : PolicyDecision → Bytes → AuditEvent
  audit_of decision outcome = record {
    id = s.new_id 4;
    incident_id = request.incident_id;
    actor = lit "incidentpilot-remediation";
    action = lit "request_remediation";
    resource =
        request.target.namespace
        ++ (lit "/" ++ (request.target.kind ++ (lit "/" ++ request.target.name)));
    decision = if decision.allowed then policy_allowed else policy_denied;
    policy_version = decision.policy_version;
    trace_id = s.trace_id;
    outcome = outcome;
    created_at = s.now;
  }

  -- from the policy's decision on
  carry_out : PolicyInput → PolicyDecision → Answer
  unfolding act proposal_of audit_of
  carry_out input given =
      let decision = record given { id = s.new_id 0; evaluated_at = s.now } in
      let (action, status, outcome, calls) = act proposal_of decision in
      let result : Outcome = record {
        proposal = record proposal_of { status = status };
        decision = decision;
        pull_request = action;
        audit = audit_of decision outcome;
      } in
      (
        if s.save result input then ok result else err not_stored,
        calls ++ store_outcome result input ∷ [],
      )

  decide : PolicyInput → Answer
  unfolding carry_out
  decide input = elim (s.evaluate input) [
    | err text ↦ (err (no_decision text), ask_policy input ∷ [])
    | ok decision ↦
        let (answer, calls) = carry_out input decision in (answer, ask_policy input ∷ calls)
  ]

  with_records : Bytes → List Record → Answer
  unfolding decide
  with_records cause records =
      if not (eqb (length records) (length request.evidence_ids))
      then (err (invalid_proposal (lit "proposal evidence is not persisted for the incident")), [])
      else decide (derive_policy_input s.config request cause (deployment_memory_limit records))

  with_cause : Types.RootCause → Answer
  unfolding with_records
  with_cause cause =
      if not (same_ids request.evidence_ids cause.evidence_ids)
      then (
        err (invalid_proposal (lit "proposal evidence must exactly match the verified root cause")),
        [],
      )
      else elim (s.evidence_for_remediation request.incident_id request.evidence_ids) [
        | err text ↦
            (err (no_evidence text), load_evidence request.incident_id request.evidence_ids ∷ [])
        | ok records ↦
            let (answer, calls) = with_records cause.cause records in
            (answer, load_evidence request.incident_id request.evidence_ids ∷ calls)
      ]

  abbrev unverified : Answer
  unverified =
      (err (invalid_proposal (lit "proposal requires a verified root-cause investigation")), [])

  with_report : Types.Report → Answer
  unfolding with_cause
  with_report report =
      if not (report.incident_id == request.incident_id) || not (is_found report.status)
      then unverified
      else elim report.root_cause [
        | none ↦ unverified
        | some cause ↦ if cause.cause == [] then unverified else with_cause cause
      ]

  load : Answer
  unfolding with_report
  load = elim (s.get_investigation request.investigation_id) [
    | err text ↦ (err (no_investigation text), load_report request.investigation_id ∷ [])
    | ok report ↦
        let (answer, calls) = with_report report in
        (answer, load_report request.investigation_id ∷ calls)
  ]

  unfoldable pub request_remediation : Answer
  unfolding load
  request_remediation =
      if not s.configured
      then (err not_configured, [])
      else elim (validate_request s.uuid_ok request) [
        | some text ↦ (err (invalid_proposal text), [])
        | none ↦
            if s.config.environment == []
              || not (matches repository_pattern s.config.repository)
              || not (matches path_pattern s.config.allowed_path)
              || contains s.config.allowed_path (lit "..")
            then (err bad_configuration, [])
            else load
      ]

-- Service.Get: an ID that is not a UUID never reaches the store
unfoldable pub get_remediation : Services → Bytes → Result Failure Outcome
get_remediation s id =
    if not s.configured
    then err not_configured
    else if not (s.uuid_ok id)
    then err (invalid_proposal (lit "invalid remediation ID"))
    else elim (s.get_remediation id) [
      | err text ↦ err (no_investigation text)
      | ok outcome ↦ ok outcome
    ]
