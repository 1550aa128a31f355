-- ===== src/Remediation/Service/Results.antt =====
-- What an outcome that the service returns says.
use incident_pilot.Common.{
  ◌≡◌, refl, ◌⊎◌, inl, inr, Bool-cases, ◌++◌, Bool, true, false, Option, none, some, List, [],
  Result, ok, err, arith,
}
use incident_pilot.Text.{Bytes, lit, trim_space, ==_iff, ==_refl}
use incident_pilot.Evidence.{Record}
use incident_pilot.Agent.Types
use incident_pilot.Remediation.Types.{
  Request, Proposal, PullRequest, PolicyInput, PolicyDecision, Outcome, Status, policy_allowed,
  policy_denied, pr_created, pr_failed,
}
use incident_pilot.Remediation.Memory.{deployment_memory_limit, derive_policy_input}
use incident_pilot.Remediation.Service.{
  Services, Call, act, proposal_of, carry_out, decide, with_records, with_cause, with_report, load,
  request_remediation, valid_created_pull_request, executed, pending, failed_action, audit_of,
  Failure,
}

-- the pull request part of an outcome
abbrev Carried : Services → PullRequest → Type 0
Carried s pr =
    (pr.repository ≡ s.config.repository)
    × ((pr.status ≡ pr_created) × (valid_created_pull_request pr s.config.repository ≡ true)
        ⊎ (pr.status ≡ pr_failed))

-- what a denied request leaves
abbrev Denied : Outcome → Type 0
Denied o =
    (o.decision.allowed ≡ false)
    × (o.pull_request ≡ none)
    × (o.proposal.status ≡ policy_denied)
    × (o.audit.decision ≡ policy_denied)
    × (o.audit.outcome ≡ lit "denied")

-- what an allowed request leaves
abbrev Allowed : Services → Outcome → Type 0
Allowed s o =
    (o.decision.allowed ≡ true)
    × (o.audit.decision ≡ policy_allowed)
    × ((pr : PullRequest) × (o.pull_request ≡ some pr)
        × (o.proposal.status ≡ pr.status)
        × Carried s pr)

-- the outcome repeats the request, and its parts agree
pub record Consistent (s : Services) (request : Request) (o : Outcome) : Type 0 where
  pub incident : o.proposal.incident_id ≡ request.incident_id
  pub investigation : o.proposal.investigation_id ≡ request.investigation_id
  pub operation : o.proposal.operation ≡ request.operation
  pub reason : o.proposal.reason ≡ trim_space request.reason
  pub target : o.proposal.target ≡ request.target
  pub change : o.proposal.change ≡ request.change
  pub evidence : o.proposal.evidence_ids ≡ request.evidence_ids
  pub audited_incident : o.audit.incident_id ≡ request.incident_id
  pub audited_resource :
      o.audit.resource
      ≡ request.target.namespace
        ++ (lit "/" ++ (request.target.kind ++ (lit "/" ++ request.target.name)))
  pub version : o.audit.policy_version ≡ o.decision.policy_version
  pub ends : Denied o ⊎ Allowed s o

module _ (s : Services) (request : Request) where
  executed-Carried :
      (created : PullRequest) (failed : Bool)
      → Carried s (executed s request created failed).0
        × ((executed s request created failed).1 ≡ (executed s request created failed).0.status)
  unfolding executed failed_action pending valid_created_pull_request
  executed-Carried created true = ground (arith, ==_iff created.repository s.config.repository)
  executed-Carried created false = ground (arith, ==_refl s.config.repository)

  -- the pull request, its status and the outcome that a decision leads to
  abbrev Acted : PolicyDecision → Option PullRequest × Status × Bytes × List Call → Type 0
  Acted decision a =
      (decision.allowed ≡ false → a ≡ (none, policy_denied, lit "denied", []))
      × (decision.allowed ≡ true
          → (pr : PullRequest) × (a.0 ≡ some pr) × (a.1 ≡ pr.status) × Carried s pr)

  act-Acted :
      (proposal : Proposal) (decision : PolicyDecision)
      → Acted decision (act s request proposal decision)
  unfolding act
  act-Acted proposal decision = ((λ d. ground arith), (λ a. go s.executor refl a))
    where
      go :
          (e : Option (Proposal → PolicyDecision → PullRequest × Bool))
          → s.executor ≡ e
          → decision.allowed ≡ true
          → (pr : PullRequest) × ((act s request proposal decision).0 ≡ some pr)
            × ((act s request proposal decision).1 ≡ pr.status)
            × Carried s pr
      go none q a = (
        pending s request,
        ground (arith, q),
        ground (arith, q),
        unfold pending in (refl, inr refl),
      )
      go (some create) q a =
          let c = create (record proposal { status = pr_failed }) decision in
          let e = executed-Carried c.0 c.1 in
          ((executed s request c.0 c.1).0, ground (arith, q), ground (arith, q), e.0)

  carry_out-Consistent :
      (input : PolicyInput) (given : PolicyDecision) (o : Outcome)
      → (carry_out s request input given).0 ≡ ok o
      → Consistent s request o
  unfolding carry_out proposal_of audit_of
  carry_out-Consistent input given o h =
      let d : PolicyDecision = record given { id = s.new_id 0; evaluated_at = s.now } in
      let a = act-Acted (proposal_of s request) d in
      record {
        incident = ground arith;
        investigation = ground arith;
        operation = ground arith;
        reason = ground arith;
        target = ground arith;
        change = ground arith;
        evidence = ground arith;
        audited_incident = ground arith;
        audited_resource = ground arith;
        version = ground arith;
        ends = elim (Bool-cases given.allowed) [
          | inr x ↦ inl (
            ground arith,
            ground (arith, a.0),
            ground (arith, a.0),
            ground (arith, a.0),
            ground (arith, a.0),
          )
          | inl x ↦
              let r = a.1 x in
              inr (ground arith, ground arith, (r.0, ground (arith, r.1), ground (arith, r.2), r.3))
        ];
      }

  -- the outcome comes from the policy's decision on some input
  abbrev CarriedTo : Outcome → Type 0
  CarriedTo o =
      (input : PolicyInput) × (given : PolicyDecision) × (s.evaluate input ≡ ok given)
      × ((carry_out s request input given).0 ≡ ok o)

  abbrev CarriedOut : Result Failure Outcome → Type 0
  CarriedOut r = (o : Outcome) → r ≡ ok o → CarriedTo o

  decide-CarriedOut : (input : PolicyInput) → CarriedOut (decide s request input).0
  unfolding decide
  decide-CarriedOut input o h = go (s.evaluate input) refl
    where
      go : (e : Result Bytes PolicyDecision) → s.evaluate input ≡ e → CarriedTo o
      go (err text) q = cc (rw (q, decide) at h)
      go (ok given) q = (input, given, q, ground (arith, q, h))

  with_records-CarriedOut :
      (cause : Bytes) (records : List Record) → CarriedOut (with_records s request cause records).0
  unfolding with_records
  with_records-CarriedOut cause records o h =
      decide-CarriedOut
        (derive_policy_input s.config request cause (deployment_memory_limit records)) o
        (ground arith)

  with_cause-CarriedOut : (cause : Types.RootCause) → CarriedOut (with_cause s request cause).0
  unfolding with_cause
  with_cause-CarriedOut cause o h =
      go (s.evidence_for_remediation request.incident_id request.evidence_ids) refl
    where
      go :
          (e : Result Bytes (List Record))
          → s.evidence_for_remediation request.incident_id request.evidence_ids ≡ e
          → CarriedTo o
      go (err text) q = absurd (ground (arith, q, h))
      go (ok records) q = with_records-CarriedOut cause.cause records o (ground (arith, q, h))

  with_report-CarriedOut : (report : Types.Report) → CarriedOut (with_report s request report).0
  unfolding with_report
  with_report-CarriedOut report o h = go report.root_cause refl
    where
      go : (c : Option Types.RootCause) → report.root_cause ≡ c → CarriedTo o
      go none q = absurd (ground (arith, q, h))
      go (some cause) q = with_cause-CarriedOut cause o (ground (arith, q, h))

  load-CarriedOut : CarriedOut (load s request).0
  unfolding load
  load-CarriedOut o h = go (s.get_investigation request.investigation_id) refl
    where
      go :
          (e : Result Bytes Types.Report)
          → s.get_investigation request.investigation_id ≡ e
          → CarriedTo o
      go (err text) q = absurd (ground (arith, q, h))
      go (ok report) q = with_report-CarriedOut report o (ground (arith, q, h))

  request_remediation-CarriedOut : CarriedOut (request_remediation s request).0
  unfolding request_remediation
  request_remediation-CarriedOut o h = load-CarriedOut o (ground arith)

  -- An outcome that the service returns repeats the request: the proposal has its incident, its
  -- investigation, operation, target, change, trimmed reason and evidence, the audit event its incident
  -- and resource and the decision's policy version. When the policy denied it there is no pull
  -- request and proposal and audit event say so; when the policy allowed it there is one, its status is
  -- the proposal's, and it failed or passed the checks on a created pull request.
  pub request_remediation-Consistent :
      (o : Outcome) → (request_remediation s request).0 ≡ ok o → Consistent s request o
  request_remediation-Consistent o h =
      let r = request_remediation-CarriedOut o h in carry_out-Consistent r.0 r.1 o r.3
