-- ===== src/Remediation/Service/Asked.antt =====
-- What the service gives to the executor.
use incident_pilot.Common.{
  ◌≡◌, refl, Bool, true, false, Option, none, some, List, [], ◌∷◌, any, Result, ok, err, All,
  All-append, Memᴰ, arith, Bool-cases, inl, inr, ◌||◌, not,
}
use incident_pilot.Text.{Bytes, trim_space, ◌==◌, lit, contains}
use incident_pilot.Text.Regex.{matches}
use incident_pilot.Evidence.{Record}
use incident_pilot.Agent.Types
use incident_pilot.Remediation.Types.{Request, Proposal, PolicyInput, PolicyDecision, PullRequest}
use incident_pilot.Remediation.Memory.{deployment_memory_limit, derive_policy_input}
use incident_pilot.Remediation.SameIds.{same_ids}
use incident_pilot.Remediation.Patterns.{repository_pattern, path_pattern}
use incident_pilot.Remediation.Validate.{validate_request}
use incident_pilot.Remediation.Service.{
  Services, Call, load_report, load_evidence, ask_policy, create_pr, store_outcome, is_found, act,
  proposal_of, carry_out, decide, with_records, with_cause, with_report, load, request_remediation,
}
use incident_pilot.Remediation.Service.Gate.{creates}

-- a proposal that asks for the request's change, and a decision that allows it
pub record Asked (request : Request) (proposal : Proposal) (decision : PolicyDecision)
    : Type 0 where
  pub incident : proposal.incident_id ≡ request.incident_id
  pub investigation : proposal.investigation_id ≡ request.investigation_id
  pub operation : proposal.operation ≡ request.operation
  pub target : proposal.target ≡ request.target
  pub field : proposal.change.field ≡ request.change.field
  pub before : proposal.change.before ≡ request.change.before
  pub after : proposal.change.after ≡ request.change.after
  pub reason : proposal.reason ≡ trim_space request.reason
  pub evidence : proposal.evidence_ids ≡ request.evidence_ids
  pub allowed : decision.allowed ≡ true

-- a call of the executor is in the list that `creates` looks through
pub creates-Memᴰ :
    (calls : List Call) (p : Proposal) (d : PolicyDecision)
    → Memᴰ (create_pr p d) calls
    → creates calls ≡ true
unfolding creates any
creates-Memᴰ [] p d m = elim m [ ]
creates-Memᴰ (create_pr q e ∷ calls) p d m = refl
creates-Memᴰ (load_report i ∷ calls) p d (Memᴰ.tail m) = creates-Memᴰ calls p d m
creates-Memᴰ (load_report i ∷ calls) p d (Memᴰ.head e) = cc e
creates-Memᴰ (load_evidence i ids ∷ calls) p d (Memᴰ.tail m) = creates-Memᴰ calls p d m
creates-Memᴰ (load_evidence i ids ∷ calls) p d (Memᴰ.head e) = cc e
creates-Memᴰ (ask_policy i ∷ calls) p d (Memᴰ.tail m) = creates-Memᴰ calls p d m
creates-Memᴰ (ask_policy i ∷ calls) p d (Memᴰ.head e) = cc e
creates-Memᴰ (store_outcome o i ∷ calls) p d (Memᴰ.tail m) = creates-Memᴰ calls p d m
creates-Memᴰ (store_outcome o i ∷ calls) p d (Memᴰ.head e) = cc e

module _ (s : Services) (request : Request) where
  abbrev pub Faithful : Call → Type 0
  Faithful (create_pr p d) = Asked request p d
  Faithful (load_report i) = Unit
  Faithful (load_evidence i ids) = Unit
  Faithful (ask_policy i) = Unit
  Faithful (store_outcome o i) = Unit

  abbrev Calls : List Call → Type 0
  Calls = All Faithful

  act-Faithful :
      (decision : PolicyDecision) → Calls (act s request (proposal_of s request) decision).3
  unfolding act proposal_of
  act-Faithful decision = elim (Bool-cases decision.allowed) [
    | inr e ↦ rw (e, act) tt
    | inl e ↦ go (s.executor) refl e
  ]
    where
      go :
          (o : Option (Proposal → PolicyDecision → PullRequest × Bool))
          → s.executor ≡ o
          → decision.allowed ≡ true
          → Calls (act s request (proposal_of s request) decision).3
      go none q e = rw (e, q, act) tt
      go (some create) q e =
          rw (e, q, act)
            (
              record {
                incident = refl;
                investigation = refl;
                operation = refl;
                target = refl;
                field = refl;
                before = refl;
                after = refl;
                reason = refl;
                evidence = refl;
                allowed = e;
              },
              tt,
            )

  carry_out-Faithful :
      (input : PolicyInput) (given : PolicyDecision) → Calls (carry_out s request input given).1
  unfolding carry_out
  carry_out-Faithful input given =
      All-append Faithful _ _
        (act-Faithful (record given { id = s.new_id 0; evaluated_at = s.now })) (tt, tt)

  decide-Faithful : (input : PolicyInput) → Calls (decide s request input).1
  unfolding decide
  decide-Faithful input = go (s.evaluate input) refl
    where
      go :
          (e : Result Bytes PolicyDecision)
          → s.evaluate input ≡ e
          → Calls (decide s request input).1
      go (err text) q = rw (q, decide) (tt, tt)
      go (ok given) q = rw (q, decide) (tt, carry_out-Faithful input given)

  with_records-Faithful :
      (cause : Bytes) (records : List Record) → Calls (with_records s request cause records).1
  unfolding with_records
  with_records-Faithful cause records =
      let next =
        decide-Faithful
          (derive_policy_input s.config request cause (deployment_memory_limit records)) in
      ground (arith, next)

  with_cause-Faithful : (cause : Types.RootCause) → Calls (with_cause s request cause).1
  unfolding with_cause
  with_cause-Faithful cause =
      go (s.evidence_for_remediation request.incident_id request.evidence_ids) refl
    where
      go :
          (e : Result Bytes (List Record))
          → s.evidence_for_remediation request.incident_id request.evidence_ids ≡ e
          → Calls (with_cause s request cause).1
      go r q = elim (Bool-cases (same_ids request.evidence_ids cause.evidence_ids)) [
        | inr e ↦ rw (e, with_cause) tt
        | inl e ↦
            elim r
                as (λ r.
                  s.evidence_for_remediation request.incident_id request.evidence_ids ≡ r
                  → Calls (with_cause s request cause).1) [
                    | err text ↦ λ q. rw (e, q, with_cause) (tt, tt)
                    | ok records ↦
                        λ q. rw (e, q, with_cause) (tt, with_records-Faithful cause.cause records)
                  ]
              q
      ]

  with_report-Faithful : (report : Types.Report) → Calls (with_report s request report).1
  unfolding with_report
  with_report-Faithful report =
      elim (Bool-cases
        (not (report.incident_id == request.incident_id) || not (is_found report.status))) [
          | inl e ↦ rw (e, with_report) tt
          | inr e ↦ go report.root_cause refl e
        ]
    where
      go :
          (c : Option Types.RootCause)
          → report.root_cause ≡ c
          → (not (report.incident_id == request.incident_id) || not (is_found report.status))
            ≡ false
          → Calls (with_report s request report).1
      go none q e = rw (e, q, with_report) tt
      go (some cause) q e = elim (Bool-cases (cause.cause == [])) [
        | inl f ↦ rw (e, q, f, with_report) tt
        | inr f ↦ rw (e, q, f, with_report) (with_cause-Faithful cause)
      ]

  load-Faithful : Calls (load s request).1
  unfolding load
  load-Faithful = go (s.get_investigation request.investigation_id) refl
    where
      go :
          (e : Result Bytes Types.Report)
          → s.get_investigation request.investigation_id ≡ e
          → Calls (load s request).1
      go (err text) q = rw (q, load) (tt, tt)
      go (ok report) q = rw (q, load) (tt, with_report-Faithful report)

  pub request_remediation-Faithful : Calls (request_remediation s request).1
  unfolding request_remediation
  request_remediation-Faithful = elim (Bool-cases s.configured) [
    | inr c ↦ rw (c, request_remediation) tt
    | inl c ↦ go (validate_request s.uuid_ok request) refl c
  ]
    where
      go :
          (o : Option Bytes)
          → validate_request s.uuid_ok request ≡ o
          → s.configured ≡ true
          → Calls (request_remediation s request).1
      go (some text) q c = rw (c, q, request_remediation) tt
      go none q c =
          elim (Bool-cases (
            s.config.environment == []
            || not (matches repository_pattern s.config.repository)
            || not (matches path_pattern s.config.allowed_path)
            || contains s.config.allowed_path (lit ".."))) [
              | inl e ↦ rw (c, q, e, request_remediation) tt
              | inr e ↦ rw (c, q, e, request_remediation) load-Faithful
            ]
