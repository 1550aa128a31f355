-- ===== src/Remediation/Service/Gate.antt =====
-- The gate before a pull request: what must hold when the executor is called.
use mathlib.Core.List.{Perm}
use incident_pilot.Common.{
  ◌≡◌, refl, ◌≢◌, inl, inr, Bool, true, false, Option, none, some, List, [], any, length, Result,
  ok, err, eqb, eqb→eq, arith, Bool-cases,
}
use incident_pilot.Text.{Bytes, ◌==◌, ==_iff}
use incident_pilot.Evidence.{Record}
use incident_pilot.Agent.Types
use incident_pilot.Remediation.Types.{Request, PolicyInput, PolicyDecision}
use incident_pilot.Remediation.Memory.{deployment_memory_limit, derive_policy_input}
use incident_pilot.Remediation.SameIds.{same_ids, same_ids_iff}
use incident_pilot.Remediation.Validate.{validate_request}
use incident_pilot.Remediation.Service.{
  Services, Call, create_pr, is_found, act, carry_out, decide, with_records, with_cause,
  with_report, load, request_remediation,
}

abbrev is_create : Call → Bool
is_create (create_pr p d) = true
is_create _ = false

-- the executor is among the calls
unfoldable pub creates : List Call → Bool
unfolding any
creates calls = any is_create calls

module _ (s : Services) (request : Request) where
  -- the policy's input for a root cause and its records
  abbrev pub input_for : Types.RootCause → List Record → PolicyInput
  input_for cause records =
      derive_policy_input s.config request cause.cause (deployment_memory_limit records)

  -- what stands behind a call of the executor
  pub record Cleared : Type 0 where
    pub is_valid : validate_request s.uuid_ok request ≡ none
    pub report : Types.Report
    pub loaded : s.get_investigation request.investigation_id ≡ ok report
    pub same_incident : report.incident_id ≡ request.incident_id
    pub found : is_found report.status ≡ true
    pub cause : Types.RootCause
    pub has_cause : report.root_cause ≡ some cause
    pub named : cause.cause ≢ []
    pub same_evidence : Perm request.evidence_ids cause.evidence_ids
    pub records : List Record
    pub persisted : s.evidence_for_remediation request.incident_id request.evidence_ids ≡ ok records
    pub all_there : length records ≡ length request.evidence_ids
    pub given : PolicyDecision
    pub decided : s.evaluate (input_for cause records) ≡ ok given
    pub allowed : given.allowed ≡ true

  carry_out-creates :
      (input : PolicyInput) (given : PolicyDecision)
      → creates (carry_out s request input given).1 ≡ true
      → given.allowed ≡ true
  unfolding carry_out act creates
  carry_out-creates input given h = ground arith

  -- the decision that let the executor be called
  abbrev Allowed : PolicyInput → Type 0
  Allowed input = (given : PolicyDecision) × (s.evaluate input ≡ ok given) × (given.allowed ≡ true)

  decide-creates : (input : PolicyInput) → creates (decide s request input).1 ≡ true → Allowed input
  unfolding decide creates
  decide-creates input h = go (s.evaluate input) refl
    where
      go : (e : Result Bytes PolicyDecision) → s.evaluate input ≡ e → Allowed input
      go (err text) q = cc (rw (q, decide) at h)
      go (ok given) q = (given, q, carry_out-creates input given (rw (q, decide) at h))

  -- what stands behind it once the cause is known
  abbrev Backed : Types.RootCause → Type 0
  Backed cause =
      (records : List Record) × (s.evidence_for_remediation request.incident_id request.evidence_ids
        ≡ ok records)
      × (length records ≡ length request.evidence_ids)
      × Allowed (input_for cause records)

  with_records-creates :
      (cause : Types.RootCause) (records : List Record)
      → creates (with_records s request cause.cause records).1 ≡ true
      → (length records ≡ length request.evidence_ids) × Allowed (input_for cause records)
  unfolding with_records creates
  with_records-creates cause records h =
      elim (Bool-cases (eqb (length records) (length request.evidence_ids))) [
        | inl e ↦
            (eqb→eq _ _ e, decide-creates (input_for cause records) (rw (e, with_records) at h))
        | inr e ↦ cc (rw (e, with_records) at h)
      ]

  with_cause-creates :
      (cause : Types.RootCause)
      → creates (with_cause s request cause).1 ≡ true
      → Perm request.evidence_ids cause.evidence_ids × Backed cause
  unfolding with_cause creates
  with_cause-creates cause h =
      elim (Bool-cases (same_ids request.evidence_ids cause.evidence_ids)) [
        | inl e ↦ (
          (same_ids_iff _ _).0 e,
          go (s.evidence_for_remediation request.incident_id request.evidence_ids) refl e,
        )
        | inr e ↦ cc (rw (e, with_cause) at h)
      ]
    where
      go :
          (e : Result Bytes (List Record))
          → s.evidence_for_remediation request.incident_id request.evidence_ids ≡ e
          → same_ids request.evidence_ids cause.evidence_ids ≡ true
          → Backed cause
      go (err text) q e = cc (rw (q, e, with_cause) at h)
      go (ok records) q e =
          let r = with_records-creates cause records (rw (q, e, with_cause) at h) in
          (records, q, r.0, r.1)

  -- what stands behind it once the report is known
  abbrev Reported : Types.Report → Type 0
  Reported report =
      (report.incident_id ≡ request.incident_id)
      × (is_found report.status ≡ true)
      × ((cause : Types.RootCause) × (report.root_cause ≡ some cause)
          × (cause.cause ≢ [])
          × Perm request.evidence_ids cause.evidence_ids
          × Backed cause)

  with_report-creates :
      (report : Types.Report) → creates (with_report s request report).1 ≡ true → Reported report
  unfolding with_report creates
  with_report-creates report h = elim (Bool-cases (report.incident_id == request.incident_id)) [
    | inr e ↦ cc (rw (e, with_report) at h)
    | inl e ↦ elim (Bool-cases (is_found report.status)) [
      | inr f ↦ cc (rw (e, f, with_report) at h)
      | inl f ↦ ((==_iff _ _).0 e, f, go report.root_cause refl e f)
    ]
  ]
    where
      go :
          (c : Option Types.RootCause)
          → report.root_cause ≡ c
          → (report.incident_id == request.incident_id) ≡ true
          → is_found report.status ≡ true
          → (cause : Types.RootCause) × (report.root_cause ≡ some cause)
            × (cause.cause ≢ [])
            × Perm request.evidence_ids cause.evidence_ids
            × Backed cause
      go none q e f = cc (rw (q, e, f, with_report) at h)
      go (some cause) q e f = elim (Bool-cases (cause.cause == [])) [
        | inl g ↦ cc (rw (q, e, f, g, with_report) at h)
        | inr g ↦
            let r = with_cause-creates cause (rw (q, e, f, g, with_report) at h) in
            (cause, q, (λ z. cc ((==_iff cause.cause []).1 z)), r.0, r.1)
      ]

  load-creates :
      creates (load s request).1 ≡ true
      → (report : Types.Report) × (s.get_investigation request.investigation_id ≡ ok report)
        × Reported report
  unfolding load creates
  load-creates h = go (s.get_investigation request.investigation_id) refl
    where
      go :
          (e : Result Bytes Types.Report)
          → s.get_investigation request.investigation_id ≡ e
          → (report : Types.Report) × (s.get_investigation request.investigation_id ≡ ok report)
            × Reported report
      go (err text) q = cc (rw (q, load) at h)
      go (ok report) q = (report, q, with_report-creates report (rw (q, load) at h))

  request_remediation-load :
      creates (request_remediation s request).1 ≡ true
      → (validate_request s.uuid_ok request ≡ none) × (creates (load s request).1 ≡ true)
  unfolding request_remediation creates
  request_remediation-load h = ground arith

  -- When the executor is called, the request is valid, the report of its investigation was loaded, is
  -- about the same incident and found a named root cause, the request cites exactly the root cause's
  -- evidence, every cited record is stored, and the policy allowed the input made of them.
  pub request_remediation-Cleared : creates (request_remediation s request).1 ≡ true → Cleared
  request_remediation-Cleared h =
      let a = request_remediation-load h in
      let b = load-creates a.1 in
      let r = b.2 in
      let c = r.2 in
      let k = c.4 in
      let d = k.3 in
      record {
        is_valid = a.0;
        report = b.0;
        loaded = b.1;
        same_incident = r.0;
        found = r.1;
        cause = c.0;
        has_cause = c.1;
        named = c.2;
        same_evidence = c.3;
        records = k.0;
        persisted = k.1;
        all_there = k.2;
        given = d.0;
        decided = d.1;
        allowed = d.2;
      }
