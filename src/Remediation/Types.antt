-- ===== src/Remediation/Types.antt =====
-- The data of internal/remediation/remediation.go.
use incident_pilot.Common.{ℕ, Bool, Option, List}
use incident_pilot.Common.Int.{ℤ}
use incident_pilot.Text.{Bytes}
use incident_pilot.Time.{Time}

pub record Target : Type 0 where
  pub repository : Bytes
  pub path : Bytes
  pub namespace : Bytes
  pub kind : Bytes
  pub name : Bytes
  pub container : Bytes

pub record Change : Type 0 where
  pub field : Bytes
  pub before : Bytes
  pub after : Bytes

pub record Request : Type 0 where
  pub incident_id : Bytes
  pub investigation_id : Bytes
  pub operation : Bytes
  pub target : Target
  pub change : Change
  pub reason : Bytes
  pub evidence_ids : List Bytes

-- POLICY_ALLOWED, POLICY_DENIED, PR_CREATED and PR_FAILED
pub data Status : Type 0 where
  policy_allowed policy_denied pr_created pr_failed : Status

pub record Proposal : Type 0 where
  pub id : Bytes
  pub incident_id : Bytes
  pub investigation_id : Bytes
  pub operation : Bytes
  pub target : Target
  pub change : Change
  pub reason : Bytes
  pub evidence_ids : List Bytes
  pub status : Status
  pub created_at : Time

pub record PolicyInput : Type 0 where
  pub environment : Bytes
  pub repository : Bytes
  pub repository_allowed : Bool
  pub path : Bytes
  pub path_allowed : Bool
  pub operation : Bytes
  pub namespace : Bytes
  pub target_kind : Bytes
  pub target_name : Bytes
  pub container : Bytes
  pub field : Bytes
  pub before_mib : ℕ
  pub after_mib : ℕ
  pub observed_before_mib : ℕ
  pub protected_namespace : Bool
  pub secret_target : Bool
  pub direct_mutation : Bool
  pub destructive : Bool
  pub evidence_verified : Bool
  pub root_cause : Bytes
  pub resource_change_safe : Bool

pub record PolicyDecision : Type 0 where
  pub id : Bytes
  pub allowed : Bool
  pub reasons : List Bytes
  pub policy_version : Bytes
  pub evaluated_at : Time

pub record AuditEvent : Type 0 where
  pub id : Bytes
  pub incident_id : Bytes
  pub actor : Bytes
  pub action : Bytes
  pub resource : Bytes
  pub decision : Status
  pub policy_version : Bytes
  pub trace_id : Bytes
  pub outcome : Bytes
  pub created_at : Time

pub record PullRequest : Type 0 where
  pub id : Bytes
  pub status : Status
  pub repository : Bytes
  pub base_branch : Bytes
  pub head_branch : Bytes
  pub number : ℤ
  pub url : Bytes
  pub commit_sha : Bytes
  pub reused : Bool
  pub failure_code : Bytes
  pub created_at : Time

pub record Outcome : Type 0 where
  pub proposal : Proposal
  pub decision : PolicyDecision
  pub pull_request : Option PullRequest
  pub audit : AuditEvent

pub record Config : Type 0 where
  pub environment : Bytes
  pub repository : Bytes
  pub allowed_path : Bytes
