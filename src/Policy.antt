-- ===== src/Policy.antt =====
-- internal/policy and policies: the remediation policy, and the evaluator that reads its answer.
pub mod Rules
pub mod Evaluator
pub mod Decisions
