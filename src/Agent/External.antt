-- ===== src/Agent/External.antt =====
-- internal/agent/external_verify.go: the verifiers of an external profile.
pub mod Payloads
pub mod Verify
pub mod Sound
