-- ===== src/Agent/Verify.antt =====
-- internal/agent/verify.go: the six verifiers, and the choice between them.
pub mod Cited
pub mod Oom
pub mod ImagePull
pub mod OrderConfig
pub mod Selector
pub mod Cpu
pub mod Payment
pub mod Claims
pub mod Sound
pub mod Agreement
