-- ===== src/Agent.antt =====
-- internal/agent: the investigator, which collects evidence, asks a model once, and reports a root
-- cause only when cited evidence supports it.
pub mod Types
pub mod Patterns
pub mod Payloads
pub mod Verify
pub mod Chat
pub mod External
pub mod Investigate
