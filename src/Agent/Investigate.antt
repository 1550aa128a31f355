-- ===== src/Agent/Investigate.antt =====
-- `Investigator.Run` of internal/agent/agent.go in demo mode, from the first collection on.
pub mod Ids
pub mod Targets
pub mod Analysis
pub mod Sound
