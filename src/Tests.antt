-- ===== src/Tests.antt =====
-- Runs on concrete inputs, each with a theorem of the library applied to it.
pub mod Fixtures
pub mod Workloads
pub mod Causes
pub mod Metrics
pub mod Reports
pub mod Changes
pub mod Profiles
pub mod External
pub mod Collection
pub mod PullRequests
pub mod Answers
pub mod Memory
pub mod Webhooks
pub mod Environments
