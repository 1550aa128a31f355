-- ===== src/Remediation.antt =====
-- internal/remediation: proposals of a change, the policy's input, and the service that runs a request
-- through policy, pull request, audit and storage.
pub mod Types
pub mod Patterns
pub mod Memory
pub mod SameIds
pub mod Validate
pub mod Service
