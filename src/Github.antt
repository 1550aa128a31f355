-- ===== src/Github.antt =====
-- internal/github/client.go: the pull request of an approved remediation.
pub mod Patch
pub mod Http
pub mod Config
pub mod Responses
pub mod Client
pub mod Create
