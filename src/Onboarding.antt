-- ===== src/Onboarding.antt =====
-- internal/onboarding/profile.go: the scope that an operator grants, and its queries.
pub mod Patterns
pub mod Profile
pub mod Scope
pub mod Queries
