-- ===== src/Guarantees.antt =====
-- What the policy guarantees of every database that requests lead to.
pub mod Integrity
pub mod AuditTrail
pub mod Revocation
pub mod SingleUse
pub mod Lockout
pub mod Deactivation
pub mod SignUp
pub mod Sessions
pub mod Typed
pub mod Unreachable
pub mod Answers
pub mod Seeding
pub mod Targets
pub mod Escalation
pub mod Isolation
pub mod Accounts
