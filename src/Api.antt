-- ===== src/Api.antt =====
-- app/api and app/core/errors.py: who calls, the endpoints, and what the client is answered.
pub mod Http
pub mod Dependencies
pub mod Auth
pub mod Tenants
pub mod Users
pub mod Audit
pub mod Bodies
pub mod Rbac
