-- ===== src/Services.antt =====
-- app/services: what each request does to the database.
pub mod Audit
pub mod Tenants
pub mod Users
pub mod Bootstrap
pub mod Rbac
pub mod Auth
