-- ===== src/Schemas.antt =====
-- app/schemas: how request bodies are validated and normalised before an endpoint sees them.
pub mod Text
pub mod Slug
pub mod Laws
pub mod Lower
pub mod Fields
pub mod Body
