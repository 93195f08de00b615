-- ===== src/Core.antt =====
-- app/core: settings, principals and tokens, and the limit on requests.
pub mod Context
pub mod Principal
pub mod Security
pub mod RateLimit
