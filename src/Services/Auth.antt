-- ===== src/Services/Auth.antt =====
-- app/services/auth.py: registration. Login and the refresh tokens are in the modules below.
pub mod Issue
pub mod Login
pub mod Tokens
pub mod Register
