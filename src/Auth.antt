-- ===== src/Auth.antt =====
-- internal/auth: local passwords.
pub mod Passwords
