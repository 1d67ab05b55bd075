-- ===== src/Admin.antt =====
-- internal/handler/admin.go, app_admin.go and user_self.go: what administrators and users do to
-- accounts.
pub mod Users
pub mod Roles
pub mod Members
