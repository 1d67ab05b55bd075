-- ===== src/Handler.antt =====
-- internal/handler: the decisions of the HTTP handlers, apart from the HTTP layer itself.
pub mod State
pub mod Request
pub mod Act
pub mod Guards
pub mod Settings
pub mod Limiter
pub mod Lockout
pub mod Directory
pub mod Provision
pub mod Login
pub mod Roles
pub mod Redirect
pub mod Access
pub mod Issue
pub mod Jwt
pub mod Refresh
pub mod Sessions
pub mod Signin
pub mod Hosted
pub mod Reset
pub mod Kerberos
pub mod AdminSettings
