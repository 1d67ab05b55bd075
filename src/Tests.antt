-- ===== src/Tests.antt =====
-- Runs on concrete inputs, with buckets as association lists: examples for the theorems, and tests.
mod Tokens
mod Store
mod Apps
mod Handler
mod Requests
mod Oidc
mod Grants
mod Endpoints
mod Signin
mod Settings
mod Admin
