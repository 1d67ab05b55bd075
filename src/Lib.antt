-- ===== src/Lib.antt =====
-- SimpleAuth, an identity service in Go: the store and the decisions of the handlers.
--
-- The program keeps its state in an embedded key-value store (internal/store/bolt.go on bbolt).
-- The HTTP handlers (internal/handler) read and write it, ask a directory over LDAP, and issue JWTs.
-- What is modelled, by file:
--
--   Prelude, Outcome   shared names, lists, sets and texts; `Result` for `(value, error)`, with one
--                      constructor of `Error` for each error value
--   Bolt               bbolt, as an interface of buckets with laws; Unmarshal and Marshal; the loops
--                      that collect keys and delete them. Bolt/Assoc meets the interface with
--                      association lists, for runs on concrete stores
--   Store/Types        the records of internal/store/types.go
--   Store/State        the buckets of internal/store/bolt.go, and its `view` and `update`
--   Store/Users        CreateUser … ListUsers, ResolveUser, UnmergeUser
--   Store/Mappings     SetIdentityMapping … ListAllMappings, repairMappingIndex
--   Store/Apps         CreateApp … DeleteApp, the authorization documents, the app admins
--   Store/Roles        roles, permissions, configuration values, settings
--   Store/Tokens       refresh tokens, authorization codes, sessions, revocations, the reapers
--   Store/Audit        WriteAuditLog, QueryAuditLog
--   Store/Merge        MergeUsers
--   Auth/Passwords     the policy and the history of internal/auth/local.go
--   Handler/State      the handler's state and configuration, and the answers of code outside
--   Handler/Settings   the settings of internal/handler/admin_settings.go
--   Handler/Limiter    the rate limiter of internal/handler/middleware.go
--   Handler/Lockout    isAccountLocked, recordFailedLogin of internal/handler/auth.go
--   Handler/Directory  directoryAccountDisabled and what it calls, in internal/handler/auth.go
--   Handler/Provision  syncUserFromLDAP and the new users of the directory, internal/handler/auth.go
--   Handler/Login      authenticateUser of internal/handler/auth.go
--   Handler/Roles      resolveApp and resolveTokenRoles of internal/handler/apps.go
--   Handler/Redirect   isAllowedRedirect of internal/handler/hosted_login.go, verifyPKCE of oidc.go
--   Handler/Access     validateAccessToken, and requireAppAdmin of internal/handler/app_admin.go
--   Handler/Jwt        the claims and the issuing functions of internal/auth/jwt.go
--   Handler/Issue      issueTokenPair of internal/handler/auth.go
--   Handler/Refresh    handleRefresh of internal/handler/auth.go
--   Handler/Sessions   the SSO cookie of internal/handler/session_sso.go
--   Handler/Act        the early returns of a handler as a monad: `Answer`, `refuse_if`, `fetch`, …
--   Handler/Guards     the guards that handlers share: the served app, its roles, the user's status
--   Handler/Request    what the handlers read of a request
--   Handler/Signin     handleLogin, handleImpersonate, handleUserInfo of internal/handler/auth.go
--   Handler/Reset      handleResetPassword of internal/handler/auth.go
--   Handler/Hosted     internal/handler/hosted_login.go
--   Handler/Kerberos   handleSSOLogin, handleNegotiate, resolveKerberosUser of internal/handler/auth.go
--   Oidc               internal/handler/oidc.go: the issuer; Oidc/Clients the client secrets,
--                      Oidc/Tokens the tokens, Oidc/Grants the token endpoint, Oidc/Authorize the
--                      authorize endpoint, Oidc/Resource user info and introspection, Oidc/Logout
--   Handler/AdminSettings  the settings document of internal/handler/admin_settings.go
--   Admin              accounts: Admin/Users and Admin/Roles of internal/handler/admin.go (and the logout
--                      of user_self.go), Admin/Members of internal/handler/app_admin.go
--   Tests              runs on concrete inputs
--
-- State. A method that writes has the type `Method A`: from the store to its result and the store
-- after it. `update` runs a function on the committed store, and an error leaves that store, as a
-- bbolt transaction does; so each method is one step, and concurrent requests are sequences of steps.
-- A handler does several store calls; errors that the code drops are dropped (`exec`). A handler that
-- returns early is an `Act`: from the state to an answer or a refusal, and the state that it leaves.
-- The clock, a new GUID and the random bytes are arguments. Maps of Go are association lists. JSON
-- that does not decode is kept as `garbage`, so that the error paths and the `continue` of the loops
-- are there.
--
-- Fuel. Only ResolveUser needs it: its loop visits no user twice, so one round for each stored user
-- is enough (`resolve_user-ends`). Every other loop is recursion on the list that it goes through.
--
-- Numbers. Go's `int` is ℤ where a setting may be negative, else ℕ; times and durations are
-- nanoseconds. Counters do not reach 2 ^ 63 and are not wrapped.
--
-- Outside of the model: bcrypt, SHA-256, AES and the signature of JWTs, the LDAP protocol, the
-- Unicode tables, the formats of times, the decoding of a Kerberos ticket and the encoding of URLs are
-- arguments (`Env`, `CharClass`, `parse`, `Negotiation`, `Request`). Not modelled: the PostgreSQL
-- store, HTTP routing and pages, the handlers for apps and self-service, file input and output, the
-- migration bundles, configuration parsing, the SDK, and PruneAuditLog, which deletes from a bucket
-- under its cursor.
pub mod Prelude
pub mod Outcome
pub mod Bolt
pub mod Store
pub mod Auth
pub mod Handler
pub mod Oidc
pub mod Admin
pub mod Tests
