-- ===== src/Handler/Signin.antt =====
-- internal/handler/auth.go: the login endpoint, impersonation and userinfo.
pub mod Gate
use simple_auth.Prelude.{
  String, Bool, true, false, not, ◌&&◌, ◌||◌, Option, none, some, List, [], ◌∷◌, ◌++◌,
  if◌then◌else◌, ◌==◌,
}
use simple_auth.Outcome.{Result, ok, err}
use simple_auth.Bolt.{Bbolt}
use simple_auth.Store.Types.{Time, User, App, IdentityMapping}
use simple_auth.Store.State.{BoltStore}
use simple_auth.Store.Users.{resolve_user}
use simple_auth.Store.Mappings.{get_mappings_for_user}
use simple_auth.Handler.State.{Config, Env, HandlerState}
use simple_auth.Handler.Directory.{list_or_nil}
use simple_auth.Handler.Login as Login
use simple_auth.Handler.Login.{
  Login, LoginError, accepted, authenticate_user, account_disabled, account_locked,
  invalid_credentials, user_resolution_failed,
}
use simple_auth.Handler.Roles.{Grant, granted, denied, app_audience, resolve_token_roles}
use simple_auth.Handler.Jwt.{Claims, Mint, issue_access_token}
use simple_auth.Handler.Issue.{audit, claims_of, issue_token_pair, resolve_preferred_username}
use simple_auth.Handler.Access.{Validated, good, bad, validate_access_token}
use simple_auth.Handler.Act.{
  Refusal, http_error, Answer, done, refused, Act, ◌>>=◌, ◌>>◌, reply, refuse_if, some_or, fetch,
  effect, rate_limit, look, after,
}
use simple_auth.Handler.Guards.{serve_app, grant_roles, refuse_revoked}

-- The texts of authenticateUser's errors.
abbrev pub reason_of : LoginError → String
reason_of account_disabled = "account disabled"
reason_of account_locked = "account locked"
reason_of invalid_credentials = "invalid credentials"
reason_of user_resolution_failed = "user resolution failed"

pub record LoginBody : Type 0 where
  pub username : String
  pub password : String
  pub app_id : String
  pub client_id : String

pub record SignedIn : Type 0 where
  pub access_token : String
  pub refresh_token : String
  pub force_password_change : Bool

pub record Impersonation : Type 0 where
  pub target_guid : String
  pub app_id : String

-- "ldap" where a mapping has another provider than "local".
unfoldable pub auth_source : List IdentityMapping → String
auth_source [] = "local"
auth_source (m ∷ l) = let rest = auth_source l in if m.provider == "local" then rest else "ldap"

pub record Profile : Type 0 where
  pub guid : String
  pub preferred_username : String
  pub sam_account_name : String
  pub display_name : String
  pub email : String
  pub department : String
  pub company : String
  pub job_title : String
  pub roles : List String
  pub permissions : List String
  pub groups : List String
  pub auth_source : String

module _ ⦃bolt : Bbolt⦄ where
  -- A login that is refused leaves a record in the audit log.
  abbrev pub login_or :
      Refusal
      → Mint
      → String
      → List (String × String)
      → Login × HandlerState
      → Answer (String × List String) × HandlerState
  login_or r mint username extra (accepted guid groups, st) = (done (guid, groups), st)
  login_or r mint username extra (Login.refused e, st) = (
    refused r,
    audit mint "login_failed" "" (("username", username) ∷ ("reason", reason_of e) ∷ extra) st,
  )

  -- `userGUID, groups, err := h.authenticateUser(…)`
  unfoldable pub log_in :
      Refusal
      → Env
      → Config
      → Mint
      → (fresh username password : String) → List (String × String)
      → App
      → Act (String × List String)
  log_in r env cfg mint fresh username password extra a st =
      login_or r mint username extra
        (authenticate_user env cfg fresh mint.now username password (some a) st)

  -- `auditLogin`: the event with the user's names.
  unfoldable pub audit_login : Mint → User → List (String × String) → HandlerState → HandlerState
  audit_login mint u extra st =
      audit mint "login_success" u.guid
        (("username", resolve_preferred_username u st.store)
          ∷ ("display_name", u.display_name)
          ∷ ("email", u.email)
          ∷ extra)
        st

  abbrev pub pair_or :
      Refusal
      → HandlerState
      → Option (String × String) × BoltStore
      → Answer (String × String) × HandlerState
  pair_or r st (some pair, s) = (done pair, record st { store = s })
  pair_or r st (none, s) = (refused r, record st { store = s })

  -- `accessToken, refreshToken, expiresIn, err := h.issueTokenPair(…)`
  unfoldable pub token_pair :
      Refusal → Mint → User → List String × List String → List String → App → Act (String × String)
  token_pair r mint u lists groups a st =
      pair_or r st (issue_token_pair mint u lists.0 lists.1 groups (some a) st.store)

  -- issueTokenResponse, and its copy for a user who must change the password.
  unfoldable pub issue_token_response :
      Config → Mint → User → List String → App → List (String × String) → Act SignedIn
  issue_token_response cfg mint u groups a extra = do
    grant ← grant_roles (http_error 403 "access denied: not assigned to this app") cfg a u
    pair ← token_pair (http_error 500 "token generation failed") mint u grant groups a
    effect (audit_login mint u extra)
    reply (record {
      access_token = pair.0;
      refresh_token = pair.1;
      force_password_change = u.force_password_change;
    })

  abbrev forced : User → List (String × String)
  forced u = if u.force_password_change then ("force_password_change", "true") ∷ [] else []

  -- `body` is the decoded request, if it decodes.
  unfoldable pub handle_login : Env → Config → Mint → String → Option LoginBody → Act SignedIn
  handle_login env cfg mint fresh body = do
    rate_limit mint.now mint.ip (http_error 429 "too many login attempts, try again later")
    b ← some_or (http_error 400 "invalid request body") body
    refuse_if (b.username == "" || b.password == "")
        (http_error 400 "username and password required")
    a ←
        serve_app (http_error 400 "unknown app") cfg
          (if b.app_id == "" then b.client_id else b.app_id)
    login ←
        log_in (http_error 401 "invalid credentials") env cfg mint fresh b.username b.password [] a
    u ← fetch (http_error 500 "user resolution error") (resolve_user login.0)
    issue_token_response cfg mint u login.1 a (forced u)

  abbrev pub lists_of : Grant → List String × List String
  lists_of (granted roles perms) = (roles, perms)
  lists_of denied = ([], [])

  abbrev pub impersonation_claims : User → BoltStore → List String × List String → App → Claims
  impersonation_claims target s lists a = record (claims_of target s lists.0 lists.1) {
    impersonated = true;
    impersonated_by = "admin";
    audience = app_audience a ∷ [];
  }

  -- Behind the master key. A target who is not assigned to the app gets a token without roles.
  unfoldable pub handle_impersonate : Config → Mint → Option Impersonation → Act String
  handle_impersonate cfg mint body = do
    b ← some_or (http_error 400 "invalid request body") body
    refuse_if (b.target_guid == "") (http_error 400 "target_guid required")
    target ← fetch (http_error 404 "target user not found") (resolve_user b.target_guid)
    refuse_if target.disabled (http_error 403 "target user is disabled")
    refuse_revoked (http_error 403 "target user access is revoked") mint.now target.guid
    a ← serve_app (http_error 400 "unknown app") cfg b.app_id
    claims ← look λ st.
        impersonation_claims target st.store (lists_of (resolve_token_roles cfg a target st.store))
          a
    access ←
        some_or (http_error 500 "token generation failed")
          (issue_access_token mint claims mint.impersonate_ttl)
    effect (audit mint "impersonation" "admin" (("target_guid", target.guid) ∷ []))
    reply access

  abbrev claims_or : Refusal → Validated → Act Claims
  claims_or r (good c) st = (done c, st)
  claims_or r (bad e) st = (refused r, st)

  -- `claims, err := h.validateAccessToken(tokenStr)`
  unfoldable pub access_claims : Refusal → (String → Option Claims) → Time → String → Act Claims
  access_claims r parse now token st =
      claims_or r (validate_access_token parse now token st.store) st

  abbrev pub profile : User → Claims → BoltStore → Profile
  profile u c s = record {
    guid = u.guid;
    preferred_username = resolve_preferred_username u s;
    sam_account_name = u.sam_account_name;
    display_name = u.display_name;
    email = u.email;
    department = u.department;
    company = u.company;
    job_title = u.job_title;
    roles = c.roles;
    permissions = c.permissions;
    groups = c.groups;
    auth_source = auth_source (list_or_nil (get_mappings_for_user u.guid s));
  }

  unfoldable pub handle_user_info : (String → Option Claims) → Time → String → Act Profile
  unfolding auth_source
  handle_user_info parse now token = do
    refuse_if (token == "") (http_error 401 "missing authorization header")
    c ← access_claims (http_error 401 "invalid or revoked token") parse now token
    u ← fetch (http_error 404 "user not found") (resolve_user c.subject)
    look λ st. profile u c st.store
