-- ===== src/Handler/State.antt =====
-- internal/handler: what the modelled handlers share.
--
-- `Config` holds the fields of internal/config that they read, `Env` the answers of code outside of
-- the model: bcrypt, the directory behind internal/auth/ldap.go, the decryption of
-- internal/handler/secrets.go, and the Unicode and time functions of Go's library. A handler reads
-- the clock as an argument `now`, once for each request. Durations are nanoseconds.
use simple_auth.Prelude.{String, Bool, Option, List, ℤ}
use simple_auth.Bolt.{Bbolt}
use simple_auth.Store.Types.{Time, LdapConfig, RuntimeSettings}
use simple_auth.Store.State.{BoltStore, Method}
use simple_auth.Handler.Limiter.{RateLimiter}

pub record Config : Type 0 where
  pub hostname : String
  pub port : String
  pub admin_key : String
  pub deployment_name : String
  pub jwt_issuer : String
  pub tls_disabled : Bool
  pub base_path : String
  pub audit_retention : ℤ
  pub rate_limit_max : ℤ
  pub rate_limit_window : ℤ
  pub cors_origins : String
  pub client_id : String
  pub client_secret : String
  pub redirect_uri : String
  pub redirect_uris : List String
  pub default_roles : List String
  pub password_min_length : ℤ
  pub password_require_uppercase : Bool
  pub password_require_lowercase : Bool
  pub password_require_digit : Bool
  pub password_require_special : Bool
  pub password_history_count : ℤ
  pub account_lockout_threshold : ℤ
  pub account_lockout_duration : ℤ
  pub auto_sso : Bool
  pub auto_sso_delay : ℤ
  pub directory_outage_policy : String
  pub directory_outage_grace_hours : ℤ
  pub enable_session_sso : Bool
  pub session_sso_idle_ttl : ℤ
  pub session_sso_max_ttl : ℤ

-- internal/auth/ldap.go, `LDAPResult`.
pub record LdapResult : Type 0 where
  pub username : String
  pub display_name : String
  pub email : String
  pub department : String
  pub company : String
  pub job_title : String
  pub groups : List String
  pub disabled : Bool

-- What LDAPSearchUser answers: an account, ErrLDAPUserNotFound, or another error.
pub data SearchAnswer : Type 0 where
  account : LdapResult → SearchAnswer
  no_account : SearchAnswer
  unreachable : SearchAnswer

pub record Env : Type 0 where
  -- CompareHashAndPassword of a hash and a password
  pub check_password : String → String → Bool
  -- GenerateFromPassword
  pub hash_password : String → Option String
  -- LDAPAuthenticate: the configuration, the name, the password
  pub ldap_authenticate : LdapConfig → String → String → Option LdapResult
  -- LDAPSearchUser: the configuration, the attribute, the name
  pub ldap_search : LdapConfig → String → String → SearchAnswer
  pub decrypt_secret : String → Option String
  -- strings.ToLower(strings.TrimSpace(s))
  pub lower_trim : String → String
  -- time.RFC3339
  pub format_time : Time → String
  pub parse_time : String → Option Time

-- The handler's state: the store, the settings in force, when a user was last confirmed in the
-- directory, and the limiter of the login endpoints.
pub record HandlerState ⦃bolt : Bbolt⦄ : Type 0 where
  pub store : BoltStore
  pub runtime_settings : Option RuntimeSettings
  pub dir_checked : List (String × Time)
  pub login_limiter : RateLimiter

module _ ⦃bolt : Bbolt⦄ where
  -- A call whose error is not looked at.
  abbrev pub exec : {A : Type 0} → Method A → HandlerState → HandlerState
  exec m st = record st { store = (m st.store).1 }
