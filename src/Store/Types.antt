-- ===== src/Store/Types.antt =====
-- internal/store/types.go: the records that the store keeps.
--
-- A `time.Time` is the number of nanoseconds since Go's zero time, so `IsZero` is a test against 0. A
-- nil pointer is `none`. The free-form `Data` of an audit entry is a list of names and JSON texts.
use simple_auth.Prelude.{ℕ, String, Bool, Option, List}
use simple_auth.Prelude.{ℤ}

abbrev pub Time : Type 0
Time = ℕ

pub record User : Type 0 where
  pub guid : String
  pub password_hash : String
  pub display_name : String
  pub email : String
  pub department : String
  pub company : String
  pub job_title : String
  pub sam_account_name : String
  pub disabled : Bool
  pub merged_into : String
  pub created_at : Time
  pub owner_app_id : String
  pub force_password_change : Bool
  pub password_history : List String
  pub failed_login_attempts : ℕ
  pub locked_until : Option Time
  pub groups : List String

-- Go's `map[string][]string`.
abbrev pub NamesByKey : Type 0
NamesByKey = List (String × List String)

pub record AppAuthz : Type 0 where
  pub app_id : String
  pub roles : List String
  pub permissions : List String
  pub role_permissions : NamesByKey
  pub user_assignments : NamesByKey
  pub group_assignments : NamesByKey

pub record AppAdmin : Type 0 where
  pub app_id : String
  pub user_guid : String
  pub added_by : String
  pub added_at : Time

pub record LdapConfig : Type 0 where
  pub url : String
  pub base_dn : String
  pub bind_dn : String
  pub bind_password : String
  pub username_attr : String
  pub custom_filter : String
  pub use_tls : Bool
  pub skip_tls_verify : Bool
  pub allow_insecure : Bool
  pub display_name_attr : String
  pub email_attr : String
  pub department_attr : String
  pub company_attr : String
  pub job_title_attr : String
  pub groups_attr : String
  pub domain : String
  pub configured_at : Time

pub record App : Type 0 where
  pub app_id : String
  pub name : String
  pub audience : String
  pub secret_hash : String
  pub redirect_uris : List String
  pub cors_origins : List String
  pub require_assignment : Bool
  pub allow_local_users : Bool
  pub disabled : Bool
  pub created_at : Time
  pub secret_rotated_at : Time
  pub base_url : String
  pub display_name : List (String × String)
  pub category : String
  pub icon : String

pub record IdentityMapping : Type 0 where
  pub provider : String
  pub external_id : String

pub record IdentityMappingEntry : Type 0 where
  pub provider : String
  pub external_id : String
  pub user_guid : String

pub record RefreshToken : Type 0 where
  pub token_id : String
  pub family_id : String
  pub user_guid : String
  pub used : Bool
  pub expires_at : Time
  pub created_at : Time
  pub app_id : String
  pub audience : String

pub record AuditEntry : Type 0 where
  pub id : String
  pub timestamp : Time
  pub event : String
  pub actor : String
  pub ip : String
  pub details : List (String × String)

-- `Limit` and `Offset` are Go ints.
pub record AuditQuery : Type 0 where
  pub event : String
  pub user_id : String
  pub from : Time
  pub to : Time
  pub limit : ℤ
  pub offset : ℤ

pub record OidcAuthCode : Type 0 where
  pub code : String
  pub user_guid : String
  pub app_id : String
  pub redirect_uri : String
  pub scope : String
  pub nonce : String
  pub code_challenge : String
  pub code_challenge_method : String
  pub expires_at : Time
  pub created_at : Time

pub record Session : Type 0 where
  pub id : String
  pub user_guid : String
  pub created_at : Time
  pub last_used_at : Time
  pub expires_at : Time
  pub user_agent : String
  pub ip : String

pub record RuntimeSettings : Type 0 where
  pub deployment_name : String
  pub redirect_uris : List String
  pub cors_origins : String
  pub password_min_length : ℤ
  pub password_require_uppercase : Bool
  pub password_require_lowercase : Bool
  pub password_require_digit : Bool
  pub password_require_special : Bool
  pub password_history_count : ℤ
  pub account_lockout_threshold : ℤ
  pub account_lockout_duration_s : ℤ
  pub default_roles : List String
  pub rate_limit_max : ℤ
  pub rate_limit_window_s : ℤ
  pub rate_limit_disabled : Bool
  pub audit_retention_days : ℤ
  pub auto_sso : Bool
  pub auto_sso_delay : ℤ
  pub enable_session_sso : Bool
  pub session_sso_idle_hours : ℤ
  pub session_sso_max_hours : ℤ
  pub directory_outage_policy : String
  pub directory_outage_grace_hours : ℤ
  pub version : ℤ
