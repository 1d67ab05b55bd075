-- ===== src/Store/State.antt =====
-- internal/store/bolt.go: the buckets, and the transactions of `view` and `update`.
--
-- Each bucket is a field. The bucket `reg_tokens` is created by `init` and used by nothing, so it has
-- none. An `update` runs its function on the committed state; an error rolls everything back.
use simple_auth.Prelude.{String, Option, List}
use simple_auth.Outcome.{Result, ok, err}
use simple_auth.Bolt.{Bbolt, Bucket}
use simple_auth.Store.Types.{
  Time, User, NamesByKey, AppAuthz, AppAdmin, LdapConfig, App, IdentityMapping, RefreshToken,
  AuditEntry, OidcAuthCode, Session, RuntimeSettings,
}

-- What the JSON under a key of the bucket `config` encodes. A map may be nil.
pub data ConfigDoc : Type 0 where
  ldap_config : LdapConfig → ConfigDoc
  names : List String → ConfigDoc
  names_by_key : Option NamesByKey → ConfigDoc
  runtime_settings : RuntimeSettings → ConfigDoc
  text : String → ConfigDoc

pub record BoltStore ⦃bolt : Bbolt⦄ : Type 0 where
  pub config : Bucket ConfigDoc
  pub users : Bucket User
  pub identity_mappings : bolt.Bucket String
  pub user_roles : Bucket (List String)
  pub user_permissions : Bucket (List String)
  pub refresh_tokens : Bucket RefreshToken
  pub audit_log : Bucket AuditEntry
  pub idx_mappings_by_guid : Bucket (List IdentityMapping)
  pub oidc_auth_codes : Bucket OidcAuthCode
  pub revoked_tokens : Bucket Time
  pub revoked_users : Bucket Time
  pub sessions : Bucket Session
  pub apps : Bucket App
  pub app_authz : Bucket AppAuthz
  pub app_admins : Bucket AppAdmin

module _ ⦃bolt : Bbolt⦄ where
  -- `OpenBolt` on an empty directory: `init` creates every bucket.
  abbrev pub init : BoltStore
  init = record {
    config = bolt.empty;
    users = bolt.empty;
    identity_mappings = bolt.empty;
    user_roles = bolt.empty;
    user_permissions = bolt.empty;
    refresh_tokens = bolt.empty;
    audit_log = bolt.empty;
    idx_mappings_by_guid = bolt.empty;
    oidc_auth_codes = bolt.empty;
    revoked_tokens = bolt.empty;
    revoked_users = bolt.empty;
    sessions = bolt.empty;
    apps = bolt.empty;
    app_authz = bolt.empty;
    app_admins = bolt.empty;
  }

  -- The function that `update` runs: it may fail part of the way through.
  abbrev pub Tx : Type 0 → Type 0
  Tx A = BoltStore → Result (A × BoltStore)

  -- A method that writes: its result, and the store that it leaves.
  abbrev pub Method : Type 0 → Type 0
  Method A = BoltStore → Result A × BoltStore

  abbrev pub commit : {A : Type 0} → BoltStore → Result (A × BoltStore) → Result A × BoltStore
  commit s (ok (a, s')) = (ok a, s')
  commit s (err e) = (err e, s)

  abbrev pub update : {A : Type 0} → Tx A → Method A
  update tx s = commit s (tx s)
