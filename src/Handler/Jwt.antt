-- ===== src/Handler/Jwt.antt =====
-- internal/auth/jwt.go: the claims of a token and the functions that issue tokens.
--
-- `sign` is the RSA signature over the encoded claims; none where signing fails. Times stay in
-- nanoseconds, which the encoding cuts to seconds. A nil pointer or map of roles is `none` or [].
use simple_auth.Prelude.{String, Bool, false, Option, none, List, [], if◌then◌else◌, ◌==◌, ℤ}
use simple_auth.Store.Types.{Time, NamesByKey}
use simple_auth.Handler.Limiter.{add_duration}

pub record Claims : Type 0 where
  -- jwt.RegisteredClaims
  pub id : String
  pub issuer : String
  pub subject : String
  pub audience : List String
  pub issued_at : Time
  pub expires_at : Time
  pub guid : String
  pub name : String
  pub email : String
  pub department : String
  pub company : String
  pub job_title : String
  pub sam_account_name : String
  pub roles : List String
  pub permissions : List String
  pub groups : List String
  pub impersonated : Bool
  pub impersonated_by : String
  pub family_id : String
  pub preferred_username : String
  pub realm_access : Option (List String)
  pub resource_access : NamesByKey
  pub scope : String
  pub nonce : String
  pub at_hash : String
  pub typ : String
  pub azp : String

-- The zero value.
abbrev pub no_claims : Claims
no_claims = record {
  id = "";
  issuer = "";
  subject = "";
  audience = [];
  issued_at = 0;
  expires_at = 0;
  guid = "";
  name = "";
  email = "";
  department = "";
  company = "";
  job_title = "";
  sam_account_name = "";
  roles = [];
  permissions = [];
  groups = [];
  impersonated = false;
  impersonated_by = "";
  family_id = "";
  preferred_username = "";
  realm_access = none;
  resource_access = [];
  scope = "";
  nonce = "";
  at_hash = "";
  typ = "";
  azp = "";
}

-- What a request draws from outside: the clock, the address, fresh ids, the key, the configured issuer
-- and lifetimes, and the format of the audit keys.
pub record Mint : Type 0 where
  pub now : Time
  pub ip : String
  pub access_id : String
  pub token_id : String
  pub family_id : String
  pub id_token_id : String
  pub audit_id : String
  pub issuer : String
  pub access_ttl : ℤ
  pub refresh_ttl : ℤ
  pub impersonate_ttl : ℤ
  pub sign : Claims → Option String
  pub format_nano : Time → String

-- The registered claims that the issuing functions set, the subject and the audience kept.
abbrev pub registered : Mint → String → ℤ → String → Claims → Claims
registered mint id ttl issuer c = record c {
  id = id;
  issuer = issuer;
  issued_at = mint.now;
  expires_at = add_duration mint.now ttl;
}

abbrev pub issue_access_token_with_issuer : Mint → Claims → ℤ → String → Option String
issue_access_token_with_issuer mint c ttl issuer =
    mint.sign (registered mint mint.access_id ttl issuer c)

abbrev pub issue_access_token : Mint → Claims → ℤ → Option String
issue_access_token mint c ttl = mint.sign (registered mint mint.access_id ttl mint.issuer c)

-- An empty family is replaced by a new one.
abbrev pub family_or_new : Mint → String → String
family_or_new mint family = if family == "" then mint.family_id else family

abbrev pub refresh_claims : Mint → String → String → Claims
refresh_claims mint guid family =
    registered mint mint.token_id mint.refresh_ttl mint.issuer
      (record no_claims { subject = guid; family_id = family_or_new mint family })

abbrev pub issue_refresh_token : Mint → String → String → Option String
issue_refresh_token mint guid family = mint.sign (refresh_claims mint guid family)

abbrev pub issue_id_token : Mint → Claims → ℤ → String → Option String
issue_id_token mint c ttl issuer =
    mint.sign (record (registered mint mint.id_token_id ttl issuer c) { typ = "ID" })
