-- ===== src/Handler/Settings.antt =====
-- internal/handler/admin_settings.go: the settings that the other handlers read.
use simple_auth.Prelude.{
  ℕ, ◌*◌, String, Bool, ◌||◌, Option, none, some, List, [], ◌∷◌, ltb, if◌then◌else◌, ◌==◌, ℤ, pos,
  is_positive, to_nat,
}
use simple_auth.Store.Types.{RuntimeSettings}
use simple_auth.Handler.State.{Config, Env}

abbrev pub second : ℕ
second = 1000000000

abbrev pub hour : ℕ
hour = 3600 * second

-- `time.Duration(n) * time.Second`, of a positive n
abbrev pub seconds : ℤ → ℤ
seconds i = pos (to_nat i * second)

abbrev pub hours : ℤ → ℤ
hours i = pos (to_nat i * hour)

abbrev pub get_redirect_uris : Config → Option RuntimeSettings → List String
get_redirect_uris cfg none = cfg.redirect_uris
get_redirect_uris cfg (some rs) = elim rs.redirect_uris [ [] ↦ cfg.redirect_uris | u ∷ l ↦ u ∷ l ]

abbrev pub get_cors_origins : Config → Option RuntimeSettings → String
get_cors_origins cfg none = cfg.cors_origins
get_cors_origins cfg (some rs) = if rs.cors_origins == "" then cfg.cors_origins else rs.cors_origins

abbrev pub get_deployment_name : Config → Option RuntimeSettings → String
get_deployment_name cfg none = cfg.deployment_name
get_deployment_name cfg (some rs) =
    if rs.deployment_name == "" then cfg.deployment_name else rs.deployment_name

abbrev first_or : String → List String → String
first_or default [] = default
first_or default (u ∷ l) = u

abbrev pub get_default_redirect_uri : Config → Option RuntimeSettings → String
get_default_redirect_uri cfg rs = first_or cfg.redirect_uri (get_redirect_uris cfg rs)

abbrev pub get_password_history_count : Config → Option RuntimeSettings → ℤ
get_password_history_count cfg none = cfg.password_history_count
get_password_history_count cfg (some rs) = rs.password_history_count

abbrev pub get_audit_retention : Config → Option RuntimeSettings → ℤ
get_audit_retention cfg none = cfg.audit_retention
get_audit_retention cfg (some rs) =
    if is_positive rs.audit_retention_days
    then hours (pos (to_nat rs.audit_retention_days * 24))
    else cfg.audit_retention

abbrev pub get_account_lockout_threshold : Config → Option RuntimeSettings → ℤ
get_account_lockout_threshold cfg none = cfg.account_lockout_threshold
get_account_lockout_threshold cfg (some rs) = rs.account_lockout_threshold

abbrev pub get_account_lockout_duration : Config → Option RuntimeSettings → ℤ
get_account_lockout_duration cfg none = cfg.account_lockout_duration
get_account_lockout_duration cfg (some rs) =
    if is_positive rs.account_lockout_duration_s
    then seconds rs.account_lockout_duration_s
    else cfg.account_lockout_duration

abbrev pub get_session_sso_enabled : Config → Option RuntimeSettings → Bool
get_session_sso_enabled cfg none = cfg.enable_session_sso
get_session_sso_enabled cfg (some rs) = rs.enable_session_sso

-- The fallbacks of the two SSO lifetimes: the configuration, then a number of hours.
abbrev configured_or : ℤ → ℕ → ℤ
configured_or ttl default = if is_positive ttl then ttl else hours (pos default)

abbrev pub get_session_sso_idle_ttl : Config → Option RuntimeSettings → ℤ
get_session_sso_idle_ttl cfg none = configured_or cfg.session_sso_idle_ttl 8
get_session_sso_idle_ttl cfg (some rs) =
    if is_positive rs.session_sso_idle_hours
    then hours rs.session_sso_idle_hours
    else configured_or cfg.session_sso_idle_ttl 8

abbrev pub get_session_sso_max_ttl : Config → Option RuntimeSettings → ℤ
get_session_sso_max_ttl cfg none = configured_or cfg.session_sso_max_ttl 720
get_session_sso_max_ttl cfg (some rs) =
    if is_positive rs.session_sso_max_hours
    then hours rs.session_sso_max_hours
    else configured_or cfg.session_sso_max_ttl 720

pub data OutagePolicy : Type 0 where
  grace block allow : OutagePolicy

-- The switch of normalizeDirectoryOutage on the trimmed policy; an unknown one is an error, which
-- getDirectoryOutagePolicy reads as grace.
abbrev pub outage_policy_of : String → Option OutagePolicy
outage_policy_of policy =
    if policy == "" || policy == "grace"
    then some grace
    else if policy == "block"
    then some block
    else if policy == "allow"
    then some allow
    else none

-- The hours of grace, brought between 1 and 168.
abbrev pub grace_hours_of : ℤ → ℕ
grace_hours_of i = if is_positive i then (if ltb 168 (to_nat i) then 168 else to_nat i) else 10

abbrev policy_or_grace : Option OutagePolicy → OutagePolicy
policy_or_grace none = grace
policy_or_grace (some p) = p

-- On an unknown policy, normalizeDirectoryOutage returns before it looks at the hours.
abbrev hours_in_force : Option OutagePolicy → ℤ → ℤ
hours_in_force none i = i
hours_in_force (some p) i = pos (grace_hours_of i)

abbrev outage_policy_from : Env → String → ℤ → OutagePolicy × ℤ
outage_policy_from env policy i =
    let p = outage_policy_of (env.lower_trim policy) in (policy_or_grace p, hours_in_force p i)

-- The policy, and the grace in hours.
abbrev pub get_directory_outage_policy : Env → Config → Option RuntimeSettings → OutagePolicy × ℤ
get_directory_outage_policy env cfg none =
    outage_policy_from env cfg.directory_outage_policy cfg.directory_outage_grace_hours
get_directory_outage_policy env cfg (some rs) =
    outage_policy_from env rs.directory_outage_policy rs.directory_outage_grace_hours
