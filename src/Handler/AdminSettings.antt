-- ===== src/Handler/AdminSettings.antt =====
-- internal/handler/admin_settings.go: the settings document of the administrator, how it is brought
-- within bounds, loaded at the start and replaced.
pub mod Bounds
pub mod InForce
use simple_auth.Prelude.{
  ℕ, zero, suc, String, Bool, true, false, not, ◌&&◌, ◌||◌, Option, none, some, List, [], ◌∷◌,
  if◌then◌else◌, ◌==◌, ltb, ℤ, pos, negsuc, is_positive, to_nat,
}
use simple_auth.Outcome.{Result, ok, err}
use simple_auth.Bolt.{Bbolt}
use simple_auth.Store.Types.{RuntimeSettings}
use simple_auth.Store.Roles.{get_runtime_settings, save_runtime_settings}
use simple_auth.Handler.State.{Config, Env, HandlerState, exec}
use simple_auth.Handler.Settings.{
  OutagePolicy, grace, block, allow, outage_policy_of, grace_hours_of, second, hour, seconds,
}
use simple_auth.Handler.Limiter.{set_config, same_int, same_bool}
use simple_auth.Handler.Jwt.{Mint}
use simple_auth.Handler.Issue.{audit}
use simple_auth.Handler.Act.{
  Refusal, http_error, Act, ◌>>=◌, ◌>>◌, reply, refuse_if, some_or, call, effect, look,
}

-- `if n < 1 { n = other }`
abbrev pub or_else : ℤ → ℤ → ℤ
or_else i other = if is_positive i then i else other

-- `if n > top { n = top }`
abbrev pub capped : ℕ → ℤ → ℤ
capped top (pos n) = if ltb top n then pos top else pos n
capped top (negsuc n) = negsuc n

-- `if n < 8 { n = 8 }`
abbrev pub at_least : ℕ → ℤ → ℤ
at_least floor (pos n) = if ltb n floor then pos floor else pos n
at_least floor (negsuc n) = pos floor

abbrev max_rate_limit : ℕ
max_rate_limit = 1000000000

abbrev max_window : ℕ
max_window = 86400

-- The configured number where the document has none, and 10 requests or 60 seconds where both lack it.
-- `window` is the configured window in whole seconds.
unfoldable pub normalize_rate_limit : Config → ℤ → RuntimeSettings → RuntimeSettings
normalize_rate_limit cfg window rs = record rs {
  rate_limit_max =
      capped max_rate_limit (or_else (or_else rs.rate_limit_max cfg.rate_limit_max) (pos 10));
  rate_limit_window_s =
      capped max_window (or_else (or_else rs.rate_limit_window_s window) (pos 60));
}

abbrev pub policy_text : OutagePolicy → String
policy_text grace = "grace"
policy_text block = "block"
policy_text allow = "allow"

-- Whether the policy is known, and the document; on an unknown one the hours are not looked at.
abbrev pub normalized_with : String → Option OutagePolicy → RuntimeSettings → Bool × RuntimeSettings
normalized_with policy none rs = (false, record rs { directory_outage_policy = policy })
normalized_with policy (some p) rs = (
  true,
  record rs {
    directory_outage_policy = policy_text p;
    directory_outage_grace_hours = pos (grace_hours_of rs.directory_outage_grace_hours);
  },
)

unfoldable pub normalize_directory_outage : Env → RuntimeSettings → Bool × RuntimeSettings
normalize_directory_outage env rs =
    let policy = env.lower_trim rs.directory_outage_policy in
    normalized_with policy (outage_policy_of policy) rs

-- The first error is no reason to stop at the start: the policy becomes grace.
abbrev pub with_grace : Bool × RuntimeSettings → RuntimeSettings
with_grace (true, rs) = rs
with_grace (false, rs) = record rs { directory_outage_policy = "grace" }

abbrev pub settings_or_none : Result (Option RuntimeSettings) → Option RuntimeSettings
settings_or_none (err e) = none
settings_or_none (ok o) = o

abbrev pub is_same_limit : RuntimeSettings → RuntimeSettings → Bool
is_same_limit old rs =
    same_int old.rate_limit_max rs.rate_limit_max
    && same_int old.rate_limit_window_s rs.rate_limit_window_s

abbrev pub is_same_outage : RuntimeSettings → RuntimeSettings → Bool
is_same_outage old rs =
    (old.directory_outage_policy == rs.directory_outage_policy)
    && same_int old.directory_outage_grace_hours rs.directory_outage_grace_hours

abbrev pub next_version : Option RuntimeSettings → ℤ
next_version none = pos 1
next_version (some old) = elim old.version [
  | pos n ↦ pos (suc n)
  | negsuc zero ↦ pos 0
  | negsuc (suc n) ↦ negsuc n
]

-- A version that is sent has to be the current one.
abbrev pub is_stale : RuntimeSettings → Option RuntimeSettings → Bool
is_stale rs none = false
is_stale rs (some old) = not (same_int rs.version (pos 0)) && not (same_int rs.version old.version)

-- The document that a request comes to, before its version is known.
abbrev pub guarded : Env → Config → ℤ → RuntimeSettings → Bool × RuntimeSettings
guarded env cfg window rs = normalize_directory_outage env (
    normalize_rate_limit cfg window
      (record rs { password_min_length = at_least 8 rs.password_min_length }))

module _ ⦃bolt : Bbolt⦄ where
  -- `h.runtimeSettings.set(rs)` and applyRateLimit
  unfoldable pub put_in_force : RuntimeSettings → HandlerState → HandlerState
  put_in_force rs st = record st {
    runtime_settings = some rs;
    login_limiter =
        set_config rs.rate_limit_max (seconds rs.rate_limit_window_s) rs.rate_limit_disabled
          st.login_limiter;
  }

  abbrev pub upgraded : RuntimeSettings → RuntimeSettings → HandlerState → HandlerState
  upgraded old rs st = put_in_force rs (
      if is_same_limit old rs && is_same_outage old rs
      then st
      else exec (save_runtime_settings rs) st)

  abbrev pub started :
      Env → Config → ℤ → RuntimeSettings → Option RuntimeSettings → HandlerState → HandlerState
  started env cfg window seed (some old) st =
      upgraded old
        (with_grace (normalize_directory_outage env (normalize_rate_limit cfg window old))) st
  started env cfg window seed none st =
      let rs = with_grace (normalize_directory_outage env seed) in
      put_in_force rs (exec (save_runtime_settings rs) st)

  -- `seed` is the document of the configuration. A stored document that cannot be read is replaced.
  unfoldable pub init_runtime_settings :
      Env → Config → ℤ → RuntimeSettings → HandlerState → HandlerState
  init_runtime_settings env cfg window seed st =
      started env cfg window seed (settings_or_none (get_runtime_settings st.store)) st

  abbrev text_of : Bool → String
  text_of true = "true"
  text_of false = "false"

  -- The two records of a change of the security posture.
  unfoldable pub audit_changes :
      (ℤ → String) → Mint → RuntimeSettings → Option RuntimeSettings → HandlerState → HandlerState
  audit_changes show_int mint rs none st = st
  audit_changes show_int mint rs (some old) st =
      let limited =
        if same_bool old.rate_limit_disabled rs.rate_limit_disabled && is_same_limit old rs
        then st
        else audit mint "rate_limit_changed" "admin"
            (("disabled", text_of rs.rate_limit_disabled)
              ∷ ("max", show_int rs.rate_limit_max)
              ∷ ("window_s", show_int rs.rate_limit_window_s)
              ∷ ("old_disabled", text_of old.rate_limit_disabled)
              ∷ ("old_max", show_int old.rate_limit_max)
              ∷ ("old_window_s", show_int old.rate_limit_window_s)
              ∷ [])
            st in
      if is_same_outage old rs
      then limited
      else audit mint "directory_outage_policy_changed" "admin"
          (("policy", rs.directory_outage_policy)
            ∷ ("grace_hours", show_int rs.directory_outage_grace_hours)
            ∷ ("old_policy", old.directory_outage_policy)
            ∷ ("old_grace_hours", show_int old.directory_outage_grace_hours)
            ∷ [])
          limited

  -- The version check, the store, the settings in force and the limiter, under one lock.
  unfoldable pub replace_settings : (ℤ → String) → Mint → RuntimeSettings → Act RuntimeSettings
  replace_settings show_int mint checked = do
    old ← look λ st. st.runtime_settings
    refuse_if (is_stale checked old)
        (http_error 409 "settings changed since they were loaded — reload and retry")
    let rs = record checked { version = next_version old }
    call (http_error 500 "failed to save settings") (save_runtime_settings rs)
    effect (audit_changes show_int mint rs old)
    effect (put_in_force rs)
    effect (audit mint "settings_updated" "admin" [])
    reply rs

  -- `trim` is strings.TrimSpace; `show_int` prints a number of the audit log.
  unfoldable pub handle_update_settings :
      Env
      → Config
      → (String → String)
      → (ℤ → String)
      → ℤ
      → Mint
      → Option RuntimeSettings
      → Act RuntimeSettings
  handle_update_settings env cfg trim show_int window mint body = do
    sent ← some_or (http_error 400 "invalid request body") body
    refuse_if (trim sent.cors_origins == "*")
        (http_error 400 "cors_origins cannot be '*' — list explicit origins")
    let checked = guarded env cfg window sent
    refuse_if (not checked.0)
        (http_error 400 "directory_outage_policy must be one of: grace, block, allow")
    replace_settings show_int mint checked.1
