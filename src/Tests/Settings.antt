-- ===== src/Tests/Settings.antt =====
-- An update of the settings on a small document.
use simple_auth.Prelude.{◌≡◌, refl, false, some, none, [], pos}
use simple_auth.Outcome.{ok}
use simple_auth.Bolt.{put_raw}
use simple_auth.Bolt.Assoc.{assoc_bolt}
use simple_auth.Store.Types.{RuntimeSettings}
use simple_auth.Store.Roles.{save_runtime_settings, get_runtime_settings}
use simple_auth.Handler.Settings.{seconds}
use simple_auth.Handler.Limiter.{set_config}
use simple_auth.Handler.Act.{done, look, call, some_or, refuse_if, effect}
use simple_auth.Handler.AdminSettings.{
  is_stale, next_version, normalize_rate_limit, normalize_directory_outage, replace_settings,
  handle_update_settings,
}
use simple_auth.Handler.AdminSettings.Bounds.{IsSound}
use simple_auth.Handler.AdminSettings.InForce.{handle_update_settings-done}
use simple_auth.Tests.Handler.{env, config, state}
use simple_auth.Tests.Requests.{mint}

abbrev sent : RuntimeSettings
sent = record {
  deployment_name = "";
  redirect_uris = [];
  cors_origins = "";
  password_min_length = pos 0;
  password_require_uppercase = false;
  password_require_lowercase = false;
  password_require_digit = false;
  password_require_special = false;
  password_history_count = pos 0;
  account_lockout_threshold = pos 0;
  account_lockout_duration_s = pos 0;
  default_roles = [];
  rate_limit_max = pos 0;
  rate_limit_window_s = pos 100000;
  rate_limit_disabled = false;
  audit_retention_days = pos 0;
  auto_sso = false;
  auto_sso_delay = pos 0;
  enable_session_sso = false;
  session_sso_idle_hours = pos 0;
  session_sso_max_hours = pos 0;
  directory_outage_policy = "";
  directory_outage_grace_hours = pos 200;
  version = pos 0;
}

abbrev kept_settings : RuntimeSettings
kept_settings = record sent {
  password_min_length = pos 8;
  rate_limit_max = pos 2;
  rate_limit_window_s = pos 86400;
  directory_outage_policy = "grace";
  directory_outage_grace_hours = pos 168;
  version = pos 1;
}

settings_updated :
    handle_update_settings env config (λ s. s) (λ i. "") (pos 60) mint (some sent) state ≡ (
      done kept_settings,
      (handle_update_settings env config (λ s. s) (λ i. "") (pos 60) mint (some sent) state).1,
    )
unfolding handle_update_settings replace_settings normalize_directory_outage normalize_rate_limit
    save_runtime_settings look call some_or refuse_if effect put_raw assoc_bolt
settings_updated = refl

handle_update_settings-done_example :
    (s : RuntimeSettings) × (some sent ≡ some s)
    × (is_stale s none ≡ false)
    × IsSound kept_settings
    × (pos 1 ≡ next_version none)
    × (get_runtime_settings
          (handle_update_settings env config
            (λ s. s)
            (λ i. "")
            (pos 60)
            mint
            (some sent)
            state).1.store
        ≡ ok (some kept_settings))
    × ((handle_update_settings env config
          (λ s. s)
          (λ i. "")
          (pos 60)
          mint
          (some sent)
          state).1.runtime_settings
        ≡ some kept_settings)
    × ((handle_update_settings env config
          (λ s. s)
          (λ i. "")
          (pos 60)
          mint
          (some sent)
          state).1.login_limiter
        ≡ set_config (pos 2) (seconds (pos 86400)) false state.login_limiter)
handle_update_settings-done_example =
    handle_update_settings-done env config (λ s. s) (λ i. "") (pos 60) mint (some sent) state
      settings_updated
