-- ===== src/Handler/Lockout.antt =====
-- internal/handler/auth.go: isAccountLocked and recordFailedLogin.
--
-- A method of the handler gets the user that the caller's pointer holds and gives back what it holds
-- after the call.
pub mod Guard
use simple_auth.Prelude.{
  ℕ, suc, ◌+◌, ◌-◌, String, Bool, true, false, ◌&&◌, Option, none, some, ltb, leb, if◌then◌else◌, ℤ,
  pos, negsuc, is_positive, to_nat,
}
use simple_auth.Bolt.{Bbolt}
use simple_auth.Store.Types.{Time, User}
use simple_auth.Store.Users.{update_user}
use simple_auth.Handler.State.{Config, HandlerState, exec}
use simple_auth.Handler.Limiter.{add_duration}
use simple_auth.Handler.Settings.{get_account_lockout_threshold, get_account_lockout_duration}

-- The user with the lock and the counter cleared.
abbrev pub unlocked : User → User
unlocked u = record u { failed_login_attempts = 0; locked_until = none }

-- The user after one more failure.
abbrev pub failed_once : ℤ → ℤ → Time → User → User
failed_once threshold duration now u =
    let attempts = suc u.failed_login_attempts in
    record u {
      failed_login_attempts = attempts;
      locked_until =
          if is_positive threshold && leb (to_nat threshold) attempts
          then some (add_duration now duration)
          else u.locked_until;
    }

module _ ⦃bolt : Bbolt⦄ where
  abbrev pub locked_with : Time → Option Time → User → HandlerState → Bool × User × HandlerState
  locked_with now none u st = (false, u, st)
  locked_with now (some until) u st =
      if ltb until now
      then (false, unlocked u, exec (update_user (unlocked u)) st)
      else (true, u, st)

  unfoldable pub is_account_locked :
      Config → Time → User → HandlerState → Bool × User × HandlerState
  is_account_locked cfg now u st =
      if is_positive (get_account_lockout_threshold cfg st.runtime_settings)
      then locked_with now u.locked_until u st
      else (false, u, st)

  unfoldable pub record_failed_login : Config → Time → User → HandlerState → HandlerState
  record_failed_login cfg now u st =
      exec
        (update_user (
          failed_once (get_account_lockout_threshold cfg st.runtime_settings)
            (get_account_lockout_duration cfg st.runtime_settings) now u))
        st
