-- ===== src/Handler/Reset.antt =====
-- internal/handler/auth.go: handleResetPassword, which rotates a local password.
pub mod Possession
use simple_auth.Prelude.{
  String, Bool, true, false, not, ◌&&◌, ◌||◌, Option, none, some, List, [], ◌∷◌, if◌then◌else◌,
  ◌==◌, is_positive, ℤ,
}
use simple_auth.Bolt.{Bbolt}
use simple_auth.Store.Types.{Time, User, RuntimeSettings}
use simple_auth.Store.Users.{resolve_user, update_user}
use simple_auth.Auth.Passwords.{
  CharClass, PasswordPolicy, Verdict, valid, too_short, must_contain, validate_password,
  check_password_history, add_to_password_history,
}
use simple_auth.Handler.State.{Config, Env, HandlerState}
use simple_auth.Handler.Settings.{get_password_history_count}
use simple_auth.Handler.Directory.{is_directory_backed}
use simple_auth.Handler.Jwt.{Claims, Mint}
use simple_auth.Handler.Issue.{audit}
use simple_auth.Handler.Signin.{access_claims}
use simple_auth.Handler.Act.{
  Refusal, http_error, Answer, done, refused, Act, ◌>>=◌, ◌>>◌, reply, refuse_if, some_or, fetch,
  call, effect, look,
}

unfoldable pub password_policy : Config → Option RuntimeSettings → PasswordPolicy
password_policy cfg none = record {
  min_length = cfg.password_min_length;
  require_uppercase = cfg.password_require_uppercase;
  require_lowercase = cfg.password_require_lowercase;
  require_digit = cfg.password_require_digit;
  require_special = cfg.password_require_special;
}
password_policy cfg (some rs) = record {
  min_length = rs.password_min_length;
  require_uppercase = rs.password_require_uppercase;
  require_lowercase = rs.password_require_lowercase;
  require_digit = rs.password_require_digit;
  require_special = rs.password_require_special;
}

pub record ResetBody : Type 0 where
  pub current_password : String
  pub new_password : String

abbrev pub is_valid : Verdict → Bool
is_valid valid = true
is_valid too_short = false
is_valid (must_contain l) = false

-- The user with the new hash: the old one goes to the history, the flag is cleared.
abbrev pub rehashed : ℤ → String → User → User
rehashed count hash u = record u {
  password_history =
      if is_positive count && not (u.password_hash == "")
      then add_to_password_history u.password_history u.password_hash count
      else u.password_history;
  password_hash = hash;
  force_password_change = false;
}

abbrev reason : Bool → String
reason true = "directory_backed"
reason false = "no_local_password"

abbrev denial : Bool → Refusal
denial true = http_error 403 "password is managed by the directory — change it in Active Directory"
denial false =
    http_error 403 "no local password is set for this account — ask an administrator to set one"

module _ ⦃bolt : Bbolt⦄ where
  -- A user without a local hash is turned away, and that is recorded.
  unfoldable pub require_local_hash : Mint → User → Act (Unit {0})
  require_local_hash mint u st =
      let backed = is_directory_backed u st in
      if u.password_hash == ""
      then (
        refused (denial backed),
        audit mint "password_change_denied" u.guid (("reason", reason backed) ∷ []) st,
      )
      else (done tt, st)

  -- The current password, unless the administrator has asked for a change.
  unfoldable pub prove_possession : Env → User → String → Act (Unit {0})
  prove_possession env u current st =
      if u.force_password_change
      then (done tt, st)
      else if current == ""
      then (refused (http_error 400 "current_password required"), st)
      else if env.check_password u.password_hash current
      then (done tt, st)
      else (refused (http_error 403 "current password is incorrect"), st)

  -- `token` is the header without its prefix "Bearer ".
  unfoldable pub handle_reset_password :
      Env
      → Config
      → CharClass
      → Mint
      → (String → Option Claims)
      → String
      → Option ResetBody
      → Act (Unit {0})
  handle_reset_password env cfg classes mint parse token body = do
    refuse_if (token == "") (http_error 401 "authorization required")
    c ← access_claims (http_error 401 "invalid or revoked token") parse mint.now token
    b ← some_or (http_error 400 "invalid request body") body
    refuse_if (b.new_password == "") (http_error 400 "new_password required")
    rs ← look λ st. st.runtime_settings
    refuse_if (not (is_valid (validate_password classes b.new_password (password_policy cfg rs))))
        (http_error 400 "password does not meet the policy")
    u ← fetch (http_error 404 "user not found") (resolve_user c.subject)
    require_local_hash mint u
    prove_possession env u b.current_password
    let count = get_password_history_count cfg rs
    refuse_if
        (is_positive count
          && check_password_history env.check_password b.new_password u.password_history)
        (http_error 400 "password was recently used")
    hash ← some_or (http_error 500 "failed to hash password") (env.hash_password b.new_password)
    call (http_error 500 "failed to update password") (update_user (rehashed count hash u))
    effect (audit mint "password_changed" u.guid [])
    reply tt
