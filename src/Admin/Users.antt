-- ===== src/Admin/Users.antt =====
-- internal/handler/admin.go: users, their passwords and their sessions; and the logout of user_self.go.
pub mod Ended
use simple_auth.Prelude.{
  String, Bool, true, false, not, ◌&&◌, ◌||◌, Option, none, some, List, [], ◌∷◌, if◌then◌else◌,
  ◌==◌, ◌^^◌, without, is_positive,
}
use simple_auth.Outcome.{Result, ok, err}
use simple_auth.Bolt.{Bbolt}
use simple_auth.Store.Types.{Time, User, IdentityMapping, RefreshToken}
use simple_auth.Store.Users.{create_user, get_user, update_user, delete_user, list_users}
use simple_auth.Store.Mappings.{
  set_identity_mapping, delete_identity_mapping, resolve_mapping, get_mappings_for_user,
}
use simple_auth.Store.Users.{resolve_user, unmerge_user}
use simple_auth.Store.Roles.{delete_config_value}
use simple_auth.Store.Tokens.{
  list_user_sessions, revoke_user_tokens, delete_user_sessions, revoke_all_user_access_tokens,
}
use simple_auth.Store.Merge.{zero_user, merge_users}
use simple_auth.Auth.Passwords.{
  CharClass, validate_password, check_password_history, add_to_password_history,
}
use simple_auth.Handler.State.{Config, Env, HandlerState, exec}
use simple_auth.Handler.Settings.{get_password_history_count}
use simple_auth.Handler.Limiter.{add_duration}
use simple_auth.Handler.Directory.{is_directory_backed, dir_check_key}
use simple_auth.Handler.Jwt.{Claims, Mint}
use simple_auth.Handler.Issue.{audit}
use simple_auth.Handler.Act.{
  http_error, Act, ◌>>=◌, ◌>>◌, reply, refuse_if, some_or, fetch, call, effect, look, rate_limit,
}
use simple_auth.Handler.Signin.{access_claims}
use simple_auth.Handler.Reset.{password_policy, is_valid, rehashed}

pub record NewUser : Type 0 where
  pub username : String
  pub password : String
  pub display_name : String
  pub email : String
  pub department : String
  pub company : String
  pub job_title : String

pub record UserPatch : Type 0 where
  pub display_name : Option String
  pub email : Option String
  pub department : Option String
  pub company : Option String
  pub job_title : Option String

pub record PasswordBody : Type 0 where
  pub password : String
  pub force_change : Option Bool

abbrev pub or_kept : {A : Type 0} → Option A → A → A
or_kept none old = old
or_kept (some new) old = new

abbrev pub patched : UserPatch → User → User
patched p u = record u {
  display_name = or_kept p.display_name u.display_name;
  email = or_kept p.email u.email;
  department = or_kept p.department u.department;
  company = or_kept p.company u.company;
  job_title = or_kept p.job_title u.job_title;
}

-- What a single user is answered as.
abbrev pub without_hashes : User → User
without_hashes u = record u { password_hash = ""; password_history = [] }

-- `len(l) < 2`
abbrev is_short : List String → Bool
is_short [] = true
is_short (x ∷ []) = true
is_short (x ∷ y ∷ l) = false

abbrev mappings_or_nil : Result (List IdentityMapping) → List IdentityMapping
mappings_or_nil (ok l) = l
mappings_or_nil (err e) = []

module _ ⦃bolt : Bbolt⦄ where
  unfoldable pub with_identities : List User → HandlerState → List (User × List IdentityMapping)
  with_identities [] st = []
  with_identities (u ∷ l) st =
      (u, mappings_or_nil (get_mappings_for_user u.guid st.store)) ∷ with_identities l st

  unfoldable pub handle_list_users : Act (List User)
  handle_list_users = fetch (http_error 500 "failed to list users") list_users

  -- `GET …?include=identities`
  unfoldable pub handle_list_users_with_identities : Act (List (User × List IdentityMapping))
  unfolding with_identities
  handle_list_users_with_identities = do
    users ← fetch (http_error 500 "failed to list users") list_users
    look (with_identities users)

  abbrev pub require_policy : Config → CharClass → String → Act (Unit {0})
  require_policy cfg classes password = do
    rs ← look λ st. st.runtime_settings
    refuse_if (not (is_valid (validate_password classes password (password_policy cfg rs))))
        (http_error 400 "password does not meet the policy")

  abbrev hash_if_given : Env → Config → CharClass → String → Act String
  hash_if_given env cfg classes password =
      if password == ""
      then reply ""
      else (require_policy cfg classes password
          >> some_or (http_error 500 "failed to hash password") (env.hash_password password))

  abbrev map_if_given : String → String → HandlerState → HandlerState
  map_if_given username guid st =
      if username == "" then st else exec (set_identity_mapping "local" username guid) st

  unfoldable pub handle_create_user :
      Env → Config → CharClass → Mint → (fresh : String) → Option NewUser → Act User
  handle_create_user env cfg classes mint fresh body = do
    b ← some_or (http_error 400 "invalid request body") body
    hash ← hash_if_given env cfg classes b.password
    u ← call (http_error 500 "failed to create user") (
        create_user fresh mint.now (record zero_user {
          display_name = b.display_name;
          email = b.email;
          department = b.department;
          company = b.company;
          job_title = b.job_title;
          password_hash = hash;
        }))
    effect (map_if_given b.username u.guid)
    effect (audit mint "user_created" u.guid (("username", b.username) ∷ []))
    reply u

  unfoldable pub handle_get_user : String → Act User
  handle_get_user guid = do
    u ← fetch (http_error 404 "user not found") (get_user guid)
    reply (without_hashes u)

  unfoldable pub handle_update_user : String → Option UserPatch → Act User
  handle_update_user guid body = do
    u ← fetch (http_error 404 "user not found") (get_user guid)
    p ← some_or (http_error 400 "invalid request body") body
    call (http_error 500 "failed to update user") (update_user (patched p u))
    reply (without_hashes (patched p u))

  -- A deleted user keeps no token and no session; a failure of these calls is only logged.
  unfoldable pub handle_delete_user : Mint → String → Act (Unit {0})
  handle_delete_user mint guid = do
    call (http_error 500 "failed to delete user") (delete_user guid)
    effect (exec (revoke_all_user_access_tokens guid (add_duration mint.now mint.access_ttl)))
    effect (exec (revoke_user_tokens guid))
    effect (exec (delete_user_sessions guid))
    effect (exec (delete_config_value ("user_prefs:" ^^ guid)))
    effect (λ st. record st { dir_checked = without guid st.dir_checked })
    effect (exec (delete_config_value (dir_check_key guid)))
    effect (audit mint "user_deleted" "admin" (("target_guid", guid) ∷ []))

  abbrev text_of : Bool → String
  text_of true = "true"
  text_of false = "false"

  abbrev body_or_blank : Option PasswordBody → PasswordBody
  body_or_blank none = record { password = ""; force_change = none }
  body_or_blank (some b) = b

  -- The history gets the old hash; the flag changes only where the body has one.
  unfoldable pub handle_set_password :
      Env → Config → CharClass → Mint → String → Option PasswordBody → Act (Unit {0})
  handle_set_password env cfg classes mint guid body = do
    u ← fetch (http_error 404 "user not found") (get_user guid)
    let b = body_or_blank body
    refuse_if (b.password == "") (http_error 400 "password required")
    require_policy cfg classes b.password
    rs ← look λ st. st.runtime_settings
    let count = get_password_history_count cfg rs
    refuse_if
        (is_positive count
          && check_password_history env.check_password b.password u.password_history)
        (http_error 400 "password was recently used")
    hash ← some_or (http_error 500 "failed to hash password") (env.hash_password b.password)
    let updated = record (rehashed count hash u) {
      force_password_change = or_kept b.force_change u.force_password_change;
    }
    call (http_error 500 "failed to update password") (update_user updated)
    effect (λ st.
        audit mint "password_set" "admin"
          (("target_guid", u.guid)
            ∷ ("force_change", text_of updated.force_password_change)
            ∷ ("directory_backed", text_of (is_directory_backed updated st))
            ∷ [])
          st)

  unfoldable pub handle_set_disabled : String → Option Bool → Act Bool
  handle_set_disabled guid body = do
    u ← fetch (http_error 404 "user not found") (get_user guid)
    disabled ← some_or (http_error 400 "invalid request body") body
    call (http_error 500 "failed to update user") (update_user (record u { disabled = disabled }))
    reply disabled

  unfoldable pub handle_unlock_account : Mint → String → Act (Unit {0})
  handle_unlock_account mint guid = do
    u ← fetch (http_error 404 "user not found") (get_user guid)
    call (http_error 500 "failed to unlock account")
        (update_user (record u { failed_login_attempts = 0; locked_until = none }))
    effect (audit mint "account_unlocked" "admin" (("target_guid", guid) ∷ []))

  unfoldable pub handle_list_sessions : Mint → String → Act (List RefreshToken)
  handle_list_sessions mint guid = look λ st. list_user_sessions mint.now guid st.store

  unfoldable pub handle_revoke_sessions : Mint → String → Act (Unit {0})
  handle_revoke_sessions mint guid = do
    call (http_error 500 "failed to revoke sessions") (revoke_user_tokens guid)
    effect (exec (revoke_all_user_access_tokens guid (add_duration mint.now mint.access_ttl)))
    effect (exec (delete_user_sessions guid))
    effect (audit mint "sessions_revoked" "admin" (("target_guid", guid) ∷ []))

  -- user_self.go: the target is the subject of the caller's own token.
  unfoldable pub handle_user_logout_all :
      Mint → (String → Option Claims) → (token : String) → Act (Unit {0})
  handle_user_logout_all mint parse token = do
    rate_limit mint.now mint.ip (http_error 429 "too many requests")
    refuse_if (token == "") (http_error 401 "missing authorization header")
    c ← access_claims (http_error 401 "invalid or revoked token") parse mint.now token
    call (http_error 500 "failed to revoke sessions") (revoke_user_tokens c.subject)
    effect (exec (delete_user_sessions c.subject))
    effect (
        audit mint "user_logout_all" c.subject
          (if c.impersonated then ("impersonated_by", c.impersonated_by) ∷ [] else []))

  unfoldable pub handle_set_mapping : String → Option (String × String) → Act (Unit {0})
  handle_set_mapping guid body = do
    m ← some_or (http_error 400 "invalid request body") body
    refuse_if (m.0 == "" || m.1 == "") (http_error 400 "provider and external_id required")
    call (http_error 500 "failed to set mapping") (set_identity_mapping m.0 m.1 guid)

  unfoldable pub handle_delete_mapping : String → String → Act (Unit {0})
  handle_delete_mapping provider external_id =
      call (http_error 500 "failed to delete mapping")
        (delete_identity_mapping provider external_id)

  -- The mapping, then the merges.
  unfoldable pub handle_resolve_mapping : String → String → Act String
  handle_resolve_mapping provider external_id = do
    refuse_if (provider == "" || external_id == "")
        (http_error 400 "provider and external_id query params required")
    guid ← fetch (http_error 404 "mapping not found") (resolve_mapping provider external_id)
    u ← fetch (http_error 404 "user not found") (resolve_user guid)
    reply u.guid

  -- `fresh` is the new user's GUID.
  unfoldable pub handle_merge_users :
      Mint → (List String → String) → String → Option (List String × String × String) → Act String
  handle_merge_users mint show_names fresh body = do
    b ← some_or (http_error 400 "invalid request body") body
    refuse_if (is_short b.0) (http_error 400 "at least 2 source_guids required")
    u ← call (http_error 500 "merge failed") (merge_users fresh mint.now b.0 b.1 b.2)
    effect (
        audit mint "user_merged" "admin"
          (("source_guids", show_names b.0) ∷ ("merged_guid", u.guid) ∷ []))
    reply u.guid

  unfoldable pub handle_unmerge_user : Mint → String → Act (Unit {0})
  handle_unmerge_user mint guid = do
    call (http_error 400 "unmerge failed") (unmerge_user guid)
    effect (audit mint "user_unmerged" "admin" (("guid", guid) ∷ []))
