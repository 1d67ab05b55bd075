-- ===== src/Handler/Directory.antt =====
-- internal/handler/auth.go and secrets.go: users of the directory. Is an account disabled there, and
-- what holds when the directory cannot be reached.
use simple_auth.Prelude.{
  ℕ, ◌*◌, ◌-◌, String, Bool, true, false, not, ◌&&◌, ◌||◌, Option, none, some, List, [], ◌∷◌,
  lookup, without, ltb, if◌then◌else◌, ◌==◌, starts_with, ◌^^◌, ℤ, pos, negsuc,
}
use simple_auth.Outcome.{Result, ok, err}
use simple_auth.Bolt.{Bbolt, Bytes, json}
use simple_auth.Store.Types.{Time, User, LdapConfig, IdentityMapping}
use simple_auth.Store.State.{ConfigDoc, text}
use simple_auth.Store.Mappings.{get_mappings_for_user}
use simple_auth.Store.Roles.{get_ldap_config, get_config_value, set_config_value}
use simple_auth.Handler.State.{
  Config, SearchAnswer, account, no_account, unreachable, Env, HandlerState, exec,
}
use simple_auth.Handler.Settings.{
  OutagePolicy, grace, block, allow, get_directory_outage_policy, second, hour,
}

-- A provider other than "local" and "applocal:…".
unfoldable pub has_foreign_provider : List IdentityMapping → Bool
has_foreign_provider [] = false
has_foreign_provider (m ∷ l) =
    (not (m.provider == "local") && not (starts_with m.provider "applocal:"))
    || has_foreign_provider l

-- The name of the first mapping of the provider "ldap", else "".
unfoldable pub first_ldap_name : List IdentityMapping → String
first_ldap_name [] = ""
first_ldap_name (m ∷ l) =
    let rest = first_ldap_name l in if m.provider == "ldap" then m.external_id else rest

abbrev foreign_or_unknown : Result (List IdentityMapping) → Bool
foreign_or_unknown (ok l) = has_foreign_provider l
foreign_or_unknown (err e) = true

abbrev pub list_or_nil : {A : Type 0} → Result (List A) → List A
list_or_nil (ok l) = l
list_or_nil (err e) = []

-- The duration is less than the grace, in hours.
abbrev pub less_than_hours : ℕ → ℤ → Bool
less_than_hours d (pos n) = ltb d (n * hour)
less_than_hours d (negsuc n) = false

abbrev with_bind_password : LdapConfig → Option String → Option LdapConfig
with_bind_password c none = none
with_bind_password c (some p) = some (record c { bind_password = p })

abbrev decrypted : Env → Result LdapConfig → Option LdapConfig
decrypted env (err e) = none
decrypted env (ok c) =
    if c.bind_password == ""
    then some c
    else with_bind_password c (env.decrypt_secret c.bind_password)

abbrev pub dir_check_key : String → String
dir_check_key guid = "dircheck:" ^^ guid

abbrev value_text : Option (Bytes ConfigDoc) → Option String
value_text (some (json (text t))) = some t
value_text _ = none

abbrev parsed : Env → Option String → Option Time
parsed env none = none
parsed env (some t) = env.parse_time t

-- A check less than five minutes old is not recorded again.
abbrev is_recent : Time → Option Time → Bool
is_recent now none = false
is_recent now (some t) = ltb (now - t) (300 * second)

module _ ⦃bolt : Bbolt⦄ where
  unfoldable pub is_directory_backed : User → HandlerState → Bool
  is_directory_backed u st =
      if not (u.owner_app_id == "")
      then false
      else not (u.sam_account_name == "")
        || foreign_or_unknown (get_mappings_for_user u.guid st.store)

  unfoldable pub get_ldap_config_decrypted : Env → HandlerState → Option LdapConfig
  get_ldap_config_decrypted env st = decrypted env (get_ldap_config st.store)

  unfoldable pub record_directory_check : Env → Time → String → HandlerState → HandlerState
  record_directory_check env now guid st =
      if is_recent now (lookup guid st.dir_checked)
      then st
      else exec (set_config_value (dir_check_key guid) (json (text (env.format_time now))))
          (record st { dir_checked = (guid, now) ∷ without guid st.dir_checked })

  abbrev remember : String → Option Time → HandlerState → Option Time × HandlerState
  remember guid none st = (none, st)
  remember guid (some t) st =
      (some t, record st { dir_checked = (guid, t) ∷ without guid st.dir_checked })

  abbrev checked_or_stored : Env → String → Option Time → HandlerState → Option Time × HandlerState
  checked_or_stored env guid (some t) st = (some t, st)
  checked_or_stored env guid none st =
      remember guid (parsed env (value_text (get_config_value (dir_check_key guid) st.store))) st

  unfoldable pub last_directory_check : Env → String → HandlerState → Option Time × HandlerState
  last_directory_check env guid st = checked_or_stored env guid (lookup guid st.dir_checked) st

  abbrev outlived : Time → ℤ → Option Time → Bool
  outlived now hours none = true
  outlived now hours (some last) = not (less_than_hours (now - last) hours)

  abbrev outage_denies : Env → Time → User → HandlerState → OutagePolicy × ℤ → Bool × HandlerState
  outage_denies env now u st (allow, hours) = (false, st)
  outage_denies env now u st (block, hours) = (true, st)
  outage_denies env now u st (grace, hours) =
      let (last, st') = last_directory_check env u.guid st in (outlived now hours last, st')

  unfoldable pub directory_outage_denies :
      Env → Config → Time → User → HandlerState → Bool × HandlerState
  directory_outage_denies env cfg now u st =
      outage_denies env now u st (get_directory_outage_policy env cfg st.runtime_settings)

  -- The name that the directory knows the user by, else "".
  unfoldable pub directory_name : User → HandlerState → String
  directory_name u st =
      if u.sam_account_name == ""
      then first_ldap_name (list_or_nil (get_mappings_for_user u.guid st.store))
      else u.sam_account_name

  abbrev judge : Env → Config → Time → User → HandlerState → SearchAnswer → Bool × HandlerState
  judge env cfg now u st no_account = (true, st)
  judge env cfg now u st unreachable = directory_outage_denies env cfg now u st
  judge env cfg now u st (account r) =
      if r.disabled then (true, st) else (false, record_directory_check env now u.guid st)

  abbrev disabled_in :
      Env → Config → Time → User → HandlerState → Option LdapConfig → Bool × HandlerState
  disabled_in env cfg now u st none = (false, st)
  disabled_in env cfg now u st (some c) =
      let name = directory_name u st in
      let attr = if c.username_attr == "" then "sAMAccountName" else c.username_attr in
      if name == "" then (false, st) else judge env cfg now u st (env.ldap_search c attr name)

  unfoldable pub directory_account_disabled :
      Env → Config → Time → User → HandlerState → Bool × HandlerState
  directory_account_disabled env cfg now u st =
      if is_directory_backed u st
      then disabled_in env cfg now u st (get_ldap_config_decrypted env st)
      else (false, st)
