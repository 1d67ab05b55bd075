-- ===== src/Handler/Provision.antt =====
-- internal/handler/auth.go: syncUserFromLDAP, and the just-in-time provisioning of authenticateUser.
use simple_auth.Prelude.{
  String, Bool, false, not, ◌&&◌, ◌||◌, none, List, [], ◌∷◌, if◌then◌else◌, ◌==◌, ◌^^◌,
}
use simple_auth.Outcome.{Result, ok, err}
use simple_auth.Bolt.{Bbolt}
use simple_auth.Store.Types.{Time, User}
use simple_auth.Store.Users.{create_user, with_defaults, update_user}
use simple_auth.Store.Mappings.{resolve_mapping, set_identity_mapping}
use simple_auth.Handler.State.{LdapResult, HandlerState, exec}

-- The user that JIT provisioning creates from the directory's answer.
abbrev pub jit_user : LdapResult → User
jit_user r = record {
  guid = "";
  password_hash = "";
  display_name = r.display_name;
  email = r.email;
  department = r.department;
  company = r.company;
  job_title = r.job_title;
  sam_account_name = r.username;
  disabled = false;
  merged_into = "";
  created_at = 0;
  owner_app_id = "";
  force_password_change = false;
  password_history = [];
  failed_login_attempts = 0;
  locked_until = none;
  groups = [];
}

-- The directory's value, where it has one.
abbrev pub synced : String → String → String
synced new old = if new == "" then old else new

abbrev pub join_nul : List String → String
join_nul [] = ""
join_nul (x ∷ []) = x
join_nul (x ∷ y ∷ l) = x ^^ "\0" ^^ join_nul (y ∷ l)

abbrev pub profile_of : LdapResult → User → User
profile_of r u = record u {
  display_name = synced r.display_name u.display_name;
  email = synced r.email u.email;
  department = synced r.department u.department;
  company = synced r.company u.company;
  job_title = synced r.job_title u.job_title;
  sam_account_name = synced r.username u.sam_account_name;
  groups = if join_nul r.groups == join_nul u.groups then u.groups else r.groups;
}

-- `changed`
abbrev pub differs : User → User → Bool
differs v u =
    not (v.display_name == u.display_name)
    || not (v.email == u.email)
    || not (v.department == u.department)
    || not (v.company == u.company)
    || not (v.job_title == u.job_title)
    || not (v.sam_account_name == u.sam_account_name)
    || not (join_nul v.groups == join_nul u.groups)

abbrev pub result_or_blank : Result String → String
result_or_blank (ok x) = x
result_or_blank (err e) = ""

module _ ⦃bolt : Bbolt⦄ where
  -- A mapping that resolves to no user, or to the blank one, is set.
  abbrev pub backfill : String → String → String → HandlerState → HandlerState
  backfill provider name guid st =
      if result_or_blank (resolve_mapping provider name st.store) == ""
      then exec (set_identity_mapping provider name guid) st
      else st

  unfoldable pub sync_user_from_ldap : User → LdapResult → HandlerState → HandlerState
  sync_user_from_ldap u r st =
      let v = profile_of r u in
      let st1 = if differs v u then exec (update_user v) st else st in
      if r.username == ""
      then st1
      else backfill "local" r.username u.guid (backfill "ldap" r.username u.guid st1)

  -- JIT provisioning: the new user's GUID, and the state after.
  unfoldable pub jit_provision :
      String → Time → String → LdapResult → HandlerState → String × HandlerState
  jit_provision fresh now username r st =
      let guid = (with_defaults fresh now (jit_user r)).guid in
      let st1 = exec (create_user fresh now (jit_user r)) st in
      let st2 = exec (set_identity_mapping "ldap" username guid) st1 in
      let st3 = exec (set_identity_mapping "local" username guid) st2 in
      if not (r.username == "") && not (r.username == username)
      then (
        guid,
        exec (set_identity_mapping "local" r.username guid)
            (exec (set_identity_mapping "ldap" r.username guid) st3),
      )
      else (guid, st3)
