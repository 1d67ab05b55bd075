-- ===== src/Admin/Members.antt =====
-- internal/handler/app_admin.go: the administrators of an app. `trim` is strings.TrimSpace and
-- `equal_fold` is strings.EqualFold.
pub mod Unique
use simple_auth.Prelude.{
  String, not, ◌&&◌, Option, none, some, List, [], ◌∷◌, if◌then◌else◌, ◌==◌, Bool,
}
use simple_auth.Outcome.{Result, ok, err}
use simple_auth.Bolt.{Bbolt}
use simple_auth.Store.Types.{User, IdentityMappingEntry, AppAdmin}
use simple_auth.Store.Users.{resolve_user}
use simple_auth.Store.Mappings.{list_all_mappings}
use simple_auth.Store.Apps.{add_app_admin, remove_app_admin, list_app_admins}
use simple_auth.Handler.State.{HandlerState}
use simple_auth.Handler.Jwt.{Mint}
use simple_auth.Handler.Issue.{audit}
use simple_auth.Handler.Act.{http_error, Act, ◌>>=◌, ◌>>◌, reply, some_or, call, effect, look}

-- What resolveUserRef gives.
pub data Reference : Type 0 where
  refers_to : (guid : String) → Reference
  required ambiguous unknown unlisted : Reference

pub record MemberBody : Type 0 where
  pub user : String
  pub user_guid : String

abbrev pub found_or_unknown : String → Reference
found_or_unknown found = if found == "" then unknown else refers_to found

-- The loop over the mappings: `found` is the user of the matches so far.
unfoldable pub scan :
    (String → String → Bool) → String → String → List IdentityMappingEntry → Reference
scan equal_fold ref found [] = found_or_unknown found
scan equal_fold ref found (m ∷ l) =
    let next = scan equal_fold ref m.user_guid l in
    let rest = scan equal_fold ref found l in
    if equal_fold m.external_id ref
    then (if not (found == "") && not (found == m.user_guid) then ambiguous else next)
    else rest

abbrev pub scanned :
    (String → String → Bool) → String → Result (List IdentityMappingEntry) → Reference
scanned equal_fold ref (err e) = unlisted
scanned equal_fold ref (ok l) = scan equal_fold ref "" l

abbrev pub guid_of : Reference → Option String
guid_of (refers_to guid) = some guid
guid_of required = none
guid_of ambiguous = none
guid_of unknown = none
guid_of unlisted = none

abbrev guid_or : String → Reference → String
guid_or raw (refers_to guid) = guid
guid_or raw required = raw
guid_or raw ambiguous = raw
guid_or raw unknown = raw
guid_or raw unlisted = raw

module _ ⦃bolt : Bbolt⦄ (trim : String → String) (equal_fold : String → String → Bool) where
  abbrev pub user_or_scan : String → Result User → HandlerState → Reference
  user_or_scan ref (ok u) st = refers_to u.guid
  user_or_scan ref (err e) st = scanned equal_fold ref (list_all_mappings st.store)

  -- A GUID, else an external id that belongs to exactly one user.
  unfoldable pub resolve_user_ref : String → HandlerState → Reference
  resolve_user_ref raw st =
      let ref = trim raw in
      if ref == "" then required else user_or_scan ref (resolve_user ref st.store) st

  abbrev pub named : MemberBody → String
  named b = if b.user_guid == "" then b.user else b.user_guid

  unfoldable pub handle_add_app_admin :
      Mint → (app_id actor actor_kind : String) → Option MemberBody → Act String
  handle_add_app_admin mint app_id actor actor_kind body = do
    b ← some_or (http_error 400 "invalid request body") body
    ref ← look (resolve_user_ref (named b))
    guid ← some_or (http_error 400 "unknown user") (guid_of ref)
    call (http_error 500 "failed to add app admin") (add_app_admin mint.now app_id guid actor)
    effect (
        audit mint "app_admin_added" actor
          (("app_id", app_id) ∷ ("target_guid", guid) ∷ ("actor_kind", actor_kind) ∷ []))
    reply guid

  -- A reference that does not resolve is taken as a GUID, so that a dangling membership can go.
  unfoldable pub handle_remove_app_admin :
      Mint → (app_id actor actor_kind user : String) → Act String
  handle_remove_app_admin mint app_id actor actor_kind user = do
    ref ← look (resolve_user_ref user)
    let guid = guid_or (trim user) ref
    call (http_error 500 "failed to remove app admin") (remove_app_admin app_id guid)
    effect (
        audit mint "app_admin_removed" actor
          (("app_id", app_id) ∷ ("target_guid", guid) ∷ ("actor_kind", actor_kind) ∷ []))
    reply guid

  unfoldable pub handle_list_app_admins : String → Act (List AppAdmin)
  handle_list_app_admins app_id = look λ st. list_app_admins app_id st.store
