-- ===== src/Tests/Admin.antt =====
-- What administrators do to users, on a small store.
use simple_auth.Prelude.{String, ◌≡◌, refl, false, some, List, [], ◌∷◌, ltb}
use simple_auth.Outcome.{ok, err, user_not_found}
use simple_auth.Bolt.{put_raw}
use simple_auth.Bolt.Assoc.{assoc_bolt}
use simple_auth.Store.Types.{NamesByKey}
use simple_auth.Store.Users.{get_user}
use simple_auth.Store.Roles.{
  set_user_roles, set_role_permissions, get_role_permissions, validate_roles_exist,
  set_config_value, first_unknown,
}
use simple_auth.Store.Tokens.{get_refresh_token, get_session, is_user_access_revoked}
use simple_auth.Handler.State.{HandlerState}
use simple_auth.Handler.Act.{done, look, call, some_or, refuse_if, effect, fetch}
use simple_auth.Admin.Users.{handle_delete_user}
use simple_auth.Admin.Users.Ended.{token_of_others, session_of_others, handle_delete_user_lem}
use simple_auth.Admin.Members.{MemberBody}
use simple_auth.Admin.Roles.{handle_set_roles}
use simple_auth.Tests.Handler.{state}
use simple_auth.Tests.Requests.{mint, refresh_state}

takes_g1 : assoc_bolt.refuses "g1" ≡ false
unfolding assoc_bolt
takes_g1 = refl

handle_delete_user_lem_example :
    (get_user "g1" (handle_delete_user mint "g1" refresh_state).1.store ≡ err (user_not_found "g1"))
    × (get_refresh_token "t" (handle_delete_user mint "g1" refresh_state).1.store
        ≡ token_of_others "g1" (get_refresh_token "t" refresh_state.store))
    × (get_session "s" (handle_delete_user mint "g1" refresh_state).1.store
        ≡ session_of_others "g1" (get_session "s" refresh_state.store))
    × (is_user_access_revoked 30 "g1" (handle_delete_user mint "g1" refresh_state).1.store
        ≡ ltb 30 70)
handle_delete_user_lem_example = handle_delete_user_lem mint "g1" "t" "s" 30 refresh_state takes_g1

abbrev member : MemberBody
member = record { user = "alice"; user_guid = "" }

abbrev editor : List String
editor = "editor" ∷ []

abbrev defined : NamesByKey
defined = ("editor", "read" ∷ []) ∷ []

abbrev roles_state : HandlerState
roles_state = record state { store = (set_role_permissions (some defined) state.store).1 }

mapping_read : get_role_permissions roles_state.store ≡ ok (some defined)
unfolding get_role_permissions set_role_permissions set_config_value put_raw assoc_bolt
mapping_read = refl

editor_assigned :
    handle_set_roles mint (λ l. "") "g1" (some editor) roles_state
    ≡ (done editor, (handle_set_roles mint (λ l. "") "g1" (some editor) roles_state).1)
unfolding handle_set_roles validate_roles_exist get_role_permissions first_unknown
    set_role_permissions set_config_value set_user_roles look call some_or refuse_if effect fetch
    put_raw assoc_bolt
editor_assigned = refl
