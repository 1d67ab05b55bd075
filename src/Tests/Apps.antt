-- ===== src/Tests/Apps.antt =====
-- Apps, roles and the audit log on small stores.
use mathlib.Core.List.{reverse}
use simple_auth.Prelude.{◌≡◌, refl, true, false, some, List, [], ◌∷◌, elem, pos}
use simple_auth.Bolt.{json, put_raw}
use simple_auth.Bolt.Assoc.{assoc_bolt}
use simple_auth.Store.Types.{App, NamesByKey, AuditQuery, AuditEntry}
use simple_auth.Store.State.{BoltStore, init}
use simple_auth.Store.Users.{create_user}
use simple_auth.Store.Mappings.{set_identity_mapping, mapping_key, add_mapping_to_index}
use simple_auth.Store.Apps.{local_guids, create_app, add_app_admin, delete_app}
use simple_auth.Store.Apps.AdminKeys.{has_nul}
use simple_auth.Store.Roles.{set_role_permissions}
use simple_auth.Store.Audit.{write_audit_log, query_audit_log}
use simple_auth.Store.Audit.Query.{page, query_audit_log-eq-page}
use simple_auth.Tests.Store.{alice, bob}

abbrev pub app : App
app = record {
  app_id = "a";
  name = "A";
  audience = "";
  secret_hash = "";
  redirect_uris = [];
  cors_origins = [];
  require_assignment = true;
  allow_local_users = true;
  disabled = false;
  created_at = 10;
  secret_rotated_at = 10;
  base_url = "";
  display_name = [];
  category = "";
  icon = "";
}

-- The app "a" with an admin, its own user "g2", and a mapping of the user "g1".
abbrev pub with_app : BoltStore
with_app =
    (set_identity_mapping "ldap" "alice" "g1"
      (create_user "x" 10 bob
        (create_user "x" 10 alice
          (add_app_admin 10 "a" "g1" "root" (create_app app init).1).1).1).1).1

alice_left : assoc_bolt.get (delete_app "a" with_app).1.users "g1" ≡ some (json alice)
unfolding delete_app local_guids set_identity_mapping mapping_key add_mapping_to_index create_user
    add_app_admin create_app put_raw assoc_bolt
alice_left = refl

plain_a : has_nul "a" ≡ false
plain_a = refl

plain_b : has_nul "b" ≡ false
plain_b = refl

alice_not_local : elem "g1" (local_guids "a" (assoc_bolt.entries with_app.users)) ≡ false
unfolding local_guids set_identity_mapping mapping_key add_mapping_to_index create_user
    add_app_admin create_app put_raw assoc_bolt
alice_not_local = refl

alice_mapped : assoc_bolt.get with_app.identity_mappings "ldap:alice" ≡ some "g1"
unfolding set_identity_mapping mapping_key add_mapping_to_index create_user add_app_admin create_app
    put_raw assoc_bolt
alice_mapped = refl

abbrev mapping : NamesByKey
mapping = ("admin", "read" ∷ "write" ∷ []) ∷ ("viewer", "read" ∷ []) ∷ []

abbrev with_roles : BoltStore
with_roles = (set_role_permissions (some mapping) init).1

abbrev query : AuditQuery
query = record { event = "login"; user_id = ""; from = 0; to = 0; limit = pos 10; offset = pos 0 }

abbrev entry : AuditEntry
entry = record { id = "e1"; timestamp = 20; event = "login"; actor = "g1"; ip = ""; details = [] }

-- Two logins and a logout, under keys that sort as their times do.
abbrev with_log : BoltStore
with_log =
    (write_audit_log (λ t. "3") "x" 30 (record entry { id = "e3"; timestamp = 30 })
      (write_audit_log (λ t. "2") "x" 30 (record entry { id = "e2"; event = "logout" })
        (write_audit_log (λ t. "1") "x" 30 entry init).1).1).1

query_audit_log-eq-page_example :
    query_audit_log query with_log ≡ page query (reverse (assoc_bolt.entries with_log.audit_log))
query_audit_log-eq-page_example = query_audit_log-eq-page query with_log
