-- ===== src/Handler/Roles/Isolation.antt =====
-- internal/handler/apps.go: what resolveTokenRoles grants for an app that is not the default one.
use simple_auth.Prelude.{
  String, ◌≡◌, refl, ◌≢◌, ◌↔◌, inl, inr, Bool, true, false, not, ◌&&◌, ◌||◌, List, [], ◌∷◌, arith,
  elem, elem-sort_strings, sort_strings, if◌then◌else◌, Bool-cases, ◌==◌, eq_iff,
}
use simple_auth.Outcome.{ok}
use simple_auth.Bolt.{Bbolt, Bucket}
use simple_auth.Store.Types.{User, App, AppAuthz, NamesByKey}
use simple_auth.Store.State.{BoltStore, ConfigDoc}
use simple_auth.Store.Mappings.{get_mappings_for_user}
use simple_auth.Store.Apps.{get_app_authz}
use simple_auth.Store.Roles.{names_at, merge_roles}
use simple_auth.Store.Roles.Resolve.{grants, elem-merge_roles}
use simple_auth.Handler.State.{Config}
use simple_auth.Handler.Roles.{
  default_app_id, granted, denied, any_assigned, is_nil, is_denied, is_assigned, assigned_roles,
  user_assignment_keys, resolve_token_roles,
}

not_elem-nil : (x : String) (l : List String) → is_nil l ≡ true → elem x l ≡ false
not_elem-nil x [] h = refl
not_elem-nil x (y ∷ l) h = cc

first_of : (l : List String) → is_nil l ≡ false → (x : String) × (elem x l ≡ true)
first_of [] h = cc
first_of (x ∷ l) h = (x, ground (arith, eq_iff x x))

denied_iff :
    (required assigned own : Bool) (roles perms : List String)
    → ((if required && not assigned && not own then denied else granted roles perms) ≡ denied)
      ↔ ((required ≡ true) × (assigned ≡ false) × (own ≡ false))
denied_iff required assigned own roles perms = ground arith

any_assigned-false :
    (m : NamesByKey) (l : List String) (role : String)
    → any_assigned m l ≡ false
    → grants m role l ≡ false
unfolding any_assigned
any_assigned-false m [] role h = refl
any_assigned-false m (k ∷ l) role h =
    ground (arith, any_assigned-false m l role, not_elem-nil role (names_at k m))

any_assigned-true :
    (m : NamesByKey) (l : List String)
    → any_assigned m l ≡ true
    → (role : String) × (grants m role l ≡ true)
unfolding any_assigned
any_assigned-true m [] h = cc
any_assigned-true m (k ∷ l) h = elim (Bool-cases (is_nil (names_at k m))) [
  | inl bare ↦ let (role, there) = any_assigned-true m l (rw bare at h) in (role, ground arith)
  | inr given ↦ let (role, there) = first_of (names_at k m) given in (role, ground arith)
]

module _ ⦃bolt : Bbolt⦄ where
  -- Does the app's document give the user the role, by one of the user's names or groups?
  abbrev pub assigns : AppAuthz → User → BoltStore → String → Bool
  assigns authz u s role =
      grants authz.user_assignments role (user_assignment_keys u s)
      || grants authz.group_assignments role u.groups

  -- For an app that is not the default one, no other content of the user's global roles, the user's
  -- global permissions and the configuration changes the grant.
  pub resolve_token_roles-isolated :
      (cfg : Config) (a : App) (u : User) (s : BoltStore)
      (user_roles user_permissions : Bucket (List String)) (config : Bucket ConfigDoc)
      → a.app_id ≢ default_app_id cfg
      → resolve_token_roles cfg a u (record s {
        user_roles = user_roles;
        user_permissions = user_permissions;
        config = config;
      })
        ≡ resolve_token_roles cfg a u s
  unfolding resolve_token_roles get_app_authz user_assignment_keys get_mappings_for_user
  resolve_token_roles-isolated cfg a u s user_roles user_permissions config named =
      let other : a.app_id == default_app_id cfg ≡ false =
        ground (arith, eq_iff a.app_id (default_app_id cfg)) in
      rw other refl

  -- For an app that is not the default one and whose document is read, a grant that is not denied
  -- has exactly the roles that the document assigns to the user by name or by group, and exactly the
  -- permissions that the document gives those roles.
  pub resolve_token_roles_lem :
      (cfg : Config) (a : App) (u : User) (s : BoltStore) (authz : AppAuthz)
      → a.app_id ≢ default_app_id cfg
      → get_app_authz a.app_id s ≡ ok authz
      → is_denied a (is_assigned authz u s) u ≡ false
      → (roles : List String) × (perms : List String) × (resolve_token_roles cfg a u s
          ≡ granted roles perms)
        × ((role : String) → elem role roles ≡ assigns authz u s role)
        × ((perm : String) → elem perm perms ≡ grants authz.role_permissions perm roles)
  unfolding resolve_token_roles
  resolve_token_roles_lem cfg a u s authz named read admitted =
      let other : a.app_id == default_app_id cfg ≡ false =
        ground (arith, eq_iff a.app_id (default_app_id cfg)) in
      let roles = sort_strings (assigned_roles authz u s) in
      let perms = sort_strings (merge_roles authz.role_permissions [] roles) in
      (
        roles,
        perms,
        rw (other, read, admitted) refl,
        λ role. ground (
          arith,
          elem-sort_strings role (assigned_roles authz u s),
          elem-merge_roles authz.user_assignments role [] (user_assignment_keys u s),
          elem-merge_roles authz.group_assignments role
              (merge_roles authz.user_assignments [] (user_assignment_keys u s)) u.groups,
        ),
        λ perm. ground (
          arith,
          elem-sort_strings perm (merge_roles authz.role_permissions [] roles),
          elem-merge_roles authz.role_permissions perm [] roles,
        ),
      )

  is_assigned-false :
      (authz : AppAuthz) (u : User) (s : BoltStore)
      → (is_assigned authz u s ≡ false) ↔ ((role : String) → assigns authz u s role ≡ false)
  is_assigned-false authz u s =
      let keys = user_assignment_keys u s in
      (
        (λ bare role. ground (
          arith,
          any_assigned-false authz.user_assignments keys role,
          any_assigned-false authz.group_assignments u.groups role,
        )),
        λ none_given. elim (Bool-cases (any_assigned authz.user_assignments keys)) [
          | inl by_name ↦
              let (role, given) = any_assigned-true authz.user_assignments keys by_name in
              let absent = none_given role in ground arith
          | inr no_name ↦ elim (Bool-cases (any_assigned authz.group_assignments u.groups)) [
            | inl by_group ↦
                let (role, given) = any_assigned-true authz.group_assignments u.groups by_group in
                let absent = none_given role in ground arith
            | inr no_group ↦ ground arith
          ]
        ],
      )

  -- For an app that is not the default one and whose document is read, a user is denied exactly when
  -- the app requires an assignment, the user is not the app's own, and the document assigns the user
  -- no role.
  pub resolve_token_roles-denied_iff :
      (cfg : Config) (a : App) (u : User) (s : BoltStore) (authz : AppAuthz)
      → a.app_id ≢ default_app_id cfg
      → get_app_authz a.app_id s ≡ ok authz
      → (resolve_token_roles cfg a u s ≡ denied) ↔ (
          (a.require_assignment ≡ true)
          × (u.owner_app_id ≢ a.app_id)
          × ((role : String) → assigns authz u s role ≡ false))
  unfolding resolve_token_roles
  resolve_token_roles-denied_iff cfg a u s authz named read =
      let other : a.app_id == default_app_id cfg ≡ false =
        ground (arith, eq_iff a.app_id (default_app_id cfg)) in
      let own = eq_iff u.owner_app_id a.app_id in
      let bare = is_assigned-false authz u s in
      let (to, from) =
        denied_iff a.require_assignment (is_assigned authz u s) (u.owner_app_id == a.app_id)
          (sort_strings (assigned_roles authz u s))
          (sort_strings
            (merge_roles authz.role_permissions [] (sort_strings (assigned_roles authz u s)))) in
      rw (other, read)
        (
          (λ refusal.
              let (required, unassigned, foreign) = to refusal in
              (required, ground arith, bare.0 unassigned)),
          λ (required, foreign, none_given). from (required, bare.1 none_given, ground arith),
        )
