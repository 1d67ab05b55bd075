-- ===== src/Store/Roles/Resolve.antt =====
-- internal/store/bolt.go: what ResolvePermissions, ValidateRolesExist and ValidatePermissionsExist
-- answer.
use simple_auth.Prelude.{
  String, ◌≡◌, refl, sym, ◌↔◌, inl, inr, Bool, true, false, ◌||◌, Option, List, [], ◌∷◌, arith,
  keys, elem, add_all_new, elem-add_all_new, add_all_new-IsDistinct, IsDistinct, Bool-cases, ◌==◌,
  eq_iff,
}
use simple_auth.Outcome.{ok}
use simple_auth.Bolt.{Bbolt}
use simple_auth.Store.Types.{NamesByKey}
use simple_auth.Store.State.{BoltStore}
use simple_auth.Store.Roles.{
  names_at, merge_roles, first_unknown, map_or_empty, get_role_permissions, validate_roles_exist,
}

-- Does one of the roles have the permission?
abbrev pub grants : NamesByKey → String → List String → Bool
grants mapping perm [] = false
grants mapping perm (role ∷ roles) = elem perm (names_at role mapping) || grants mapping perm roles

pub elem-merge_roles :
    (mapping : NamesByKey) (perm : String) (merged roles : List String)
    → elem perm (merge_roles mapping merged roles) ≡ (elem perm merged || grants mapping perm roles)
unfolding merge_roles
elem-merge_roles mapping perm merged [] = ground arith
elem-merge_roles mapping perm merged (role ∷ roles) = ground (
  arith,
  elem-merge_roles mapping perm (add_all_new merged (names_at role mapping)) roles,
  elem-add_all_new perm merged (names_at role mapping),
)

pub merge_roles-IsDistinct :
    (mapping : NamesByKey) (merged roles : List String)
    → IsDistinct merged
    → IsDistinct (merge_roles mapping merged roles)
unfolding merge_roles
merge_roles-IsDistinct mapping merged [] d = d
merge_roles-IsDistinct mapping merged (role ∷ roles) d =
    merge_roles-IsDistinct mapping (add_all_new merged (names_at role mapping)) roles
      (add_all_new-IsDistinct merged (names_at role mapping) d)

-- Every listed text is among the known ones.
abbrev pub AllIn : List String → List String → Type 0
AllIn known xs = (x : String) → elem x xs ≡ true → elem x known ≡ true

first_unknown-blank :
    (known xs : List String) → elem "" xs ≡ false → first_unknown known xs ≡ "" → AllIn known xs
unfolding first_unknown
first_unknown-blank known [] b h x m = cc
first_unknown-blank known (y ∷ ys) b h x m = elim (Bool-cases (elem y known)) [
  | inl there ↦ elim (Bool-cases (y == x)) [
    | inl here ↦ rw (sym ((eq_iff y x).0 here)) there
    | inr other ↦ first_unknown-blank known ys (ground arith) (rw there at h) x (rw other at m)
  ]
  | inr unknown ↦ let blank : y ≡ "" = rw unknown at h in ground (arith, eq_iff y "")
]

first_unknown-AllIn : (known xs : List String) → AllIn known xs → first_unknown known xs ≡ ""
unfolding first_unknown
first_unknown-AllIn known [] h = refl
first_unknown-AllIn known (y ∷ ys) h =
    rw (h y (ground (arith, eq_iff y y)))
      (first_unknown-AllIn known ys λ x m. h x (ground (arith, eq_iff y x)))

module _ ⦃bolt : Bbolt⦄ where
  -- Where the role mapping is read and no listed name is blank, the answer is blank exactly when
  -- every listed role is defined.
  pub validate_roles_exist_iff :
      (roles : List String) (s : BoltStore) (mapping : Option NamesByKey)
      → get_role_permissions s ≡ ok mapping
      → elem "" roles ≡ false
      → (validate_roles_exist roles s ≡ ok "") ↔ AllIn (keys (map_or_empty mapping)) roles
  unfolding validate_roles_exist
  validate_roles_exist_iff roles s mapping h b = rw h (
    (λ e. first_unknown-blank (keys (map_or_empty mapping)) roles b cc),
    λ e. rw (first_unknown-AllIn (keys (map_or_empty mapping)) roles e),
  )
