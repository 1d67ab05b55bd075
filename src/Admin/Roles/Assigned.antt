-- ===== src/Admin/Roles/Assigned.antt =====
-- internal/handler/admin.go: roles that an administrator assigns.
use simple_auth.Prelude.{
  String, ◌≡◌, ◌∙◌, sym, ap, false, Option, some, List, [], ◌∷◌, elem, keys, arith, eq_iff,
  Bool-cases, inl, inr,
}
use simple_auth.Outcome.{ok}
use simple_auth.Bolt.{Bbolt, json, put_raw}
use simple_auth.Store.Types.{NamesByKey}
use simple_auth.Store.State.{BoltStore}
use simple_auth.Store.Roles.{
  map_or_empty, get_user_roles, set_user_roles, get_role_permissions, validate_roles_exist,
}
use simple_auth.Store.Roles.Resolve.{AllIn, validate_roles_exist_iff}
use simple_auth.Handler.State.{HandlerState}
use simple_auth.Handler.Jwt.{Mint}
use simple_auth.Handler.Act.{
  Act, after, after-eq-done, refuse_if-eq-done, done, after-some_or, after-look, after-call,
  after-effect, after-fetch, done-injective,
}
use simple_auth.Handler.Act.Frame.{audit-eq}
use simple_auth.Admin.Roles.{names_of, require_roles, handle_set_roles}

module _ ⦃bolt : Bbolt⦄ where
  get_user_roles-set_user_roles :
      (guid : String) (roles : List String) (s : BoltStore)
      → (set_user_roles guid roles s).0 ≡ ok tt
      → get_user_roles guid (set_user_roles guid roles s).1 ≡ ok roles
  unfolding set_user_roles get_user_roles put_raw
  get_user_roles-set_user_roles guid roles s h = elim (Bool-cases (bolt.refuses guid)) [
    | inl refuses ↦ let refuted = rw refuses at h in cc
    | inr takes ↦
        rw takes (
          ground
            (arith, bolt.get-write s.user_roles guid guid (json roles) takes, eq_iff guid guid))
  ]

  after-require_roles :
      {B : Type 0} {b : B} {last : HandlerState} (roles : List String) (st : HandlerState)
      (rest : Unit {0} → Act B)
      → after (require_roles roles st) rest ≡ (done b, last)
      → (validate_roles_exist roles st.store ≡ ok "") × (rest tt st ≡ (done b, last))
  after-require_roles roles st rest h =
      let (unit, s, checked, h1) = after-eq-done (require_roles roles st) rest h in
      let (invalid, found, h2) = after-fetch _ _ st _ checked in
      let (none_invalid, kept) = refuse_if-eq-done _ _ st h2 in
      let blank : invalid ≡ "" = ground (arith, eq_iff invalid "") in
      (found ∙ ap ok blank, ap (rest tt) kept ∙ h1)

  -- Roles that an administrator assigns, none of them blank, are all defined where the role mapping is
  -- read, and they are the roles that the user then has.
  pub handle_set_roles-done :
      (mint : Mint) (show_names : List String → String) (guid : String)
      (body : Option (List String)) (mapping : Option NamesByKey) (st : HandlerState)
      {last : HandlerState} {roles : List String}
      → get_role_permissions st.store ≡ ok mapping
      → elem "" roles ≡ false
      → handle_set_roles mint show_names guid body st ≡ (done roles, last)
      → (body ≡ some roles)
        × AllIn (keys (map_or_empty mapping)) roles
        × (get_user_roles guid last.store ≡ ok roles)
  unfolding handle_set_roles get_user_roles
  handle_set_roles-done mint show_names guid body mapping st {last = last} {roles = roles} read
        named h =
      let (l, given, h1) = after-some_or _ _ st _ h in
      let (valid, h2) = after-require_roles l st _ h1 in
      let h3 = after-look _ st _ h2 in
      let (unit, stored, h4) = after-call (set_user_roles guid l) _ st _ h3 in
      let s1 = record st { store = (set_user_roles guid l st.store).1 } in
      let h5 = after-effect _ s1 _ h4 in
      let (same, ended) = done-injective h5 in
      let old = names_of (get_user_roles guid st.store) in
      let (log, e) =
        audit-eq mint "role_changed" "admin"
          (("user_guid", guid) ∷ ("old_roles", show_names old) ∷ ("new_roles", show_names l) ∷ [])
          s1 in
      (
        given ∙ ap some same,
        (validate_roles_exist_iff roles st.store mapping read named).0
            (ap (λ x. validate_roles_exist x st.store) (sym same) ∙ valid),
        ap (λ x. get_user_roles guid x.store) (sym ended ∙ e)
            ∙ get_user_roles-set_user_roles guid l st.store stored
            ∙ ap ok same,
      )
