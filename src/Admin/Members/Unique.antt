-- ===== src/Admin/Members/Unique.antt =====
-- internal/handler/app_admin.go: whom a reference to a user may mean.
use simple_auth.Prelude.{
  String, ◌≡◌, refl, ◌≢◌, ◌⊎◌, inl, inr, Bool, false, not, ◌&&◌, List, [], ◌∷◌, arith, eq_iff,
  Bool-cases, ◌==◌,
}
use simple_auth.Outcome.{Result, ok, err}
use simple_auth.Bolt.{Bbolt}
use simple_auth.Store.Types.{User, IdentityMappingEntry}
use simple_auth.Store.Users.{resolve_user}
use simple_auth.Store.Mappings.{list_all_mappings}
use simple_auth.Handler.State.{HandlerState}
use simple_auth.Admin.Members.{
  refers_to, found_or_unknown, scan, scanned, user_or_scan, resolve_user_ref,
}

-- Every mapping that matches belongs to the user, if it has an owner at all.
abbrev pub AllBelong :
    (String → String → Bool) → String → String → List IdentityMappingEntry → Type 0
AllBelong equal_fold ref guid [] = Unit {0}
AllBelong equal_fold ref guid (m ∷ l) =
    ((equal_fold m.external_id ref ≡ false) ⊎ ((m.user_guid ≡ "") ⊎ (m.user_guid ≡ guid)))
    × AllBelong equal_fold ref guid l

found_or_unknown-refers_to :
    (found : String) {guid : String}
    → found_or_unknown found ≡ refers_to guid
    → (found ≡ "") ⊎ (found ≡ guid)
found_or_unknown-refers_to found h = elim (Bool-cases (found == "")) [
  | inl blank ↦ inl (ground (arith, eq_iff found ""))
  | inr given ↦ let same = rw given at h in inr cc
]

scan-refers_to :
    (equal_fold : String → String → Bool) (ref found : String) (l : List IdentityMappingEntry)
    {guid : String}
    → scan equal_fold ref found l ≡ refers_to guid
    → ((found ≡ "") ⊎ (found ≡ guid)) × AllBelong equal_fold ref guid l
unfolding scan
scan-refers_to equal_fold ref found [] h = (found_or_unknown-refers_to found h, tt)
scan-refers_to equal_fold ref found (m ∷ l) {guid} h =
    elim (Bool-cases (equal_fold m.external_id ref)) [
      | inl matches ↦ elim (Bool-cases (not (found == "") && not (found == m.user_guid))) [
        | inl clash ↦ let refuted = rw (matches, clash) at h in cc
        | inr agrees ↦
            let h1 = rw (matches, agrees) at h in
            let (owner, belong) = scan-refers_to equal_fold ref m.user_guid l h1 in
            (grind (arith, eq_iff found "", eq_iff found m.user_guid), (inr owner, belong))
      ]
      | inr differs ↦
          let h1 = rw differs at h in
          let (owner, belong) = scan-refers_to equal_fold ref found l h1 in
          (owner, (inl differs, belong))
    ]

scanned-refers_to :
    (equal_fold : String → String → Bool) (ref : String) (r : Result (List IdentityMappingEntry))
    {guid : String}
    → scanned equal_fold ref r ≡ refers_to guid
    → (l : List IdentityMappingEntry) × (r ≡ ok l) × AllBelong equal_fold ref guid l
scanned-refers_to equal_fold ref (err e) h = cc
scanned-refers_to equal_fold ref (ok l) h =
    let (owner, belong) = scan-refers_to equal_fold ref "" l h in (l, refl, belong)

module _ ⦃bolt : Bbolt⦄ (trim : String → String) (equal_fold : String → String → Bool) where
  user_or_scan-refers_to :
      (ref : String) (r : Result User) (st : HandlerState) {guid : String}
      → user_or_scan trim equal_fold ref r st ≡ refers_to guid
      → ((u : User) × (r ≡ ok u) × (u.guid ≡ guid))
        ⊎ ((l : List IdentityMappingEntry) × (list_all_mappings st.store ≡ ok l)
            × AllBelong equal_fold ref guid l)
  user_or_scan-refers_to ref (ok u) st h = inl (u, refl, cc)
  user_or_scan-refers_to ref (err e) st h =
      inr (scanned-refers_to equal_fold ref (list_all_mappings st.store) h)

  -- A reference that resolves is not blank; it is the GUID of a user, through merges, or an external id
  -- of which every mapping that has an owner belongs to that user.
  pub resolve_user_ref-refers_to :
      (raw : String) (st : HandlerState) {guid : String}
      → resolve_user_ref trim equal_fold raw st ≡ refers_to guid
      → (trim raw ≢ "")
        × (((u : User) × (resolve_user (trim raw) st.store ≡ ok u) × (u.guid ≡ guid))
            ⊎ ((l : List IdentityMappingEntry) × (list_all_mappings st.store ≡ ok l)
                × AllBelong equal_fold (trim raw) guid l))
  unfolding resolve_user_ref
  resolve_user_ref-refers_to raw st h = elim (Bool-cases (trim raw == "")) [
    | inl blank ↦ let refuted = rw blank at h in cc
    | inr given ↦ (
      (λ e. ground (arith, eq_iff (trim raw) "")),
      user_or_scan-refers_to (trim raw) (resolve_user (trim raw) st.store) st (rw given at h),
    )
  ]
