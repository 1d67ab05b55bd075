-- ===== src/Handler/Access/Admitted.antt =====
-- internal/handler/app_admin.go: who passes requireAppAdmin.
use simple_auth.Prelude.{
  String, ◌≡◌, refl, ap, subst, ◌≢◌, true, false, not, ◌&&◌, Option, none, some, arith, ◌==◌,
  eq_iff,
}
use simple_auth.Outcome.{Result, ok, err}
use simple_auth.Bolt.{Bbolt}
use simple_auth.Store.Types.{Time, User, App}
use simple_auth.Store.State.{BoltStore}
use simple_auth.Store.Users.{resolve_user}
use simple_auth.Store.Apps.{is_app_admin}
use simple_auth.Store.Tokens.{is_access_token_revoked, is_user_access_revoked}
use simple_auth.Handler.State.{Config}
use simple_auth.Handler.Jwt.{Claims}
use simple_auth.Handler.Roles.{AppLookup, found, not_served, resolve_app}
use simple_auth.Handler.Access.{
  Validated, good, bad, passed, validated, validate_access_token, as_admin, at_app, with_claims,
  require_app_admin,
}

module _ ⦃bolt : Bbolt⦄ (now : Time) (s : BoltStore) where
  -- The claims are those of an access token that is not revoked.
  pub record IsAccess (c : Claims) : Type 0 where
    pub not_management : c.typ ≢ "app-mgmt"
    pub not_id_token : c.typ ≢ "ID"
    pub not_refresh : c.family_id ≡ ""
    pub access_kept : is_user_access_revoked now c.subject s ≡ false
    pub token_kept : (not (c.id == "") && is_access_token_revoked c.id s) ≡ false

  pub validated-IsAccess :
      (o : Option Claims) {c : Claims} → validated now s o ≡ good c → (o ≡ some c) × IsAccess c
  validated-IsAccess none h = cc
  validated-IsAccess (some d) h =
      let management : (d.typ == "app-mgmt") ≡ false = ground arith in
      let family : (d.family_id == "") ≡ true = ground arith in
      let id : (d.typ == "ID") ≡ false = ground arith in
      let kept : is_user_access_revoked now d.subject s ≡ false = ground arith in
      let jti : (not (d.id == "") && is_access_token_revoked d.id s) ≡ false = ground arith in
      let same : good d ≡ good _ = simp (management, family, id, kept, jti) at h in
      let access : IsAccess d = record {
        not_management = ground (arith, eq_iff d.typ "app-mgmt");
        not_id_token = ground (arith, eq_iff d.typ "ID");
        not_refresh = (eq_iff d.family_id "").0 family;
        access_kept = kept;
        token_kept = jti;
      } in
      let e : d ≡ _ = cc in (ap some e, subst IsAccess e access)

  as_admin-passed :
      (a : App) (r : Result User) {app_id actor : String}
      → as_admin a s r ≡ passed app_id actor
      → (u : User) × (r ≡ ok u)
        × (u.disabled ≡ false)
        × (u.merged_into ≡ "")
        × (a.app_id ≡ app_id)
        × (u.guid ≡ actor)
        × (is_app_admin app_id actor s ≡ true)
  as_admin-passed a (err e) h = cc
  as_admin-passed a (ok u) {app_id} {actor} h =
      let live : u.disabled ≡ false = ground arith in
      let unmerged : (u.merged_into == "") ≡ true = ground arith in
      let admin : is_app_admin a.app_id u.guid s ≡ true = ground arith in
      let same : passed a.app_id u.guid ≡ passed app_id actor = simp (live, unmerged, admin) at h in
      (u, refl, live, (eq_iff u.merged_into "").0 unmerged, cc, cc, cc)

  -- What the gate asks of claims that are good.
  abbrev pub IsAdmin : Config → Claims → App → User → String → String → Type 0
  IsAdmin cfg c a u app_id actor =
      (c.impersonated ≡ false)
      × (c.azp ≢ "")
      × (resolve_app cfg c.azp s ≡ found a)
      × (a.app_id ≡ app_id)
      × (resolve_user c.subject s ≡ ok u)
      × (u.guid ≡ actor)
      × (u.disabled ≡ false)
      × (u.merged_into ≡ "")
      × (is_app_admin app_id actor s ≡ true)

  at_app-passed :
      (c : Claims) (l : AppLookup) {app_id actor : String}
      → at_app c s l ≡ passed app_id actor
      → (a : App) × (l ≡ found a) × (as_admin a s (resolve_user c.subject s) ≡ passed app_id actor)
  at_app-passed c (not_served e) h = cc
  at_app-passed c (found a) h = (a, refl, h)

  with_claims-passed :
      (cfg : Config) (v : Validated) {app_id actor : String}
      → with_claims cfg s v ≡ passed app_id actor
      → (c : Claims) × (a : App) × (u : User) × (v ≡ good c) × IsAdmin cfg c a u app_id actor
  with_claims-passed cfg (bad e) h = cc
  with_claims-passed cfg (good c) {app_id} {actor} h =
      let own : c.impersonated ≡ false = ground arith in
      let azp : (c.azp == "") ≡ false = ground arith in
      let at : at_app c s (resolve_app cfg c.azp s) ≡ passed app_id actor = simp (own, azp) at h in
      let (a, served, admin) = at_app-passed c (resolve_app cfg c.azp s) at in
      let (u, resolved, live, unmerged, app, guid, listed) =
        as_admin-passed a (resolve_user c.subject s) admin in
      (
        c,
        a,
        u,
        refl,
        (own, ground (arith, eq_iff c.azp ""), served, app, resolved, guid, live, unmerged, listed),
      )

  -- Who passes is named by a token that parses and is an unrevoked access token of no impersonation;
  -- the app is the one that the token's `azp` resolves to, and the actor is the user that its subject
  -- resolves to, who is neither disabled nor merged and is an administrator of that app now.
  pub require_app_admin-passed :
      (cfg : Config) (parse : String → Option Claims) (token : String) {app_id actor : String}
      → require_app_admin cfg parse now token s ≡ passed app_id actor
      → (c : Claims) × (a : App) × (u : User) × (parse token ≡ some c)
        × IsAccess c
        × IsAdmin cfg c a u app_id actor
  unfolding require_app_admin validate_access_token
  require_app_admin-passed cfg parse token h =
      let (c, a, u, valid, admin) = with_claims-passed cfg (validated now s (parse token)) h in
      let (parsed, access) = validated-IsAccess (parse token) valid in
      (c, a, u, parsed, access, admin)
