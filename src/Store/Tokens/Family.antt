-- ===== src/Store/Tokens/Family.antt =====
-- internal/store/bolt.go: what RevokeTokenFamily leaves.
use simple_auth.Prelude.{String, ◌≡◌, arith, if◌then◌else◌, ◌==◌}
use simple_auth.Outcome.{Result, ok, err, refresh_token_not_found}
use simple_auth.Bolt.{Bbolt}
use simple_auth.Bolt.Laws.{get-prune}
use simple_auth.Store.Types.{RefreshToken}
use simple_auth.Store.State.{BoltStore}
use simple_auth.Store.Tokens.{get_refresh_token, revoke_token_family}

module _ ⦃bolt : Bbolt⦄ where
  -- The answer of GetRefreshToken, with the tokens of a family missing.
  abbrev pub outside_family : String → Result RefreshToken → Result RefreshToken
  outside_family f (err e) = err e
  outside_family f (ok rt) = if rt.family_id == f then err refresh_token_not_found else ok rt

  -- After RevokeTokenFamily the tokens of the family are not found, and every other answer is as
  -- before.
  pub get_refresh_token-revoke_token_family :
      (f t : String) (s : BoltStore)
      → get_refresh_token t (revoke_token_family f s).1 ≡ outside_family f (get_refresh_token t s)
  unfolding get_refresh_token revoke_token_family
  get_refresh_token-revoke_token_family f t s =
      ground (arith, get-prune (λ (x : RefreshToken). x.family_id == f) s.refresh_tokens t)
