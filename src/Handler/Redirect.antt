-- ===== src/Handler/Redirect.antt =====
-- internal/handler/hosted_login.go, apps.go and oidc.go: which redirect URIs are allowed, and the
-- check of the PKCE verifier.
pub mod Allowed
use Prim.Native.Char.{Char, code}
use simple_auth.Prelude.{
  ℕ, String, ◌^^◌, Bool, true, false, not, ◌&&◌, ◌||◌, Option, List, [], ◌∷◌, eqb, if◌then◌else◌,
  ◌==◌, starts_with,
}
use simple_auth.Store.Types.{App, RuntimeSettings}
use simple_auth.Handler.State.{Config}
use simple_auth.Handler.Settings.{get_redirect_uris}

-- `strings.HasSuffix` with a suffix of one ASCII character, given by its code.
unfoldable pub ends_with : ℕ → String → Bool
ends_with n String.[] = false
ends_with n (String.◌∷◌ c String.[]) = eqb (code c) n
ends_with n (String.◌∷◌ c (String.◌∷◌ d s)) = ends_with n (String.◌∷◌ d s)

-- `s[:len(s)-1]`, where the last character is an ASCII one.
unfoldable pub without_last : String → String
without_last String.[] = ""
without_last (String.◌∷◌ c String.[]) = ""
without_last (String.◌∷◌ c (String.◌∷◌ d s)) = String.◌∷◌ c (without_last (String.◌∷◌ d s))

-- A wildcard whose prefix ends with '/' or '.' covers what starts with it; another one covers the
-- prefix itself and what starts with it and a '/'.
abbrev pub wildcard_covers : String → String → Bool
wildcard_covers prefix uri =
    if not (ends_with b'/' prefix) && not (ends_with b'.' prefix)
    then starts_with uri (prefix ^^ "/") || uri == prefix
    else starts_with uri prefix

-- One round of the loop.
abbrev pub covers : String → String → Bool
covers allowed uri =
    if ends_with b'*' allowed then wildcard_covers (without_last allowed) uri else allowed == uri

unfoldable pub any_covers : List String → String → Bool
unfolding ends_with without_last
any_covers [] uri = false
any_covers (allowed ∷ l) uri = covers allowed uri || any_covers l uri

abbrev pub has_http_scheme : String → Bool
has_http_scheme uri = starts_with uri "https://" || starts_with uri "http://"

unfoldable pub is_allowed_redirect : List String → String → Bool
unfolding any_covers
is_allowed_redirect [] uri = false
is_allowed_redirect (allowed ∷ l) uri = has_http_scheme uri && any_covers (allowed ∷ l) uri

abbrev own_or_global : List String → List String → String → Bool
own_or_global [] global uri = is_allowed_redirect global uri
own_or_global (u ∷ l) global uri = is_allowed_redirect (u ∷ l) uri

unfoldable pub app_allows_redirect : Config → Option RuntimeSettings → App → String → Bool
app_allows_redirect cfg rs a uri = own_or_global a.redirect_uris (get_redirect_uris cfg rs) uri

-- `challenge_of` is the unpadded base64url text of the SHA-256 hash.
unfoldable pub verify_pkce : (String → String) → (verifier challenge method : String) → Bool
verify_pkce challenge_of verifier challenge method =
    if verifier == ""
    then false
    else if not (method == "S256")
    then false
    else challenge_of verifier == challenge
