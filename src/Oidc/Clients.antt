-- ===== src/Oidc/Clients.antt =====
-- internal/handler/oidc.go: the authentication of clients.
pub mod Secret
use simple_auth.Prelude.{
  String, Bool, true, false, not, ◌&&◌, Option, none, some, List, if◌then◌else◌, ◌==◌,
}
use simple_auth.Bolt.{Bbolt}
use simple_auth.Store.Types.{App}
use simple_auth.Handler.State.{Config, Env}
use simple_auth.Handler.Act.{Refusal, http_error, Act, ◌>>=◌, ◌>>◌, reply, refuse, refuse_if}
use simple_auth.Handler.Guards.{serve_app}
use simple_auth.Handler.Request.{Request}

abbrev pub invalid_client : Refusal
invalid_client = http_error 401 "invalid_client"

unfoldable pub oidc_confidential_enabled : Config → Bool
oidc_confidential_enabled cfg = not (cfg.client_secret == "")

abbrev pub basic_or_blank : Option String → String
basic_or_blank none = ""
basic_or_blank (some password) = password

-- The form's secret, or the one of the header.
unfoldable pub presented_client_secret : Request → String
presented_client_secret req =
    let secret = req.form_value "client_secret" in
    if not (secret == "") then secret else basic_or_blank req.basic_password

module _ ⦃bolt : Bbolt⦄ where
  -- The gate of the public flows, which lets everybody pass.
  abbrev pub authenticate_oidc_client : Request → Act (Unit {0})
  authenticate_oidc_client req = reply tt

  unfoldable pub require_confidential_client : Config → Request → Act (Unit {0})
  require_confidential_client cfg req = do
    refuse_if (not (oidc_confidential_enabled cfg)) invalid_client
    let presented = presented_client_secret req
    refuse_if (presented == "") invalid_client
    refuse_if (not (presented == cfg.client_secret)) invalid_client

  -- The app's own secret where it has one, else the global one.
  abbrev pub check_secret : Env → Config → App → String → Act (Unit {0})
  check_secret env cfg a presented =
      if not (a.secret_hash == "")
      then refuse_if (not (env.check_password a.secret_hash presented)) invalid_client
      else (refuse_if (not (oidc_confidential_enabled cfg)) invalid_client
          >> refuse_if (not (presented == cfg.client_secret)) invalid_client)

  unfoldable pub authenticate_confidential_client : Env → Config → Request → Act App
  authenticate_confidential_client env cfg req = do
    a ← serve_app invalid_client cfg (req.form_value "client_id")
    let presented = presented_client_secret req
    refuse_if (presented == "") invalid_client
    check_secret env cfg a presented
    reply a
