-- ===== src/Handler/Sessions.antt =====
-- internal/handler/session_sso.go: the SSO sessions behind the browser's cookie.
--
-- A handler gives back what the cookie becomes: unchanged, set to a session's id, or cleared.
-- `session_id` is the hexadecimal text of 32 random bytes; none where the random source fails.
pub mod Live
use simple_auth.Prelude.{
  ℕ, ◌-◌, String, Bool, true, false, not, ◌||◌, Option, none, some, List, [], ◌∷◌, ltb,
  if◌then◌else◌, ◌==◌, ℤ, pos, negsuc,
}
use simple_auth.Outcome.{Result, ok, err}
use simple_auth.Bolt.{Bbolt}
use simple_auth.Store.Types.{Time, User, Session}
use simple_auth.Store.State.{BoltStore}
use simple_auth.Store.Users.{resolve_user}
use simple_auth.Store.Tokens.{
  create_session, get_session, touch_session, delete_session, is_user_access_revoked,
}
use simple_auth.Handler.State.{Config, Env, HandlerState, exec}
use simple_auth.Handler.Settings.{
  get_session_sso_enabled, get_session_sso_idle_ttl, get_session_sso_max_ttl,
}
use simple_auth.Handler.Limiter.{add_duration}
use simple_auth.Handler.Directory.{directory_account_disabled}

pub data Cookie : Type 0 where
  unchanged : Cookie
  set_to : String → Cookie
  cleared : Cookie

-- `d > ttl`
abbrev pub exceeds : ℕ → ℤ → Bool
exceeds d (pos n) = ltb n d
exceeds d (negsuc n) = true

abbrev pub is_app_local : Result User → Bool
is_app_local (err e) = false
is_app_local (ok u) = not (u.owner_app_id == "")

module _ ⦃bolt : Bbolt⦄ where
  abbrev pub cookie_of :
      String → Result (Unit {0}) × BoltStore → HandlerState → Cookie × HandlerState
  cookie_of id (ok u, s) st = (set_to id, record st { store = s })
  cookie_of id (err e, s) st = (unchanged, record st { store = s })

  abbrev pub create_with :
      Config
      → Time
      → (user_guid user_agent ip : String) → HandlerState
      → Option String
      → Cookie × HandlerState
  create_with cfg now user_guid user_agent ip st none = (unchanged, st)
  create_with cfg now user_guid user_agent ip st (some id) =
      cookie_of id
        (create_session
          (record {
            id = id;
            user_guid = user_guid;
            created_at = now;
            last_used_at = now;
            expires_at = add_duration now (get_session_sso_max_ttl cfg st.runtime_settings);
            user_agent = user_agent;
            ip = ip;
          })
          st.store)
        st

  unfoldable pub issue_session_cookie :
      Config
      → Option String
      → Time
      → (user_guid user_agent ip : String) → HandlerState
      → Cookie × HandlerState
  issue_session_cookie cfg session_id now user_guid user_agent ip st =
      if not (get_session_sso_enabled cfg st.runtime_settings)
      then (unchanged, st)
      else if is_app_local (resolve_user user_guid st.store)
      then (unchanged, st)
      else create_with cfg now user_guid user_agent ip st session_id

  -- What a resolve gives: the user's GUID, the blank one on any failure.
  abbrev pub Resolved : Type 0
  Resolved = String × Cookie × HandlerState

  -- `h.store.DeleteSession(s.ID); h.clearSessionCookie(w); return ""`
  abbrev pub ended : Session → HandlerState → Resolved
  ended x st = ("", cleared, exec (delete_session x.id) st)

  abbrev pub with_status : Time → Session → User → Bool × HandlerState → Resolved
  with_status now x u (true, st) = ended x st
  with_status now x u (false, st) =
      if is_user_access_revoked now u.guid st.store
      then ended x st
      else (u.guid, set_to x.id, exec (touch_session x.id now) st)

  abbrev pub with_owner : Env → Config → Time → Session → HandlerState → Result User → Resolved
  with_owner env cfg now x st (err e) = ended x st
  with_owner env cfg now x st (ok u) =
      if u.disabled
      then ended x st
      else with_status now x u (directory_account_disabled env cfg now u st)

  abbrev pub with_session : Env → Config → Time → HandlerState → Result Session → Resolved
  with_session env cfg now st (err e) = ("", cleared, st)
  with_session env cfg now st (ok x) =
      if ltb x.expires_at now
      then ended x st
      else if exceeds (now - x.last_used_at) (get_session_sso_idle_ttl cfg st.runtime_settings)
      then ended x st
      else with_owner env cfg now x st (resolve_user x.user_guid st.store)

  abbrev pub with_cookie : Env → Config → Time → HandlerState → Option String → Resolved
  with_cookie env cfg now st none = ("", unchanged, st)
  with_cookie env cfg now st (some value) =
      if value == ""
      then ("", unchanged, st)
      else with_session env cfg now st (get_session value st.store)

  unfoldable pub resolve_session_cookie :
      Env → Config → Time → Option String → HandlerState → Resolved
  resolve_session_cookie env cfg now cookie st =
      if not (get_session_sso_enabled cfg st.runtime_settings)
      then ("", unchanged, st)
      else with_cookie env cfg now st cookie

  -- The values of the request's cookies of that name; blank ones are passed over.
  unfoldable pub delete_current_session : List String → HandlerState → Cookie × HandlerState
  delete_current_session [] st = (cleared, st)
  delete_current_session (value ∷ l) st =
      let rest = delete_current_session l in
      if value == "" then rest st else rest (exec (delete_session value) st)
