-- ===== src/Handler/Lockout/Guard.antt =====
-- internal/handler/auth.go: failed logins lock an account, and the lock holds for its duration.
use simple_auth.Prelude.{
  ℕ, suc, ◌+◌, ◌≤◌, String, ◌≡◌, refl, ◌∙◌, true, some, List, [], ◌∷◌, arith, length, ◌++◌, eq_refl,
  inl, inr, ap, Option-cases, pos,
}
use simple_auth.Outcome.{Result, ok, err}
use simple_auth.Bolt.{Bbolt, json, read, put_raw}
use simple_auth.Bolt.Laws.{accepted_of_stored}
use simple_auth.Store.Types.{Time, User}
use simple_auth.Store.State.{BoltStore}
use simple_auth.Store.Users.{get_user, update_user}
use simple_auth.Handler.State.{Config, HandlerState}
use simple_auth.Handler.Settings.{get_account_lockout_threshold, get_account_lockout_duration}
use simple_auth.Handler.Lockout.{is_account_locked, record_failed_login, failed_once}

module _ ⦃bolt : Bbolt⦄ where
  -- An update of a stored user is read back.
  get_user-update_user :
      (u old : User) (s : BoltStore)
      → get_user u.guid s ≡ ok old
      → get_user u.guid (update_user u s).1 ≡ ok u
  unfolding get_user update_user read put_raw
  get_user-update_user u old s h = elim (Option-cases (bolt.get s.users u.guid)) [
    | inl absent ↦ let refuted = rw absent at h in cc
    | inr (d, there) ↦
        let fits = accepted_of_stored s.users u.guid there in
        rw (there, fits, bolt.get-write s.users u.guid u.guid (json u) fits, eq_refl u.guid) refl
  ]

  abbrev fail_at : Config → Time → Result User → HandlerState → HandlerState
  fail_at cfg now (ok u) st = record_failed_login cfg now u st
  fail_at cfg now (err e) st = st

  -- Failed logins of a user at the listed instants.
  unfoldable pub fail_times : Config → String → List Time → HandlerState → HandlerState
  fail_times cfg guid [] st = st
  fail_times cfg guid (now ∷ l) st =
      fail_times cfg guid l (fail_at cfg now (get_user guid st.store) st)

  module _ (cfg : Config) where
    -- What the user is after a failure.
    abbrev after : HandlerState → Time → User → User
    after st now u =
        failed_once (get_account_lockout_threshold cfg st.runtime_settings)
          (get_account_lockout_duration cfg st.runtime_settings) now u

    fail_at_lem :
        (now : Time) (u : User) (st : HandlerState)
        → get_user u.guid st.store ≡ ok u
        → (get_user u.guid (fail_at cfg now (get_user u.guid st.store) st).store
            ≡ ok (after st now u))
          × ((fail_at cfg now (get_user u.guid st.store) st).runtime_settings ≡ st.runtime_settings)
    unfolding record_failed_login
    fail_at_lem now u st h = (rw h (get_user-update_user (after st now u) u st.store h), rw h refl)

    after-locked :
        (st : HandlerState) (last : Time) (u : User) (n d : ℕ)
        → get_account_lockout_threshold cfg st.runtime_settings ≡ pos (suc n)
        → get_account_lockout_duration cfg st.runtime_settings ≡ pos d
        → n ≤ u.failed_login_attempts
        → (after st last u).locked_until ≡ some (last + d)
    after-locked st last u n d on lasting enough = rw (on, lasting) (ground arith)

    locked-live :
        (st : HandlerState) (now until : Time) (u : User) (n : ℕ)
        → get_account_lockout_threshold cfg st.runtime_settings ≡ pos (suc n)
        → u.locked_until ≡ some until
        → now ≤ until
        → (is_account_locked cfg now u st).0 ≡ true
    unfolding is_account_locked
    locked-live st now until u n on locked live = simp (on, locked) (ground arith)

    -- From a stored user, once the failures reach the positive threshold the user is stored as locked,
    -- and the account counts as locked until the lockout's duration after the last failure has passed,
    -- the settings being the same then.
    pub fail_times-locks :
        (l : List Time) (last now : Time) (u : User) (st : HandlerState) (n d : ℕ)
        → get_account_lockout_threshold cfg st.runtime_settings ≡ pos (suc n)
        → get_account_lockout_duration cfg st.runtime_settings ≡ pos d
        → get_user u.guid st.store ≡ ok u
        → n ≤ u.failed_login_attempts + length l
        → now ≤ last + d
        → (v : User) × (get_user u.guid (fail_times cfg u.guid (l ++ last ∷ []) st).store ≡ ok v)
          × ((is_account_locked cfg now v (fail_times cfg u.guid (l ++ last ∷ []) st)).0 ≡ true)
    unfolding fail_times
    fail_times-locks [] last now u st n d on lasting stored enough live =
        let (read, same) = fail_at_lem last u st stored in
        let st' = fail_at cfg last (get_user u.guid st.store) st in
        (
          after st last u,
          read,
          locked-live st' now (last + d) (after st last u) n
              (ap (get_account_lockout_threshold cfg) same ∙ on)
              (after-locked st last u n d on lasting (omega (arith, enough))) live,
        )
    fail_times-locks (t ∷ l) last now u st n d on lasting stored enough live =
        let (read, same) = fail_at_lem t u st stored in
        fail_times-locks l last now (after st t u) (fail_at cfg t (get_user u.guid st.store) st) n d
          (ap (get_account_lockout_threshold cfg) same ∙ on)
          (ap (get_account_lockout_duration cfg) same ∙ lasting) read (omega (arith, enough)) live
