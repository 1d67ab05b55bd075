-- ===== src/Handler/AdminSettings/InForce.antt =====
-- internal/handler/admin_settings.go: what the settings that an update leaves in force satisfy.
use simple_auth.Prelude.{
  String, ◌≡◌, refl, ◌∙◌, sym, ap, ◌&&◌, [], inl, inr, true, false, Option, none, some, arith, ℤ,
  Bool-cases, List,
}
use simple_auth.Outcome.{ok}
use simple_auth.Bolt.{Bbolt, json}
use simple_auth.Store.Types.{RuntimeSettings}
use simple_auth.Store.State.{BoltStore, runtime_settings}
use simple_auth.Store.Roles.{
  set_config_value, get_config_value, get_runtime_settings, save_runtime_settings,
  as_runtime_settings,
}
use simple_auth.Handler.State.{Config, Env, HandlerState}
use simple_auth.Handler.Settings.{seconds}
use simple_auth.Handler.Limiter.{set_config, same_bool}
use simple_auth.Handler.Jwt.{Mint}
use simple_auth.Handler.Issue.{audit}
use simple_auth.Handler.Act.Frame.{audit-eq}
use simple_auth.Handler.Act.{
  done, after-some_or, after-refuse_if, after-look, after-call, after-effect, done-injective,
}
use simple_auth.Handler.AdminSettings.Bounds.{
  IsSound, guarded-IsSound, IsSound-version, version-guarded,
}
use simple_auth.Handler.AdminSettings.{
  put_in_force, replace_settings, audit_changes, guarded, is_stale, next_version, is_same_limit,
  is_same_outage, handle_update_settings,
}

module _ ⦃bolt : Bbolt⦄ where
  config-audit :
      (mint : Mint) (event actor : String) (details : List (String × String)) (st : HandlerState)
      → (audit mint event actor details st).store.config ≡ st.store.config
  config-audit mint event actor details st =
      let (b, e) = audit-eq mint event actor details st in ap (λ x. x.store.config) e

  get_runtime_settings-save_runtime_settings :
      (rs : RuntimeSettings) (s : BoltStore)
      → (save_runtime_settings rs s).0 ≡ ok tt
      → get_runtime_settings (save_runtime_settings rs s).1 ≡ ok (some rs)
  unfolding save_runtime_settings set_config_value get_runtime_settings get_config_value
  get_runtime_settings-save_runtime_settings rs s h =
      elim (Bool-cases (bolt.refuses "runtime_settings")) [
        | inl refuses ↦ let refuted = rw refuses at h in cc
        | inr takes ↦
            rw
              (
                takes,
                bolt.get-write s.config "runtime_settings" "runtime_settings"
                    (json (runtime_settings rs)) takes,
              )
              refl
      ]

  module _ {X : Type 0} (part : HandlerState → X) (mint : Mint)
      (kept : (event actor : String) (details : List (String × String)) (st : HandlerState)
        → part (audit mint event actor details st) ≡ part st) where
    keeps-audit_changes :
        (show_int : ℤ → String) (rs : RuntimeSettings) (old : Option RuntimeSettings)
        (st : HandlerState)
        → part (audit_changes show_int mint rs old st) ≡ part st
    unfolding audit_changes
    keeps-audit_changes show_int rs none st = refl
    keeps-audit_changes show_int rs (some old) st =
        elim (Bool-cases
          (same_bool old.rate_limit_disabled rs.rate_limit_disabled && is_same_limit old rs)) [
            | inl same ↦ elim (Bool-cases (is_same_outage old rs)) [
              | inl policy ↦ rw (same, policy) refl
              | inr policy ↦ rw (same, policy) (kept _ _ _ st)
            ]
            | inr other ↦ elim (Bool-cases (is_same_outage old rs)) [
              | inl policy ↦ rw (other, policy) (kept _ _ _ st)
              | inr policy ↦ rw (other, policy) (kept _ _ _ _ ∙ kept _ _ _ st)
            ]
          ]

  get_runtime_settings-audit :
      (mint : Mint) (event actor : String) (details : List (String × String)) (st : HandlerState)
      → get_runtime_settings (audit mint event actor details st).store
        ≡ get_runtime_settings st.store
  unfolding get_runtime_settings get_config_value
  get_runtime_settings-audit mint event actor details st =
      ap (λ b. as_runtime_settings (bolt.get b "runtime_settings"))
        (config-audit mint event actor details st)

  login_limiter-audit :
      (mint : Mint) (event actor : String) (details : List (String × String)) (st : HandlerState)
      → (audit mint event actor details st).login_limiter ≡ st.login_limiter
  unfolding audit
  login_limiter-audit mint event actor details st = refl

  replace_settings-done :
      (show_int : ℤ → String) (mint : Mint) (checked : RuntimeSettings) (st : HandlerState)
      {last : HandlerState} {rs : RuntimeSettings}
      → replace_settings show_int mint checked st ≡ (done rs, last)
      → (is_stale checked st.runtime_settings ≡ false)
        × (rs ≡ record checked { version = next_version st.runtime_settings })
        × (get_runtime_settings last.store ≡ ok (some rs))
        × (last.runtime_settings ≡ some rs)
        × (last.login_limiter
            ≡ set_config rs.rate_limit_max
                (seconds rs.rate_limit_window_s)
                rs.rate_limit_disabled
                st.login_limiter)
  unfolding replace_settings put_in_force audit
  replace_settings-done show_int mint checked st h =
      let h1 = after-look _ st _ h in
      let (fresh, h2) = after-refuse_if _ _ st _ h1 in
      let updated = record checked { version = next_version st.runtime_settings } in
      let (unit, saved, h3) = after-call (save_runtime_settings updated) _ st _ h2 in
      let s1 = record st { store = (save_runtime_settings updated st.store).1 } in
      let h4 = after-effect _ s1 _ h3 in
      let s2 = audit_changes show_int mint updated st.runtime_settings s1 in
      let h5 = after-effect _ s2 _ h4 in
      let s3 = put_in_force updated s2 in
      let h6 = after-effect _ s3 _ h5 in
      let (same, ended) = done-injective h6 in
      (
        fresh,
        sym same,
        ap (λ x. get_runtime_settings x.store) (sym ended)
            ∙ get_runtime_settings-audit mint "settings_updated" "admin" [] s3
            ∙ keeps-audit_changes (λ x. get_runtime_settings x.store) mint
                (get_runtime_settings-audit mint) show_int updated st.runtime_settings s1
            ∙ get_runtime_settings-save_runtime_settings updated st.store saved
            ∙ ap (λ x. ok (some x)) same,
        ap (λ x. x.runtime_settings) (sym ended) ∙ ap some same,
        ap (λ x. x.login_limiter) (sym ended)
            ∙ ap
                (set_config updated.rate_limit_max (seconds updated.rate_limit_window_s)
                  updated.rate_limit_disabled)
                (keeps-audit_changes (λ x. x.login_limiter) mint (login_limiter-audit mint) show_int
                  updated st.runtime_settings s1)
            ∙ ap
                (λ x.
                  set_config x.rate_limit_max (seconds x.rate_limit_window_s) x.rate_limit_disabled
                    st.login_limiter)
                same,
      )

  -- An update that succeeds leaves sound settings, with the next version and against no newer one; and
  -- the store, the settings that the handlers read and the rate limiter all have them.
  pub handle_update_settings-done :
      (env : Env) (cfg : Config) (trim : String → String) (show_int : ℤ → String) (window : ℤ)
      (mint : Mint) (body : Option RuntimeSettings) (st : HandlerState) {last : HandlerState}
      {rs : RuntimeSettings}
      → handle_update_settings env cfg trim show_int window mint body st ≡ (done rs, last)
      → (sent : RuntimeSettings) × (body ≡ some sent)
        × (is_stale sent st.runtime_settings ≡ false)
        × IsSound rs
        × (rs.version ≡ next_version st.runtime_settings)
        × (get_runtime_settings last.store ≡ ok (some rs))
        × (last.runtime_settings ≡ some rs)
        × (last.login_limiter
            ≡ set_config rs.rate_limit_max
                (seconds rs.rate_limit_window_s)
                rs.rate_limit_disabled
                st.login_limiter)
  unfolding handle_update_settings
  handle_update_settings-done env cfg trim show_int window mint body st h =
      let (sent, given, h1) = after-some_or _ _ st _ h in
      let (listed, h2) = after-refuse_if _ _ st _ h1 in
      let (known, h3) = after-refuse_if _ _ st _ h2 in
      let (fresh, same, stored, cached, limiter) =
        replace_settings-done show_int mint (guarded env cfg window sent).1 st h3 in
      let passed : (guarded env cfg window sent).0 ≡ true = ground arith in
      (
        sent,
        given,
        ap (λ v. is_stale (record sent { version = v }) st.runtime_settings)
              (sym (version-guarded env cfg window sent))
            ∙ fresh,
        rw same (IsSound-version _ (guarded-IsSound env cfg window sent passed)),
        ap (λ x. x.version) same,
        stored,
        cached,
        limiter,
      )
