-- ===== src/Handler/Act/Frame.antt =====
-- What a handler leaves alone: a part of the state that a step and the rest of the chain keep is kept
-- by the chain, on the branches that refuse too.
use simple_auth.Prelude.{
  String, ◌≡◌, refl, ◌∙◌, ap, Bool, true, false, Option, none, some, ◌^^◌, inl, inr, List,
}
use simple_auth.Outcome.{Result, Result-cases, ok, err}
use simple_auth.Bolt.{Bbolt, Bytes, json, put_raw}
use simple_auth.Store.Types.{RefreshToken, AuditEntry}
use simple_auth.Store.State.{BoltStore, Method}
use simple_auth.Store.Tokens.{save_refresh_token}
use simple_auth.Store.Audit.{entry_with_defaults, write_audit_log}
use simple_auth.Handler.State.{HandlerState}
use simple_auth.Handler.Jwt.{Mint}
use simple_auth.Handler.Issue.{audit}
use simple_auth.Handler.Act.{
  Refusal, Act, after, refuse_if, effect, or_refuse, some_or, stored, call, fetch,
}

module _ ⦃bolt : Bbolt⦄ {X : Type 0} (part : HandlerState → X) where
  module _ {B : Type 0} (rest : Unit {0} → Act B) (st : HandlerState) where
    pub keeps-refuse_if :
        (test : Bool) (r : Refusal)
        → part (rest tt st).1 ≡ part st
        → part (after (refuse_if test r st) rest).1 ≡ part st
    unfolding refuse_if
    keeps-refuse_if true r keep = refl
    keeps-refuse_if false r keep = keep

    pub keeps-effect :
        (f : HandlerState → HandlerState)
        → part (f st) ≡ part st
        → part (rest tt (f st)).1 ≡ part (f st)
        → part (after (effect f st) rest).1 ≡ part st
    unfolding effect
    keeps-effect f first keep = keep ∙ first

  module _ {A B : Type 0} (rest : A → Act B) (st : HandlerState) where
    pub keeps-some_or :
        (r : Refusal) (o : Option A)
        → ((a : A) → part (rest a st).1 ≡ part st)
        → part (after (some_or r o st) rest).1 ≡ part st
    unfolding some_or
    keeps-some_or r none keep = refl
    keeps-some_or r (some a) keep = keep a

    keeps-or_refuse :
        (r : Refusal) (result : Result A)
        → ((a : A) → part (rest a st).1 ≡ part st)
        → part (after (or_refuse r result st) rest).1 ≡ part st
    unfolding or_refuse
    keeps-or_refuse r (ok a) keep = keep a
    keeps-or_refuse r (err e) keep = refl

    pub keeps-fetch :
        (r : Refusal) (f : BoltStore → Result A)
        → ((a : A) → part (rest a st).1 ≡ part st)
        → part (after (fetch r f st) rest).1 ≡ part st
    unfolding fetch
    keeps-fetch r f keep = keeps-or_refuse r (f st.store) keep

    keeps-stored :
        (r : Refusal) (p : Result A × BoltStore)
        → part (record st { store = p.1 }) ≡ part st
        → ((a : A) → part (rest a (record st { store = p.1 })).1 ≡ part (record st { store = p.1 }))
        → part (after (stored r p st) rest).1 ≡ part st
    unfolding stored
    keeps-stored r (ok a, s) first keep = keep a ∙ first
    keeps-stored r (err e, s) first keep = first

    pub keeps-call :
        (r : Refusal) (m : Method A)
        → part (record st { store = (m st.store).1 }) ≡ part st
        → ((a : A)
            → part (rest a (record st { store = (m st.store).1 })).1
              ≡ part (record st { store = (m st.store).1 }))
        → part (after (call r m st) rest).1 ≡ part st
    unfolding call
    keeps-call r m first keep = keeps-stored r (m st.store) first keep

module _ ⦃bolt : Bbolt⦄ where
  -- The bucket of codes, which neither a refresh token nor an audit entry is written to.
  pub oidc_auth_codes-save_refresh_token :
      (rt : RefreshToken) (s : BoltStore)
      → (save_refresh_token rt s).1.oidc_auth_codes ≡ s.oidc_auth_codes
  unfolding save_refresh_token
  oidc_auth_codes-save_refresh_token rt s =
      elim (Result-cases (put_raw s.refresh_tokens rt.token_id (json rt))) [
        | inl (b, written) ↦ rw written refl
        | inr (failure, written) ↦ rw written refl
      ]

  -- An audit record changes the audit log and nothing else.
  pub audit-eq :
      (mint : Mint) (event actor : String) (details : List (String × String)) (st : HandlerState)
      → (b : bolt.Bucket (Bytes AuditEntry)) × (audit mint event actor details st
          ≡ record st { store = record st.store { audit_log = b } })
  unfolding audit write_audit_log
  audit-eq mint event actor details st =
      let e : AuditEntry = entry_with_defaults mint.audit_id mint.now (record {
        id = "";
        timestamp = 0;
        event = event;
        actor = actor;
        ip = mint.ip;
        details = details;
      }) in
      elim (Result-cases
        (put_raw st.store.audit_log (mint.format_nano e.timestamp ^^ (":" ^^ e.id)) (json e))) [
          | inl (b, put) ↦ (b, rw put refl)
          | inr (failure, put) ↦ (st.store.audit_log, rw put refl)
        ]

  pub oidc_auth_codes-audit :
      (mint : Mint) (event actor : String) (details : List (String × String)) (st : HandlerState)
      → (audit mint event actor details st).store.oidc_auth_codes ≡ st.store.oidc_auth_codes
  oidc_auth_codes-audit mint event actor details st =
      let (b, e) = audit-eq mint event actor details st in ap (λ x. x.store.oidc_auth_codes) e
