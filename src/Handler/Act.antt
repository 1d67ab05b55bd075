-- ===== src/Handler/Act.antt =====
-- internal/handler: handlers as chains of guards.
--
-- A handler reads and changes the state and ends with an answer or with a refusal: an HTTP error, of
-- which the status and the text (for OAuth errors the code) are kept, or a redirect to a page
-- that shows the error.
pub mod Frame
use simple_auth.Prelude.{
  ℕ, String, ◌≡◌, refl, Bool, true, false, not, Option, none, some, if◌then◌else◌, ap,
}
use simple_auth.Outcome.{Error, Result, ok, err}
use simple_auth.Bolt.{Bbolt}
use simple_auth.Store.Types.{Time}
use simple_auth.Store.State.{BoltStore, Method}
use simple_auth.Handler.Limiter.{RateLimiter, allow}
use simple_auth.Handler.State.{HandlerState}

pub data Refusal : Type 0 where
  http_error : (status : ℕ) (text : String) → Refusal
  sent_to : (location : String) → Refusal

pub data Answer (A : Type 0) : Type 0 where
  done : A → Answer A
  refused : Refusal → Answer A

module _ ⦃bolt : Bbolt⦄ where
  abbrev pub Act : Type 0 → Type 0
  Act A = HandlerState → Answer A × HandlerState

  -- `if err != nil { …; return }`, then the rest of the handler.
  abbrev pub after :
      {A B : Type 0} → Answer A × HandlerState → (A → Act B) → Answer B × HandlerState
  after (done a, st) rest = rest a st
  after (refused r, st) rest = (refused r, st)

  infixl 5 ◌>>=◌ ◌>>◌
  abbrev pub ◌>>=◌ : {A B : Type 0} → Act A → (A → Act B) → Act B
  first >>= rest = λ st. after (first st) rest

  abbrev pub ◌>>◌ : {A B : Type 0} → Act A → Act B → Act B
  first >> second = first >>= λ value. second

  abbrev pub reply : {A : Type 0} → A → Act A
  reply a st = (done a, st)

  abbrev pub refuse : {A : Type 0} → Refusal → Act A
  refuse r st = (refused r, st)

  unfoldable pub refuse_if : Bool → Refusal → Act (Unit {0})
  refuse_if true r st = (refused r, st)
  refuse_if false r st = (done tt, st)

  -- A change of the state that cannot fail, or whose failure is not looked at.
  unfoldable pub effect : (HandlerState → HandlerState) → Act (Unit {0})
  effect f st = (done tt, f st)

  unfoldable pub look : {A : Type 0} → (HandlerState → A) → Act A
  look f st = (done (f st), st)

  unfoldable pub or_refuse : {A : Type 0} → Refusal → Result A → Act A
  or_refuse r (ok a) st = (done a, st)
  or_refuse r (err e) st = (refused r, st)

  unfoldable pub some_or : {A : Type 0} → Refusal → Option A → Act A
  some_or r (some a) st = (done a, st)
  some_or r none st = (refused r, st)

  unfoldable pub stored : {A : Type 0} → Refusal → Result A × BoltStore → Act A
  stored r (ok a, s) st = (done a, record st { store = s })
  stored r (err e, s) st = (refused r, record st { store = s })

  -- A call of the store whose error is refused.
  unfoldable pub call : {A : Type 0} → Refusal → Method A → Act A
  unfolding stored
  call r m st = stored r (m st.store) st

  -- A read of the store whose error is refused.
  unfoldable pub fetch : {A : Type 0} → Refusal → (BoltStore → Result A) → Act A
  unfolding or_refuse
  fetch r f st = or_refuse r (f st.store) st

  abbrev pub limited : Refusal → Bool × RateLimiter → Act (Unit {0})
  limited r (true, rl) st = (done tt, record st { login_limiter = rl })
  limited r (false, rl) st = (refused r, record st { login_limiter = rl })

  -- `if !h.loginLimiter.allow(ip)`
  unfoldable pub rate_limit : Time → String → Refusal → Act (Unit {0})
  rate_limit now ip r st = limited r (allow now ip st.login_limiter) st

  pub after-eq-done :
      {A B : Type 0} (p : Answer A × HandlerState) (rest : A → Act B) {b : B} {last : HandlerState}
      → after p rest ≡ (done b, last)
      → (a : A) × (st : HandlerState) × (p ≡ (done a, st)) × (rest a st ≡ (done b, last))
  after-eq-done (done a, st) rest h = (a, st, refl, h)
  after-eq-done (refused r, st) rest h = cc

  pub done-injective :
      {A : Type 0} {a b : A} {st last : HandlerState}
      → reply a st ≡ (done b, last)
      → (a ≡ b) × (st ≡ last)
  done-injective h = (cc, ap (λ p. p.1) h)

  pub refuse_if-eq-done :
      (b : Bool) (r : Refusal) (st : HandlerState) {last : HandlerState} {x : Unit {0}}
      → refuse_if b r st ≡ (done x, last)
      → (b ≡ false) × (st ≡ last)
  unfolding refuse_if
  refuse_if-eq-done true r st h = cc
  refuse_if-eq-done false r st h = (refl, ap (λ p. p.1) h)

  stored_ok :
      {A : Type 0} (p : Result A × BoltStore) (r : Refusal) (st : HandlerState) {a : A}
      → p.0 ≡ ok a
      → stored r p st ≡ (done a, record st { store = p.1 })
  unfolding stored
  stored_ok (ok a, s) r st h = let same : a ≡ _ = cc in rw same refl
  stored_ok (err e, s) r st h = cc

  pub call_ok :
      {A : Type 0} (m : Method A) (r : Refusal) (st : HandlerState) {a : A}
      → (m st.store).0 ≡ ok a
      → call r m st ≡ (done a, record st { store = (m st.store).1 })
  unfolding call
  call_ok m r st h = stored_ok (m st.store) r st h

  stored_err :
      {A : Type 0} (p : Result A × BoltStore) (r : Refusal) (st : HandlerState) {e : Error}
      → p.0 ≡ err e
      → stored r p st ≡ (refused r, record st { store = p.1 })
  unfolding stored
  stored_err (ok a, s) r st h = cc
  stored_err (err e, s) r st h = refl

  pub call_err :
      {A : Type 0} (m : Method A) (r : Refusal) (st : HandlerState) {e : Error}
      → (m st.store).0 ≡ err e
      → call r m st ≡ (refused r, record st { store = (m st.store).1 })
  unfolding call
  call_err m r st h = stored_err (m st.store) r st h

  -- What each step of a chain that ends with an answer has established, and the rest of the chain.
  module _ {B : Type 0} {b : B} {last : HandlerState} where
    pub after-refuse_if :
        (test : Bool) (r : Refusal) (st : HandlerState) (rest : Unit {0} → Act B)
        → after (refuse_if test r st) rest ≡ (done b, last)
        → (test ≡ false) × (rest tt st ≡ (done b, last))
    unfolding refuse_if
    after-refuse_if true r st rest h = cc
    after-refuse_if false r st rest h = (refl, h)

    pub after-effect :
        (f : HandlerState → HandlerState) (st : HandlerState) (rest : Unit {0} → Act B)
        → after (effect f st) rest ≡ (done b, last)
        → rest tt (f st) ≡ (done b, last)
    unfolding effect
    after-effect f st rest h = h

    pub after-look :
        {A : Type 0} (f : HandlerState → A) (st : HandlerState) (rest : A → Act B)
        → after (look f st) rest ≡ (done b, last)
        → rest (f st) st ≡ (done b, last)
    unfolding look
    after-look f st rest h = h

    pub after-some_or :
        {A : Type 0} (o : Option A) (r : Refusal) (st : HandlerState) (rest : A → Act B)
        → after (some_or r o st) rest ≡ (done b, last)
        → (a : A) × (o ≡ some a) × (rest a st ≡ (done b, last))
    unfolding some_or
    after-some_or (some a) r st rest h = (a, refl, h)
    after-some_or none r st rest h = cc

    after-or_refuse :
        {A : Type 0} (result : Result A) (r : Refusal) (st : HandlerState) (rest : A → Act B)
        → after (or_refuse r result st) rest ≡ (done b, last)
        → (a : A) × (result ≡ ok a) × (rest a st ≡ (done b, last))
    unfolding or_refuse
    after-or_refuse (ok a) r st rest h = (a, refl, h)
    after-or_refuse (err e) r st rest h = cc

    pub after-fetch :
        {A : Type 0} (f : BoltStore → Result A) (r : Refusal) (st : HandlerState) (rest : A → Act B)
        → after (fetch r f st) rest ≡ (done b, last)
        → (a : A) × (f st.store ≡ ok a) × (rest a st ≡ (done b, last))
    unfolding fetch
    after-fetch f r st rest h = after-or_refuse (f st.store) r st rest h

    after-stored :
        {A : Type 0} (p : Result A × BoltStore) (r : Refusal) (st : HandlerState) (rest : A → Act B)
        → after (stored r p st) rest ≡ (done b, last)
        → (a : A) × (p.0 ≡ ok a) × (rest a (record st { store = p.1 }) ≡ (done b, last))
    unfolding stored
    after-stored (ok a, s) r st rest h = (a, refl, h)
    after-stored (err e, s) r st rest h = cc

    pub after-call :
        {A : Type 0} (m : Method A) (r : Refusal) (st : HandlerState) (rest : A → Act B)
        → after (call r m st) rest ≡ (done b, last)
        → (a : A) × ((m st.store).0 ≡ ok a)
          × (rest a (record st { store = (m st.store).1 }) ≡ (done b, last))
    unfolding call
    after-call m r st rest h = after-stored (m st.store) r st rest h

    after-limited :
        (p : Bool × RateLimiter) (r : Refusal) (st : HandlerState) (rest : Unit {0} → Act B)
        → after (limited r p st) rest ≡ (done b, last)
        → (p.0 ≡ true) × (rest tt (record st { login_limiter = p.1 }) ≡ (done b, last))
    after-limited (true, rl) r st rest h = (refl, h)
    after-limited (false, rl) r st rest h = cc

    pub after-rate_limit :
        (now : Time) (ip : String) (r : Refusal) (st : HandlerState) (rest : Unit {0} → Act B)
        → after (rate_limit now ip r st) rest ≡ (done b, last)
        → ((allow now ip st.login_limiter).0 ≡ true)
          × (rest tt (record st { login_limiter = (allow now ip st.login_limiter).1 })
              ≡ (done b, last))
    unfolding rate_limit
    after-rate_limit now ip r st rest h = after-limited (allow now ip st.login_limiter) r st rest h
