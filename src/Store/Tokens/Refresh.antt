-- ===== src/Store/Tokens/Refresh.antt =====
-- Refresh tokens are single use under every interleaving, and revocation takes a whole family.
use simple_auth.Prelude.{
  ℕ, ◌+◌, ◌≤◌, String, ◌≡◌, refl, ◌∙◌, Bool, true, false, Option, none, some, List, [], ◌∷◌, ltb,
  if◌then◌else◌, ◌==◌, arith, eq_iff, eq_refl, Option-cases, Bool-cases, ◌⊎◌, inl, inr,
}
use simple_auth.Outcome.{Result-cases, ok, refresh_token_not_found}
use simple_auth.Bolt.{Bbolt, Bytes, json, garbage, read, put_raw, prune}
use simple_auth.Bolt.Laws.{get-prune, get-put_raw}
use simple_auth.Store.Types.{Time, RefreshToken}
use simple_auth.Store.State.{BoltStore}
use simple_auth.Store.Tokens.{
  Consumed, consumed, reused, save_refresh_token, mark_refresh_token_used, consume_refresh_token,
  revoke_token_family, revoke_user_tokens, clean_expired_refresh_tokens,
}

-- The calls on the bucket of refresh tokens: each is one transaction, so concurrent requests run them
-- in some order.
pub data Call : Type 0 where
  save : RefreshToken → Call
  mark_used : String → Call
  consume : String → Call
  revoke_family : String → Call
  revoke_user : String → Call
  clean : Time → Call

-- Does the call store a new record under the token's id?
abbrev pub stores : String → Call → Bool
stores t (save rt) = rt.token_id == t
stores t _ = false

abbrev pub NeverStores : String → List Call → Type 0
NeverStores t [] = Unit
NeverStores t (c ∷ cs) = (stores t c ≡ false) × NeverStores t cs

abbrev is_consumed : Consumed → Bool
is_consumed (consumed rt) = true
is_consumed _ = false

-- Is the call a consumption of the token that succeeds, and counted?
abbrev counted : String → Call → Consumed → ℕ
counted t (consume u) c = if u == t then (if is_consumed c then 1 else 0) else 0
counted t _ c = 0

module _ ⦃bolt : Bbolt⦄ where
  unfoldable pub run_call : Call → BoltStore → BoltStore
  run_call (save rt) s = (save_refresh_token rt s).1
  run_call (mark_used t) s = (mark_refresh_token_used t s).1
  run_call (consume t) s = (consume_refresh_token t s).1
  run_call (revoke_family f) s = (revoke_token_family f s).1
  run_call (revoke_user u) s = (revoke_user_tokens u s).1
  run_call (clean now) s = (clean_expired_refresh_tokens now s).1

  -- How often a run hands out the token.
  unfoldable pub handed_out : String → List Call → BoltStore → ℕ
  unfolding run_call
  handed_out t [] s = 0
  handed_out t (c ∷ cs) s =
      counted t c (consume_refresh_token t s).0 + handed_out t cs (run_call c s)

  -- No Get of the token finds an unused record.
  abbrev Spent : Option (Bytes RefreshToken) → Type 0
  Spent none = Unit
  Spent (some garbage) = Unit
  Spent (some (json rt)) = rt.used ≡ true

  abbrev IsSpent : String → BoltStore → Type 0
  IsSpent t s = Spent (bolt.get s.refresh_tokens t)

  -- A consumption that succeeds: the token was there and unused, and is written back as used.
  record HandedOut (t : String) (s : BoltStore) : Type 0 where
    token : RefreshToken
    tokens : bolt.Bucket (Bytes RefreshToken)
    held : bolt.get s.refresh_tokens t ≡ some (json token)
    unused : token.used ≡ false
    written : put_raw s.refresh_tokens t (json (record token { used = true })) ≡ ok tokens
    outcome :
        consume_refresh_token t s
        ≡ (consumed (record token { used = true }), record s { refresh_tokens = tokens })

  -- Any other leaves the store alone.
  consume_cases :
      (t : String) (s : BoltStore)
      → HandedOut t s
        ⊎ (((consume_refresh_token t s).1 ≡ s)
            × (is_consumed (consume_refresh_token t s).0 ≡ false))
  unfolding consume_refresh_token
  consume_cases t s = elim (Option-cases (bolt.get s.refresh_tokens t)) [
    | inl missing ↦ inr (rw missing, rw missing)
    | inr (garbage, found) ↦ inr (rw found, rw found)
    | inr (json rt, found) ↦ elim (Bool-cases rt.used) [
      | inl old ↦ inr (rw (found, old), rw (found, old))
      | inr new ↦
          elim (Result-cases (put_raw s.refresh_tokens t (json (record rt { used = true })))) [
            | inr (e, w) ↦ inr (rw (found, new, w), rw (found, new, w))
            | inl (tokens, w) ↦ inl (record {
              token = rt;
              tokens = tokens;
              held = found;
              unused = new;
              written = w;
              outcome = rw (found, new, w);
            })
          ]
    ]
  ]

  reused_of_used :
      (t : String) (s : BoltStore) (rt : RefreshToken)
      → bolt.get s.refresh_tokens t ≡ some (json rt)
      → rt.used ≡ true
      → consume_refresh_token t s ≡ (reused rt, s)
  unfolding consume_refresh_token
  reused_of_used t s rt found used = rw (found, used)

  pub consume_refresh_token-reused :
      (t : String) (s : BoltStore) {rt : RefreshToken}
      → (consume_refresh_token t s).0 ≡ reused rt
      → (consume_refresh_token t s).1 ≡ s
  consume_refresh_token-reused t s h = elim (consume_cases t s) [
    | inr (same, not_handed) ↦ same
    | inl r ↦ absurd (ground (arith, r.outcome))
  ]

  -- A second consumption of a token that was handed out reports reuse and changes nothing.
  pub consume_refresh_token-twice :
      (t : String) (s : BoltStore) (rt : RefreshToken)
      → (consume_refresh_token t s).0 ≡ consumed rt
      → consume_refresh_token t (consume_refresh_token t s).1
        ≡ (reused rt, (consume_refresh_token t s).1)
  consume_refresh_token-twice t s rt h = elim (consume_cases t s) [
    | inr (same, not_handed) ↦ absurd (ground arith)
    | inl r ↦
        let e : record r.token { used = true } ≡ rt = ground (arith, r.outcome) in
        rw (r.outcome, ← e)
          (reused_of_used t (record s { refresh_tokens = r.tokens })
            (record r.token { used = true })
            (get-put_raw s.refresh_tokens t (json (record r.token { used = true })) t r.written
              ∙ ground (arith, eq_refl t))
            refl)
  ]

  consume-spends :
      (t : String) (s : BoltStore)
      → is_consumed (consume_refresh_token t s).0 ≡ true
      → IsSpent t (consume_refresh_token t s).1
  consume-spends t s h = elim (consume_cases t s) [
    | inr (same, not_handed) ↦ absurd (ground arith)
    | inl r ↦
        rw
          (
            r.outcome,
            get-put_raw s.refresh_tokens t (json (record r.token { used = true })) t r.written,
            eq_refl t,
          )
          refl
  ]

  not_consumed_of_spent :
      (t : String) (s : BoltStore) → IsSpent t s → is_consumed (consume_refresh_token t s).0 ≡ false
  not_consumed_of_spent t s h = elim (consume_cases t s) [
    | inr (same, not_handed) ↦ not_handed
    | inl r ↦ absurd (ground (arith, r.held, r.unused))
  ]

  Spent-prune :
      (t : String) (p : RefreshToken → Bool) (b : bolt.Bucket (Bytes RefreshToken))
      → Spent (bolt.get b t)
      → Spent (bolt.get (prune p b) t)
  Spent-prune t p b h = rw (get-prune p b t) (ground (arith, h))

  Spent-put :
      (t u : String) (rt : RefreshToken) (b : bolt.Bucket (Bytes RefreshToken))
      {b' : bolt.Bucket (Bytes RefreshToken)}
      → put_raw b u (json rt) ≡ ok b'
      → (u ≡ t → rt.used ≡ true)
      → Spent (bolt.get b t)
      → Spent (bolt.get b' t)
  Spent-put t u rt b w used h = rw (get-put_raw b u (json rt) t w) (ground (arith, eq_iff u t))

  mark_used-IsSpent :
      (t u : String) (s : BoltStore) → IsSpent t s → IsSpent t (mark_refresh_token_used u s).1
  unfolding mark_refresh_token_used
  mark_used-IsSpent t u s h =
      elim (Result-cases (read refresh_token_not_found s.refresh_tokens u)) [
        | inr (e, r) ↦ rw r h
        | inl (rt, r) ↦
            elim (Result-cases (put_raw s.refresh_tokens u (json (record rt { used = true })))) [
              | inr (e, w) ↦ rw (r, w) h
              | inl (b, w) ↦
                  rw (r, w)
                    (Spent-put t u (record rt { used = true }) s.refresh_tokens w (λ _. refl) h)
            ]
      ]

  consume-IsSpent :
      (t u : String) (s : BoltStore) → IsSpent t s → IsSpent t (consume_refresh_token u s).1
  consume-IsSpent t u s h = elim (consume_cases u s) [
    | inr (same, _) ↦ rw same h
    | inl r ↦
        rw r.outcome
          (Spent-put t u (record r.token { used = true }) s.refresh_tokens r.written (λ _. refl) h)
  ]

  save-IsSpent :
      (t : String) (rt : RefreshToken) (s : BoltStore)
      → (rt.token_id == t) ≡ false
      → IsSpent t s
      → IsSpent t (save_refresh_token rt s).1
  unfolding save_refresh_token
  save-IsSpent t rt s other h =
      elim (Result-cases (put_raw s.refresh_tokens rt.token_id (json rt))) [
        | inr (e, w) ↦ rw w h
        | inl (b, w) ↦ rw w (
            Spent-put t rt.token_id rt s.refresh_tokens w
              (λ e. ground (arith, eq_iff rt.token_id t)) h)
      ]

  run_call-IsSpent :
      (t : String) (c : Call) (s : BoltStore)
      → stores t c ≡ false
      → IsSpent t s
      → IsSpent t (run_call c s)
  unfolding run_call revoke_token_family revoke_user_tokens clean_expired_refresh_tokens
  run_call-IsSpent t (save rt) s other h = save-IsSpent t rt s other h
  run_call-IsSpent t (mark_used u) s other h = mark_used-IsSpent t u s h
  run_call-IsSpent t (consume u) s other h = consume-IsSpent t u s h
  run_call-IsSpent t (revoke_family f) s other h =
      Spent-prune t (λ rt. rt.family_id == f) s.refresh_tokens h
  run_call-IsSpent t (revoke_user u) s other h =
      Spent-prune t (λ rt. rt.user_guid == u) s.refresh_tokens h
  run_call-IsSpent t (clean now) s other h =
      Spent-prune t (λ rt. ltb rt.expires_at now) s.refresh_tokens h

  counted-zero :
      (t : String) (c : Call) (s : BoltStore)
      → is_consumed (consume_refresh_token t s).0 ≡ false
      → counted t c (consume_refresh_token t s).0 ≡ 0
  counted-zero t (consume u) s h = ground arith
  counted-zero t _ s h = refl

  handed_out-spent :
      (t : String) (cs : List Call) (s : BoltStore)
      → NeverStores t cs
      → IsSpent t s
      → handed_out t cs s ≡ 0
  unfolding handed_out
  handed_out-spent t [] s never h = refl
  handed_out-spent t (c ∷ cs) s never h = omega (
    arith,
    counted-zero t c s (not_consumed_of_spent t s h),
    handed_out-spent t cs (run_call c s) never.1 (run_call-IsSpent t c s never.0 h),
  )

  counted-le-one : (t : String) (c : Call) (o : Consumed) → counted t c o ≤ 1
  counted-le-one t (consume u) o = ground arith
  counted-le-one t _ o = omega arith

  -- If a call is counted, the token is Spent after it.
  counted-spends :
      (t : String) (c : Call) (s : BoltStore)
      → (counted t c (consume_refresh_token t s).0 ≡ 0) ⊎ IsSpent t (run_call c s)
  unfolding run_call
  counted-spends t (consume u) s = elim (Bool-cases (u == t)) [
    | inr other ↦ inl (rw other)
    | inl here ↦ elim (Bool-cases (is_consumed (consume_refresh_token t s).0)) [
      | inr not_handed ↦ inl (rw (here, not_handed))
      | inl handed ↦ inr (rw ((eq_iff u t).0 here) (consume-spends t s handed))
    ]
  ]
  counted-spends t _ s = inl refl

  -- In every run of the store's calls a refresh token is handed out at most once, unless a record is
  -- stored again under its id.
  pub handed_out-le-one :
      (t : String) (cs : List Call) (s : BoltStore) → NeverStores t cs → handed_out t cs s ≤ 1
  unfolding handed_out
  handed_out-le-one t [] s never = omega arith
  handed_out-le-one t (c ∷ cs) s never = elim (counted-spends t c s) [
    | inl zero_now ↦ omega (arith, handed_out-le-one t cs (run_call c s) never.1)
    | inr now_spent ↦ omega (
      arith,
      counted-le-one t c (consume_refresh_token t s).0,
      handed_out-spent t cs (run_call c s) never.1 now_spent,
    )
  ]
