-- ===== src/Handler/Limiter/Cleanup.antt =====
-- internal/handler/middleware.go: `cleanup` changes no later answer of the limiter.
use simple_auth.Prelude.{
  suc, ◌≤◌, String, ◌≡◌, refl, ap, subst, ◌∙◌, ◌⊎◌, inl, inr, Bool, true, false, Option, none, some,
  List, [], ◌∷◌, arith, lookup, lookup-without, keys, elem, IsDistinct, ltb, Bool-cases, ◌==◌,
  eq_iff,
}
use simple_auth.Store.Types.{Time}
use simple_auth.Handler.Limiter.{
  IpCounter, RateLimiter, add_duration, within, allow, allow_with, put_counter, drop_expired,
  cleanup,
}
use simple_auth.Handler.Limiter.Window.{let_through, is_fresh}

-- Two counters that no answer from `now` on tells apart.
abbrev Alike : Time → Option IpCounter → Option IpCounter → Type 0
Alike now a b = (a ≡ b) ⊎ ((a ≡ none) × (is_fresh now b ≡ true))

record Similar (now : Time) (a b : RateLimiter) : Type 0 where
  same_disabled : a.disabled ≡ b.disabled
  same_limit : a.limit ≡ b.limit
  same_window : a.window ≡ b.window
  counters_alike : (ip : String) → Alike now (lookup ip a.counters) (lookup ip b.counters)

-- No request comes before the instant.
abbrev pub AllAfter : Time → List (Time × String) → Type 0
AllAfter now [] = Unit
AllAfter now ((t, ip) ∷ l) = (now ≤ t) × AllAfter now l

absent_after :
    (now : Time) (ip : String) (l : List (String × IpCounter))
    → elem ip (keys l) ≡ false
    → lookup ip (drop_expired now l) ≡ none
unfolding drop_expired
absent_after now ip [] h = refl
absent_after now ip ((j, c) ∷ l) h = ground (arith, absent_after now ip l)

lookup-drop_expired :
    (now : Time) (ip : String) (l : List (String × IpCounter))
    → IsDistinct (keys l)
    → Alike now (lookup ip (drop_expired now l)) (lookup ip l)
unfolding drop_expired
lookup-drop_expired now ip [] d = inl refl
lookup-drop_expired now ip ((j, c) ∷ l) d = elim (Bool-cases (j == ip)) [
  | inl here ↦ elim (Bool-cases (ltb c.reset_at now)) [
    | inl ended ↦
        rw (ended, here) (inr (absent_after now ip l (rw ((eq_iff j ip).0 here) at d.0), ended))
    | inr live ↦ rw (live, here) (inl refl)
  ]
  | inr other ↦ elim (Bool-cases (ltb c.reset_at now)) [
    | inl ended ↦ rw (ended, other) (lookup-drop_expired now ip l d.1)
    | inr live ↦ rw (live, other) (lookup-drop_expired now ip l d.1)
  ]
]

put_counter-Similar :
    (now : Time) (ip : String) (c : IpCounter) (a b : RateLimiter)
    → Similar now a b
    → Similar now (put_counter ip c a) (put_counter ip c b)
put_counter-Similar now ip c a b sim = record {
  same_disabled = sim.same_disabled;
  same_limit = sim.same_limit;
  same_window = sim.same_window;
  counters_alike = λ j. elim (Bool-cases (ip == j)) [
    | inl here ↦ rw here (inl refl)
    | inr other ↦
        rw (other, lookup-without ip j a.counters, lookup-without ip j b.counters, other)
          (sim.counters_alike j)
  ];
}

-- The two branches of `allow`.
allow-off :
    (now : Time) (ip : String) (rl : RateLimiter)
    → rl.disabled ≡ true
    → allow now ip rl ≡ (true, rl)
unfolding allow
allow-off now ip rl off = simp off refl

allow-on :
    (now : Time) (ip : String) (rl : RateLimiter)
    → rl.disabled ≡ false
    → allow now ip rl ≡ allow_with now ip (lookup ip rl.counters) rl
unfolding allow
allow-on now ip rl on = simp on refl

module _ (now later : Time) (ip : String) (a b : RateLimiter) (sim : Similar now a b) where
  abbrev AgreeOn : Bool × RateLimiter → Bool × RateLimiter → Type 0
  AgreeOn x y = (x.0 ≡ y.0) × Similar now x.1 y.1

  fresh-AgreeOn : AgreeOn (allow_with later ip none a) (allow_with later ip none b)
  fresh-AgreeOn = (
    refl,
    subst
        (λ w.
          Similar now (allow_with later ip none a).1
            (put_counter ip (record { count = 1; reset_at = add_duration later w }) b))
        sim.same_window
        (put_counter-Similar now ip (record { count = 1; reset_at = add_duration later a.window }) a
          b sim),
  )

  same-AgreeOn :
      (o : Option IpCounter) → AgreeOn (allow_with later ip o a) (allow_with later ip o b)
  same-AgreeOn none = fresh-AgreeOn
  same-AgreeOn (some c) = elim (Bool-cases (ltb c.reset_at later)) [
    | inl ended ↦ rw ended fresh-AgreeOn
    | inr live ↦ rw live (
      ap (within (suc c.count)) sim.same_limit,
      put_counter-Similar now ip (record c { count = suc c.count }) a b sim,
    )
  ]

  absent-AgreeOn :
      (o : Option IpCounter)
      → now ≤ later
      → is_fresh now o ≡ true
      → AgreeOn (allow_with later ip none a) (allow_with later ip o b)
  absent-AgreeOn none le fresh = fresh-AgreeOn
  absent-AgreeOn (some c) le fresh =
      let ended : ltb c.reset_at later ≡ true = ground arith in rw ended fresh-AgreeOn

  allow-Similar : now ≤ later → AgreeOn (allow later ip a) (allow later ip b)
  allow-Similar le = elim (Bool-cases b.disabled) [
    | inl off ↦
        rw (allow-off later ip a (sim.same_disabled ∙ off), allow-off later ip b off) (refl, sim)
    | inr on ↦
        rw (allow-on later ip a (sim.same_disabled ∙ on), allow-on later ip b on)
          (elim (sim.counters_alike ip) [
            | inl same ↦ rw same (same-AgreeOn (lookup ip b.counters))
            | inr (absent, fresh) ↦ rw absent (absent-AgreeOn (lookup ip b.counters) le fresh)
          ])
  ]

let_through-Similar :
    (now : Time) (ip : String) (l : List (Time × String)) (a b : RateLimiter)
    → AllAfter now l
    → Similar now a b
    → let_through ip l a ≡ let_through ip l b
unfolding let_through
let_through-Similar now ip [] a b after sim = refl
let_through-Similar now ip ((later, other) ∷ l) a b after sim =
    let (same, sim') = allow-Similar now later other a b sim after.0 in
    rw
      (
        same,
        let_through-Similar now ip l (allow later other a).1 (allow later other b).1 after.1 sim',
      )
      refl

-- Where every address has one counter, a tick of `cleanup` changes no later answer: of the requests
-- that come at that instant or after it, as many of each address are let through as without it.
pub let_through-cleanup :
    (now : Time) (ip : String) (l : List (Time × String)) (rl : RateLimiter)
    → IsDistinct (keys rl.counters)
    → AllAfter now l
    → let_through ip l (cleanup now rl) ≡ let_through ip l rl
unfolding cleanup
let_through-cleanup now ip l rl d after =
    let_through-Similar now ip l (cleanup now rl) rl after (record {
      same_disabled = refl;
      same_limit = refl;
      same_window = refl;
      counters_alike = λ j. lookup-drop_expired now j rl.counters d;
    })
