-- ===== src/Store/Audit/Query.antt =====
-- The one-pass loop of QueryAuditLog computes a page of the matching entries.
use mathlib.Core.List.{reverse}
use simple_auth.Prelude.{
  ℕ, zero, suc, ◌+◌, ◌-◌, ◌<◌, String, ◌≡◌, refl, sym, ◌∙◌, ap, to_nat, Bool, true, false, not,
  ◌||◌, List, [], ◌∷◌, ◌++◌, length, length-append, ltb, leb, if◌then◌else◌, arith, Bool-cases, inl,
  inr,
}
use simple_auth.Bolt.{Bbolt, Bytes, json, garbage}
use simple_auth.Store.Types.{AuditEntry, AuditQuery}
use simple_auth.Store.State.{BoltStore}
use simple_auth.Store.Audit.{
  limit_of, is_before_range, is_after_range, is_other_event, is_other_actor, query_loop,
  query_audit_log,
}

module _ {A : Type 0} where
  abbrev pub take : ℕ → List A → List A
  take zero xs = []
  take (suc n) [] = []
  take (suc n) (x ∷ xs) = x ∷ take n xs

  abbrev pub drop : ℕ → List A → List A
  drop zero xs = xs
  drop (suc n) [] = []
  drop (suc n) (x ∷ xs) = drop n xs

-- The entries that decode, up to the first one before the range.
abbrev pub in_reach : AuditQuery → List (String × Bytes AuditEntry) → List AuditEntry
in_reach q [] = []
in_reach q ((k, garbage) ∷ l) = in_reach q l
in_reach q ((k, json e) ∷ l) =
    let rest = in_reach q l in if is_before_range q e then [] else e ∷ rest

abbrev pub matches : AuditQuery → AuditEntry → Bool
matches q e = not (is_after_range q e || (is_other_event q e || is_other_actor q e))

abbrev pub matching_of : AuditQuery → List AuditEntry → List AuditEntry
matching_of q [] = []
matching_of q (e ∷ l) = let rest = matching_of q l in if matches q e then e ∷ rest else rest

-- A page: past the offset, at most as many entries as the limit.
abbrev pub page : AuditQuery → List (String × Bytes AuditEntry) → List AuditEntry
page q l = take (limit_of q) (drop (to_nat q.offset) (matching_of q (in_reach q l)))

append_nil : (xs : List AuditEntry) → xs ++ [] ≡ xs
append_nil [] = refl
append_nil (x ∷ xs) = ap (◌∷◌ x) (append_nil xs)

append_one :
    (xs : List AuditEntry) (x : AuditEntry) (ys : List AuditEntry)
    → (xs ++ x ∷ []) ++ ys ≡ xs ++ x ∷ ys
append_one [] x ys = refl
append_one (z ∷ xs) x ys = ap (◌∷◌ z) (append_one xs x ys)

limit_pos : (q : AuditQuery) → 0 < limit_of q
limit_pos q = ground arith

drop-nil : (n : ℕ) → drop {A = AuditEntry} n [] ≡ []
drop-nil zero = refl
drop-nil (suc n) = refl

query_loop-skips :
    (q : AuditQuery) (skipped : ℕ) (entries : List AuditEntry) (k : String) (e : AuditEntry)
    (l : List (String × Bytes AuditEntry))
    → is_before_range q e ≡ false
    → matches q e ≡ false
    → query_loop q skipped entries ((k, json e) ∷ l) ≡ query_loop q skipped entries l
unfolding query_loop
query_loop-skips q skipped entries k e l before other = ground arith

query_loop-counts :
    (q : AuditQuery) (skipped : ℕ) (entries : List AuditEntry) (k : String) (e : AuditEntry)
    (l : List (String × Bytes AuditEntry))
    → is_before_range q e ≡ false
    → matches q e ≡ true
    → query_loop q skipped entries ((k, json e) ∷ l) ≡ (
        if ltb skipped (to_nat q.offset)
        then query_loop q (skipped + 1) entries l
        else if leb (limit_of q) (length (entries ++ e ∷ []))
        then entries ++ e ∷ []
        else query_loop q skipped (entries ++ e ∷ []) l)
unfolding query_loop
query_loop-counts q skipped entries k e l before fits = ground arith

abbrev found_in : AuditQuery → List (String × Bytes AuditEntry) → List AuditEntry
found_in q l = matching_of q (in_reach q l)

-- One entry, from what the loop does on the others.
query_loop-entry :
    (q : AuditQuery) (skipped : ℕ) (entries : List AuditEntry) (n m : ℕ) (k : String)
    (e : AuditEntry) (l : List (String × Bytes AuditEntry))
    → query_loop q skipped entries l ≡ entries ++ take (suc n) (drop m (found_in q l))
    → (if ltb skipped (to_nat q.offset)
        then query_loop q (skipped + 1) entries l
        else if leb (limit_of q) (length (entries ++ e ∷ []))
        then entries ++ e ∷ []
        else query_loop q skipped (entries ++ e ∷ []) l)
      ≡ entries ++ take (suc n) (drop m (e ∷ found_in q l))
    → query_loop q skipped entries ((k, json e) ∷ l)
      ≡ entries ++ take (suc n) (drop m (found_in q ((k, json e) ∷ l)))
query_loop-entry q skipped entries n m k e l others counts =
    elim (Bool-cases (is_before_range q e)) [
      | inl before ↦ unfold query_loop in rw (before, drop-nil m) (sym (append_nil entries))
      | inr reach ↦ elim (Bool-cases (matches q e)) [
        | inr other ↦
            query_loop-skips q skipped entries k e l reach other ∙ rw (reach, other) others
        | inl fits ↦ query_loop-counts q skipped entries k e l reach fits ∙ rw (reach, fits) counts
      ]
    ]

-- With room for `n + 1` more entries, and `m` still to pass over.
query_loop_lem :
    (q : AuditQuery) (skipped : ℕ) (entries : List AuditEntry) (n m : ℕ)
    (l : List (String × Bytes AuditEntry))
    → limit_of q ≡ length entries + suc n
    → to_nat q.offset - skipped ≡ m
    → query_loop q skipped entries l ≡ entries ++ take (suc n) (drop m (found_in q l))
unfolding query_loop
query_loop_lem q skipped entries n m [] room to_skip = rw (drop-nil m) (sym (append_nil entries))
query_loop_lem q skipped entries n m ((k, garbage) ∷ l) room to_skip =
    query_loop_lem q skipped entries n m l room to_skip
query_loop_lem q skipped entries n (suc m) ((k, json e) ∷ l) room to_skip =
    query_loop-entry q skipped entries n (suc m) k e l
      (query_loop_lem q skipped entries n (suc m) l room to_skip)
      (ground (arith, query_loop_lem q (skipped + 1) entries n m l room (omega arith)))
query_loop_lem q skipped entries zero zero ((k, json e) ∷ l) room to_skip =
    query_loop-entry q skipped entries zero zero k e l
      (query_loop_lem q skipped entries zero zero l room to_skip)
      (ground (arith, length-append entries (e ∷ [])))
query_loop_lem q skipped entries (suc n) zero ((k, json e) ∷ l) room to_skip =
    query_loop-entry q skipped entries (suc n) zero k e l
      (query_loop_lem q skipped entries (suc n) zero l room to_skip)
      (ground (
        arith,
        length-append entries (e ∷ []),
        query_loop_lem q skipped (entries ++ e ∷ []) n zero l
            (omega (arith, length-append entries (e ∷ []))) to_skip,
        append_one entries e (take (suc n) (found_in q l)),
      ))

-- QueryAuditLog returns a page of the entries, from the last key on, that match the query and stand
-- before the first one that is older than the range.
pub query_audit_log-eq-page :
    ⦃bolt : Bbolt⦄ (q : AuditQuery) (s : BoltStore)
    → query_audit_log q s ≡ page q (reverse (bolt.entries s.audit_log))
unfolding query_audit_log
query_audit_log-eq-page ⦃bolt⦄ q s =
    let pos = limit_pos q in
    let e : suc (limit_of q - 1) ≡ limit_of q = omega arith in
    query_loop_lem q 0 [] (limit_of q - 1) (to_nat q.offset) (reverse (bolt.entries s.audit_log))
      (omega arith) (omega arith)
    ∙ ap (λ n. take n (drop (to_nat q.offset) (found_in q (reverse (bolt.entries s.audit_log))))) e
