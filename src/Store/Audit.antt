-- ===== src/Store/Audit.antt =====
-- internal/store/bolt.go, "Audit Log": writing entries, and the query that walks the log backwards.
-- PruneAuditLog is left out: it deletes keys while its cursor runs, which bbolt does not define.
pub mod Query
use mathlib.Core.List.{reverse}
use simple_auth.Prelude.{
  ℕ, zero, suc, ◌+◌, String, ◌^^◌, ℤ, is_positive, to_nat, Bool, true, false, not, ◌&&◌, List, [],
  ◌∷◌, ◌++◌, length, ltb, leb, eqb, if◌then◌else◌, ◌==◌,
}
use simple_auth.Outcome.{Result, ok, ◌>>=◌}
use simple_auth.Bolt.{Bbolt, Bytes, json, garbage, put_raw, put}
use simple_auth.Store.Types.{Time, AuditEntry, AuditQuery}
use simple_auth.Store.State.{BoltStore, Method, update}

abbrev pub entry_with_defaults : String → Time → AuditEntry → AuditEntry
entry_with_defaults fresh now e = record e {
  id = if e.id == "" then fresh else e.id;
  timestamp = if eqb e.timestamp 0 then now else e.timestamp;
}

-- A limit of 0 or less stands for 100.
abbrev pub limit_of : AuditQuery → ℕ
limit_of q = if is_positive q.limit then to_nat q.limit else 100

-- The tests of the loop, in its order: `break` before the range, and the three `continue`s.
abbrev pub is_before_range : AuditQuery → AuditEntry → Bool
is_before_range q e = not (eqb q.from 0) && ltb e.timestamp q.from

abbrev pub is_after_range : AuditQuery → AuditEntry → Bool
is_after_range q e = not (eqb q.to 0) && ltb q.to e.timestamp

abbrev pub is_other_event : AuditQuery → AuditEntry → Bool
is_other_event q e = not (q.event == "") && not (e.event == q.event)

abbrev pub is_other_actor : AuditQuery → AuditEntry → Bool
is_other_actor q e = not (q.user_id == "") && not (e.actor == q.user_id)

-- The loop: `skipped` entries passed over for the offset, `entries` collected.
unfoldable pub query_loop :
    AuditQuery → ℕ → List AuditEntry → List (String × Bytes AuditEntry) → List AuditEntry
query_loop q skipped entries [] = entries
query_loop q skipped entries ((k, garbage) ∷ l) = query_loop q skipped entries l
query_loop q skipped entries ((k, json e) ∷ l) =
    let continued = query_loop q skipped entries l in
    let skipping = query_loop q (skipped + 1) entries l in
    let collecting = query_loop q skipped (entries ++ e ∷ []) l in
    if is_before_range q e
    then entries
    else if is_after_range q e
    then continued
    else if is_other_event q e
    then continued
    else if is_other_actor q e
    then continued
    else if ltb skipped (to_nat q.offset)
    then skipping
    else if leb (limit_of q) (length (entries ++ e ∷ []))
    then entries ++ e ∷ []
    else collecting

module _ ⦃bolt : Bbolt⦄ where
  -- `format` is `Timestamp.Format(time.RFC3339Nano)`.
  unfoldable pub write_audit_log : (Time → String) → String → Time → AuditEntry → Method (Unit {0})
  unfolding put_raw
  write_audit_log format fresh now entry =
      let e = entry_with_defaults fresh now entry in
      update λ s. do
        audit_log ← put s.audit_log (format e.timestamp ^^ (":" ^^ e.id)) e
        ok (tt, record s { audit_log = audit_log })

  unfoldable pub query_audit_log : AuditQuery → BoltStore → List AuditEntry
  unfolding query_loop
  query_audit_log q s = query_loop q 0 [] (reverse (bolt.entries s.audit_log))
