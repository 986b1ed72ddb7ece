-- ===== src/Sysbench/Oltp/Rounds.antt =====
-- The rounds of the loop over `num_times` in `oltp_execute_request` of sb_oltp.c on a database that
-- meets deadlocks and no other errors.
use htmsql.Prelude.{
  ℕ, zero, suc, ◌+◌, ◌≤◌, ◌<◌, ◌≡◌, ◌≢◌, refl, sym, Bool, true, false, not, ◌&&◌, ◌||◌,
  if◌then◌else◌, ltb, ◌==◌, inl, inr, Bool-cases, Option, none, some, List, [], ◌∷◌, arith, dec_lt,
}
use htmsql.Sysbench.Oltp.{
  OltpMode, QueryType, point, update_index, update_non_index, delete, insert, range, range_sum,
  range_order, range_distinct, Query,
}
use htmsql.Sysbench.Oltp.Execute.{
  Executed, result_set, null_deadlock, null_error, Stored, error_none, error_deadlock, error_failed,
  Database, Session, Local, get_sql_statement, is_select, is_reconnect, Progress, passed,
  deadlocked, validated, next_round, at_deadlock, fetched, executed, query_once, onward,
  query_times, again,
}

unfoldable pub is_read : QueryType → Bool
is_read (point i) = true
is_read (range a b) = true
is_read (range_sum a b) = true
is_read (range_order a b) = true
is_read (range_distinct a b) = true
is_read _ = false

unfoldable pub is_write : QueryType → Bool
is_write (update_index i) = true
is_write (update_non_index i) = true
is_write (delete i) = true
is_write (insert i) = true
is_write _ = false

-- The rounds of the queries of a kind
unfoldable pub tally : (QueryType → Bool) → List Query → ℕ
tally kind [] = 0
tally kind (q ∷ qs) = (if kind q.type then q.num_times else 0) + tally kind qs

-- From round `calm` on there is no deadlock, and there is never another error.
pub record IsCalm (db : Database) (calm : ℕ) : Type 0 where
  pub reconnects : (n : ℕ) → db.reconnects n ≡ true
  pub binds : (n : ℕ) → db.binds n ≡ true
  pub executes : (n : ℕ) → db.db_execute n ≢ null_error
  pub stores : (n : ℕ) → db.db_store_results n ≢ error_failed
  pub executed_then : (n : ℕ) → calm ≤ n → db.db_execute n ≡ result_set
  pub stored_then : (n : ℕ) → calm ≤ n → db.db_store_results n ≡ error_none

-- The mode has a statement for each query.
abbrev pub IsKnown : OltpMode → Query → Type 0
IsKnown mode q = (is_reconnect q.type || get_sql_statement mode q.type true) ≡ true

-- What the loops leave alone
pub record Kept (s s' : Session) : Type 0 where
  pub reads : s'.read_ops ≡ s.read_ops
  pub writes : s'.write_ops ≡ s.write_ops
  pub others : s'.other_ops ≡ s.other_ops
  pub transactions : s'.transactions ≡ s.transactions
  pub deadlocks : s'.deadlocks ≡ s.deadlocks
  pub live : s'.live ≡ s.live
  pub error : s'.error ≡ s.error

-- `P` holds where the loop goes on, `D` where it has met a deadlock; it does not fail.
pub data Goes (P D : Local → Session → Type 0) : Progress → Type 0 where
  goes : {l : Local} {s : Session} → P l s → Goes P D (passed l s)
  stops : {l : Local} {s : Session} → D l s → Goes P D (deadlocked l s)

pub record Deadlock (calm : ℕ) (l : Local) (s : Session) (l' : Local) (s' : Session) : Type 0 where
  pub kept : Kept s s'
  pub once : l'.local_deadlocks ≡ l.local_deadlocks + 1
  pub reads : l.local_read_ops ≤ l'.local_read_ops
  pub writes : l.local_write_ops ≤ l'.local_write_ops
  pub others : l.local_other_ops ≤ l'.local_other_ops
  pub later : s.rounds < s'.rounds
  pub early : s'.rounds ≤ calm

pub Kept-refl : (s : Session) → Kept s s
Kept-refl s = record {
  reads = refl;
  writes = refl;
  others = refl;
  transactions = refl;
  deadlocks = refl;
  live = refl;
  error = refl;
}

pub Kept-trans : {s t u : Session} → Kept s t → Kept t u → Kept s u
Kept-trans k h = ground arith

pub next_round-Kept : (s : Session) → Kept s (next_round s)
next_round-Kept s = ground arith

module _ {db : Database} {calm : ℕ} (c : IsCalm db calm) (mode : OltpMode) (validate : Bool) where
  pub validated-Kept :
      (o : Option ℕ) (s : Session)
      → Kept s (validated db mode validate o s)
        × ((validated db mode validate o s).rounds ≡ s.rounds)
  unfolding validated
  validated-Kept none s = (Kept-refl s, refl)
  validated-Kept (some n) s =
      elim (Bool-cases (validate && ltb 0 n && not (db.db_num_rows s.rounds == n))) [
        | inl e ↦ rw e (ground arith, refl)
        | inr e ↦ rw e (Kept-refl s, refl)
      ]

  abbrev pub OnceGoes : Local → Session → Progress → Type 0
  OnceGoes l s p =
      Goes (λ l' s'. (l' ≡ l) × Kept s s' × (s.rounds ≤ s'.rounds)) (Deadlock calm l s) p

  pub at_deadlock-OnceGoes :
      (l : Local) (s : Session) → s.rounds < calm → OnceGoes l s (at_deadlock l s)
  unfolding at_deadlock
  at_deadlock-OnceGoes l s h = stops (record {
    kept = next_round-Kept s;
    once = refl;
    reads = omega arith;
    writes = omega arith;
    others = omega arith;
    later = omega arith;
    early = omega arith;
  })

  pub fetched-OnceGoes :
      (q : Query) (l : Local) (s : Session) (r : Stored)
      → r ≡ db.db_store_results s.rounds
      → OnceGoes l s (fetched db mode validate q l s r)
  unfolding fetched
  fetched-OnceGoes q l s error_none e =
      let (k, same) = validated-Kept q.nrows s in
      goes (
        refl,
        Kept-trans k (next_round-Kept (validated db mode validate q.nrows s)),
        omega (arith, same),
      )
  fetched-OnceGoes q l s error_deadlock e = elim (dec_lt s.rounds calm) [
    | yes h ↦ at_deadlock-OnceGoes l s h
    | no h ↦ absurd (ground (arith, e, c.stored_then s.rounds))
  ]
  fetched-OnceGoes q l s error_failed e = absurd (c.stores s.rounds (sym e))

  pub executed-OnceGoes :
      (q : Query) (l : Local) (s : Session) (r : Executed)
      → r ≡ db.db_execute s.rounds
      → OnceGoes l s (executed db mode validate q l s r)
  unfolding executed
  executed-OnceGoes q l s result_set e = elim (Bool-cases (is_select q.type)) [
    | inl sel ↦ rw sel (fetched-OnceGoes q l s (db.db_store_results s.rounds) refl)
    | inr other ↦ rw other (goes (refl, next_round-Kept s, omega arith))
  ]
  executed-OnceGoes q l s null_deadlock e = elim (dec_lt s.rounds calm) [
    | yes h ↦ at_deadlock-OnceGoes l s h
    | no h ↦ absurd (ground (arith, e, c.executed_then s.rounds))
  ]
  executed-OnceGoes q l s null_error e = absurd (c.executes s.rounds (sym e))

  pub query_once-OnceGoes :
      (q : Query) (l : Local) (s : Session)
      → IsKnown mode q
      → OnceGoes l s (query_once db mode validate q l s)
  unfolding query_once
  query_once-OnceGoes q l s known = elim (Bool-cases (is_reconnect q.type)) [
    | inl again ↦ rw (again, c.reconnects s.rounds) (goes (refl, next_round-Kept s, omega arith))
    | inr other ↦
        let has : get_sql_statement mode q.type (db.binds s.rounds) ≡ true =
          rw (c.binds s.rounds) (ground (arith, known, other)) in
        rw (other, has) (executed-OnceGoes q l s (db.db_execute s.rounds) refl)
  ]

  pub OnceGoes-from :
      {l : Local} {s t : Session} {p : Progress}
      → Kept s t
      → s.rounds ≤ t.rounds
      → OnceGoes l t p
      → OnceGoes l s p
  OnceGoes-from k le (goes (same, kept, le')) =
      goes (same, Kept-trans k kept, omega (arith, le, le'))
  OnceGoes-from k le (stops d) = stops (record {
    kept = Kept-trans k d.kept;
    once = d.once;
    reads = d.reads;
    writes = d.writes;
    others = d.others;
    later = omega (arith, le, d.later);
    early = d.early;
  })

  pub OnceGoes-onward :
      {l : Local} {s : Session} {p : Progress} (k : Local → Session → Progress)
      → OnceGoes l s p
      → ((s' : Session) → OnceGoes l s' (k l s'))
      → OnceGoes l s (onward p k)
  OnceGoes-onward {l} k (goes {s = t} (same, kept, le)) next =
      rw same (OnceGoes-from {l = l} {t = t} kept le (next t))
  OnceGoes-onward k (stops d) next = stops d

  pub query_times-OnceGoes :
      (n : ℕ) (q : Query) (l : Local) (s : Session)
      → IsKnown mode q
      → OnceGoes l s (query_times db mode validate n q l s)
  unfolding query_times
  query_times-OnceGoes zero q l s known = goes (refl, Kept-refl s, omega arith)
  query_times-OnceGoes (suc n) q l s known =
      OnceGoes-onward (query_times db mode validate n q) (query_once-OnceGoes q l s known)
        λ s'. query_times-OnceGoes n q l s' known
