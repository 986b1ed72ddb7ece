-- ===== src/Sysbench/Oltp/Counts.antt =====
-- What the execution of a request in sb_oltp.c comes to on a database that meets deadlocks and no
-- other errors.
use htmsql.Prelude.{
  ℕ, zero, suc, ◌+◌, ◌-◌, ◌≤◌, ◌<◌, ◌≡◌, refl, Bool, ◌⊎◌, inl, inr, Option, some, List, length, All,
  arith,
}
use htmsql.Sysbench.Oltp.{OltpMode, Query}
use htmsql.Sysbench.Oltp.Execute.{
  Database, Session, Local, Progress, passed, again, retry_loop, local_start, committed, returned,
  answered, oltp_execute_request,
}
use htmsql.Sysbench.Oltp.Rounds.{
  is_read, is_write, tally, IsCalm, IsKnown, Kept, Kept-trans, goes, stops,
}
use htmsql.Sysbench.Oltp.Loop.{LoopGoes, queries_loop-LoopGoes}

-- Behind the last attempt
record Attempted (qs : List Query) (l : Local) (s : Session) (l' : Local) (s' : Session)
    : Type 0 where
  kept : Kept s s'
  deadlocks : l.local_deadlocks ≤ l'.local_deadlocks
  reads : l.local_read_ops + tally is_read qs ≤ l'.local_read_ops
  writes : l.local_write_ops + tally is_write qs ≤ l'.local_write_ops
  exact :
      (l.local_deadlocks < l'.local_deadlocks)
      ⊎ ((l'.local_read_ops ≡ l.local_read_ops + tally is_read qs)
          × (l'.local_write_ops ≡ l.local_write_ops + tally is_write qs))

module _ {db : Database} {calm : ℕ} (c : IsCalm db calm) (mode : OltpMode) (validate : Bool) where
  Ends-attempts : List Query → Local → Session → Option Progress → Type 0
  Ends-attempts qs l s o =
      (l' : Local) × (s' : Session) × (o ≡ some (passed l' s')) × Attempted qs l s l' s'

  again-Attempted :
      (qs : List Query) {l : Local} {s : Session} {p : Progress}
      (k : Local → Session → Option Progress)
      → LoopGoes c mode validate qs l s p
      → ((l' : Local) (s' : Session)
          → s.rounds < s'.rounds
          → s'.rounds ≤ calm
          → Ends-attempts qs l' s' (k l' s'))
      → Ends-attempts qs l s (again p k)
  unfolding again Ends-attempts
  again-Attempted qs k (goes {l = l'} {s = s'} (a, kept, le)) next = (
    l',
    s',
    refl,
    record {
      kept = kept;
      deadlocks = omega (arith, a.deadlocks);
      reads = omega (arith, a.reads);
      writes = omega (arith, a.writes);
      exact = inr (a.reads, a.writes);
    },
  )
  again-Attempted qs k (stops {l = m} {s = t} d) next =
      let (l', s', e, a) = next m t d.later d.early in
      (
        l',
        s',
        e,
        record {
          kept = Kept-trans d.kept a.kept;
          deadlocks = omega (arith, d.once, a.deadlocks);
          reads = omega (arith, d.reads, a.reads);
          writes = omega (arith, d.writes, a.writes);
          exact = inl (omega (arith, d.once, a.deadlocks));
        },
      )

  retry_loop-Attempted :
      (fuel : ℕ) (qs : List Query) (l : Local) (s : Session)
      → All (IsKnown mode) qs
      → 1 ≤ fuel
      → calm < s.rounds + fuel
      → Ends-attempts qs l s (retry_loop db mode validate fuel qs l s)
  unfolding retry_loop
  retry_loop-Attempted zero qs l s known pos enough = absurd (omega arith)
  retry_loop-Attempted (suc fuel) qs l s known pos enough =
      again-Attempted qs (retry_loop db mode validate fuel qs)
        (queries_loop-LoopGoes c mode validate qs l s known)
        λ l' s' later early. retry_loop-Attempted fuel qs l' s' known (omega arith) (omega arith)

-- What a call that returns 0 has done to the shared counters
pub record IsPerformed (qs : List Query) (s s' : Session) : Type 0 where
  pub transactions : s'.transactions ≡ s.transactions + 1
  pub error : s'.error ≡ s.error
  pub live : s'.live ≡ s.live - (length qs + 1)
  pub deadlocks : s.deadlocks ≤ s'.deadlocks
  pub reads : s.read_ops + tally is_read qs ≤ s'.read_ops
  pub writes : s.write_ops + tally is_write qs ≤ s'.write_ops
  pub exact :
      (s.deadlocks < s'.deadlocks)
      ⊎ ((s'.read_ops ≡ s.read_ops + tally is_read qs)
          × (s'.write_ops ≡ s.write_ops + tally is_write qs))

-- On a database that meets deadlocks and no other errors, and none from round `calm` on, the call
-- ends, with fuel for as many attempts as there are rounds before `calm` and one, and returns 0: it
-- counts one transaction and frees the queries with their list, and it counts at least the reads and
-- writes of the queries, and exactly these unless it counts a deadlock.
pub oltp_execute_request-IsPerformed :
    {db : Database} {calm : ℕ} (mode : OltpMode) (validate : Bool) (fuel : ℕ) (qs : List Query)
    (s : Session)
    → IsCalm db calm
    → All (IsKnown mode) qs
    → 1 ≤ fuel
    → calm < s.rounds + fuel
    → (s' : Session) × (oltp_execute_request db mode validate fuel qs s ≡ some (0, s'))
      × IsPerformed qs s s'
unfolding oltp_execute_request answered returned committed Ends-attempts
oltp_execute_request-IsPerformed mode validate fuel qs s c known pos enough =
    let (l', s', e, a) =
      retry_loop-Attempted c mode validate fuel qs local_start s known pos enough in
    let k = a.kept in
    (
      committed qs l' s',
      rw e refl,
      record {
        transactions = omega (arith, k.transactions);
        error = k.error;
        live = omega (arith, k.live);
        deadlocks = omega (arith, k.deadlocks);
        reads = omega (arith, k.reads, a.reads);
        writes = omega (arith, k.writes, a.writes);
        exact = elim a.exact [
          | inl more ↦ inl (omega (arith, k.deadlocks, more))
          | inr (r, v) ↦ inr (omega (arith, k.reads, r), omega (arith, k.writes, v))
        ];
      },
    )
