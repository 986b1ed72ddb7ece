-- ===== src/Sysbench/Oltp/Loop.antt =====
-- The loop over the queries in `oltp_execute_request` of sb_oltp.c on such a database.
use htmsql.Prelude.{ℕ, ◌+◌, ◌≤◌, ◌≡◌, refl, ◌∙◌, Bool, Option, List, [], ◌∷◌, All, arith}
use htmsql.Sysbench.Oltp.{OltpMode, QueryType, point, Query}
use htmsql.Sysbench.Oltp.Execute.{
  Database, Session, Local, Progress, count_ops, counted, queries_loop,
}
use htmsql.Sysbench.Oltp.Rounds.{
  is_read, is_write, tally, IsCalm, IsKnown, Kept, Kept-refl, Kept-trans, Goes, goes, stops,
  Deadlock, OnceGoes, query_times-OnceGoes,
}

-- The counters grow by the rounds of the queries.
pub record Counted (l l' : Local) (qs : List Query) : Type 0 where
  pub reads : l'.local_read_ops ≡ l.local_read_ops + tally is_read qs
  pub writes : l'.local_write_ops ≡ l.local_write_ops + tally is_write qs
  pub others : l.local_other_ops ≤ l'.local_other_ops
  pub deadlocks : l'.local_deadlocks ≡ l.local_deadlocks

pub count_type-Counted :
    (t : QueryType) (n think : ℕ) (nrows : Option ℕ) (l : Local)
    → Counted l
        (count_ops t n l)
        (record { type = t; num_times = n; think_time = think; nrows = nrows } ∷ [])
unfolding count_ops tally is_read is_write
count_type-Counted (point i) n think nrows l = ground arith
count_type-Counted t n think nrows l = ground arith

pub count_ops-Counted :
    (q : Query) (l : Local) → Counted l (count_ops q.type q.num_times l) (q ∷ [])
count_ops-Counted q l = count_type-Counted q.type q.num_times q.think_time q.nrows l

pub Counted-cons :
    {q : Query} {qs : List Query} {l m n : Local}
    → Counted l m (q ∷ [])
    → Counted m n qs
    → Counted l n (q ∷ qs)
unfolding tally
Counted-cons a b = record {
  reads = omega (arith, a.reads, b.reads);
  writes = omega (arith, a.writes, b.writes);
  others = omega (arith, a.others, b.others);
  deadlocks = b.deadlocks ∙ a.deadlocks;
}

-- A deadlock behind what was counted, and in front of it
pub Deadlock-from :
    {calm : ℕ} (qs : List Query) {l m n : Local} {s t v : Session}
    → Counted l m qs
    → Kept s t
    → s.rounds ≤ t.rounds
    → Deadlock calm m t n v
    → Deadlock calm l s n v
Deadlock-from qs a k le d = record {
  kept = Kept-trans k d.kept;
  once = omega (arith, d.once, a.deadlocks);
  reads = omega (arith, d.reads, a.reads);
  writes = omega (arith, d.writes, a.writes);
  others = omega (arith, d.others, a.others);
  later = omega (arith, le, d.later);
  early = d.early;
}

pub Deadlock-then :
    {calm : ℕ} {qs : List Query} {l m n : Local} {s t : Session}
    → Deadlock calm l s m t
    → Counted m n qs
    → Deadlock calm l s n t
Deadlock-then d a = record {
  kept = d.kept;
  once = omega (arith, d.once, a.deadlocks);
  reads = omega (arith, d.reads, a.reads);
  writes = omega (arith, d.writes, a.writes);
  others = omega (arith, d.others, a.others);
  later = d.later;
  early = d.early;
}

module _ {db : Database} {calm : ℕ} (c : IsCalm db calm) (mode : OltpMode) (validate : Bool) where
  abbrev pub LoopGoes : List Query → Local → Session → Progress → Type 0
  LoopGoes qs l s p =
      Goes (λ l' s'. Counted l l' qs × Kept s s' × (s.rounds ≤ s'.rounds)) (Deadlock calm l s) p

  pub LoopGoes-from :
      {q : Query} {qs : List Query} {l m : Local} {s t : Session} {p : Progress}
      → Counted l m (q ∷ [])
      → Kept s t
      → s.rounds ≤ t.rounds
      → LoopGoes qs m t p
      → LoopGoes (q ∷ qs) l s p
  LoopGoes-from a k le (goes (b, kept, le')) =
      goes (Counted-cons a b, Kept-trans k kept, omega (arith, le, le'))
  LoopGoes-from {q} {l} {m} a k le (stops d) = stops (Deadlock-from (q ∷ []) a k le d)

  pub counted-LoopGoes :
      (q : Query) (qs : List Query) {l : Local} {s : Session} {p : Progress}
      (k : Local → Session → Progress)
      → OnceGoes c mode validate l s p
      → ((l' : Local) (s' : Session) → LoopGoes qs l' s' (k l' s'))
      → LoopGoes (q ∷ qs) l s (counted q p k)
  unfolding counted
  counted-LoopGoes q qs {l} k (goes {l = l'} {s = t} (same, kept, le)) next =
      let a = count_ops-Counted q l in
      LoopGoes-from a kept le (rw same (next (count_ops q.type q.num_times l) t))
  counted-LoopGoes q qs k (stops d) next = stops (Deadlock-then d (count_ops-Counted q _))

  pub queries_loop-LoopGoes :
      (qs : List Query) (l : Local) (s : Session)
      → All (IsKnown mode) qs
      → LoopGoes qs l s (queries_loop db mode validate qs l s)
  unfolding queries_loop tally
  queries_loop-LoopGoes [] l s known = goes (
    record { reads = omega arith; writes = omega arith; others = omega arith; deadlocks = refl },
    Kept-refl s,
    omega arith,
  )
  queries_loop-LoopGoes (q ∷ qs) l s known =
      counted-LoopGoes q qs (queries_loop db mode validate qs)
        (query_times-OnceGoes c mode validate q.num_times q l s known.0)
        λ l' s'. queries_loop-LoopGoes qs l' s' known.1
