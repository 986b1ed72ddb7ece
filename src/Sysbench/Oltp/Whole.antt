-- ===== src/Sysbench/Oltp/Whole.antt =====
-- A transaction of the complex mode of sb_oltp.c from its request to its end.
use htmsql.Prelude.{
  ℕ, zero, suc, ◌+◌, ◌*◌, ◌≤◌, ◌<◌, ◌≡◌, refl, sym, ap, ◌∙◌, Bool, true, false, ◌||◌, if◌then◌else◌,
  ◌⊎◌, inl, inr, some, List, [], ◌∷◌, ◌++◌, All, arith,
}
use htmsql.Sysbench.Oltp.{World, OltpArgs, mode_complex, QueryType, call, point, Query, Oltp, done}
use htmsql.Sysbench.Oltp.Ends.{Ends-done}
use htmsql.Sysbench.Oltp.Ids.{IsUsable}
use htmsql.Sysbench.Oltp.Requests.{type_sql, get_request_complex}
use htmsql.Sysbench.Oltp.Grown.{
  Statement, procedure, point_select, simple_range, sum_range, order_range, distinct_range,
  index_update, non_index_update, row_delete, row_insert, statement_of, statements, push, IsValid,
}
use htmsql.Sysbench.Oltp.Adds.{times}
use htmsql.Sysbench.Oltp.Parts.{read_statements, write_statements, complex_statements}
use htmsql.Sysbench.Oltp.Complex.{IsTransaction, get_request_complex-IsTransaction}
use htmsql.Sysbench.Oltp.Execute.{
  Database, Session, get_sql_statement, is_reconnect, oltp_execute_request,
}
use htmsql.Sysbench.Oltp.Rounds.{is_read, is_write, tally, IsCalm, IsKnown}
use htmsql.Sysbench.Oltp.Counts.{oltp_execute_request-IsPerformed}

abbrev reads : Statement → ℕ
reads point_select = 1
reads simple_range = 1
reads sum_range = 1
reads order_range = 1
reads distinct_range = 1
reads _ = 0

abbrev writes : Statement → ℕ
writes index_update = 1
writes non_index_update = 1
writes row_delete = 1
writes row_insert = 1
writes _ = 0

-- The procedure has no statement in this mode.
abbrev procedures : Statement → ℕ
procedures procedure = 1
procedures _ = 0

amount : (Statement → ℕ) → List Statement → ℕ
amount f [] = 0
amount f (x ∷ xs) = f x + amount f xs

amount-append :
    (f : Statement → ℕ) (xs ys : List Statement) → amount f (xs ++ ys) ≡ amount f xs + amount f ys
unfolding amount
amount-append f [] ys = omega arith
amount-append f (x ∷ xs) ys = omega (arith, amount-append f xs ys)

amount-times : (f : Statement → ℕ) (n : ℕ) (x : Statement) → amount f (times n (x ∷ [])) ≡ n * f x
unfolding amount times
amount-times f zero x = omega arith
amount-times f (suc n) x = grind (arith, amount-times f n x)

read_type :
    (t : QueryType) (xs : List Statement)
    → amount reads (push (statement_of t) xs) ≡ (if is_read t then 1 else 0) + amount reads xs
unfolding amount is_read
read_type (point i) xs = omega arith
read_type t xs = omega arith

write_type :
    (t : QueryType) (xs : List Statement)
    → amount writes (push (statement_of t) xs) ≡ (if is_write t then 1 else 0) + amount writes xs
unfolding amount is_write
write_type (point i) xs = omega arith
write_type t xs = omega arith

known_type :
    (t : QueryType) (xs : List Statement)
    → amount procedures (push (statement_of t) xs) ≡ 0
    → ((is_reconnect t || get_sql_statement mode_complex t true) ≡ true)
      × (amount procedures xs ≡ 0)
unfolding amount is_reconnect get_sql_statement
known_type call xs h = absurd (omega arith)
known_type t xs h = (refl, omega arith)

-- The tallies of queries are those of their statements.
tally-statements :
    (args : OltpArgs) (qs : List Query)
    → All (IsValid args) qs
    → (tally is_read qs ≡ amount reads (statements qs))
      × (tally is_write qs ≡ amount writes (statements qs))
      × (amount procedures (statements qs) ≡ 0 → All (IsKnown mode_complex) qs)
unfolding tally statements
tally-statements args [] valid = (unfold amount in refl, unfold amount in refl, λ _. tt)
tally-statements args (q ∷ qs) valid =
    let (r, v, known) = tally-statements args qs valid.1 in
    let xs = statements qs in
    (
      rw valid.0.0 (ap (λ n. (if is_read q.type then 1 else 0) + n) r ∙ sym (read_type q.type xs)),
      rw valid.0.0
          (ap (λ n. (if is_write q.type then 1 else 0) + n) v ∙ sym (write_type q.type xs)),
      λ h. let (one, rest) = known_type q.type xs h in (one, known rest),
    )

-- The reads and writes of a transaction
unfoldable pub read_ops_of : OltpArgs → ℕ
read_ops_of args =
    args.point_selects + args.simple_ranges + args.sum_ranges + args.order_ranges
    + args.distinct_ranges

unfoldable pub write_ops_of : OltpArgs → ℕ
write_ops_of args = if args.read_only then 0 else args.index_updates + args.non_index_updates + 3

amount-if :
    (f : Statement → ℕ) (b : Bool) (xs : List Statement)
    → amount f (if b then xs else []) ≡ (if b then amount f xs else 0)
unfolding amount
amount-if f true xs = refl
amount-if f false xs = refl

ruleset amounts = (amount-append, amount-times, amount-if)

complex-amounts :
    (args : OltpArgs)
    → (amount reads (complex_statements args) ≡ read_ops_of args)
      × (amount writes (complex_statements args) ≡ write_ops_of args)
      × (amount procedures (complex_statements args) ≡ 0)
unfolding complex_statements read_statements write_statements read_ops_of write_ops_of amount
complex-amounts args =
    (simp amounts (ground arith), simp amounts (ground arith), simp amounts (ground arith))

-- Where get_request_complex gives a transaction and oltp_execute_request executes it, on a database
-- that meets deadlocks and no other errors, and none from round `calm` on: the call returns 0, one
-- more transaction is counted, and no more memory is in use than before the request; and unless it
-- counts a deadlock, the reads and writes counted are those that the arguments ask for, with the update,
-- the delete and the insert of one row where the test is not read-only.
pub complex_performed :
    (w : World) (args : OltpArgs) (tid : ℕ) (o o' : Oltp) (qs : List Query) {db : Database}
    {calm : ℕ} (validate : Bool) (fuel : ℕ) (s : Session)
    → IsUsable args
    → get_request_complex w args tid o ≡ done (type_sql qs) o'
    → s.live ≡ o'.live
    → IsCalm db calm
    → 1 ≤ fuel
    → calm < s.rounds + fuel
    → (s' : Session) × (oltp_execute_request db mode_complex validate fuel qs s ≡ some (0, s'))
      × (s'.transactions ≡ s.transactions + 1)
      × (s'.live ≡ o.live)
      × ((s.deadlocks < s'.deadlocks)
          ⊎ ((s'.read_ops ≡ s.read_ops + read_ops_of args)
              × (s'.write_ops ≡ s.write_ops + write_ops_of args)))
complex_performed w args tid o o' qs validate fuel s u made same calm pos enough =
    let t : IsTransaction w args o (type_sql qs) o' =
      Ends-done (type_sql qs) o' (get_request_complex-IsTransaction w args tid o u) made in
    let (r, v, known) = tally-statements args qs t.1 in
    let sums = complex-amounts args in
    let (s', ends, p) =
      oltp_execute_request-IsPerformed mode_complex validate fuel qs s calm
        (known (ap (amount procedures) t.0 ∙ sums.2)) pos enough in
    (
      s',
      ends,
      p.transactions,
      omega (arith, p.live, same, t.3),
      elim p.exact [
        | inl more ↦ inl more
        | inr (a, b) ↦ inr (
          a ∙ ap (λ n. s.read_ops + n) (r ∙ ap (amount reads) t.0 ∙ sums.0),
          b ∙ ap (λ n. s.write_ops + n) (v ∙ ap (amount writes) t.0 ∙ sums.1),
        )
      ],
    )
