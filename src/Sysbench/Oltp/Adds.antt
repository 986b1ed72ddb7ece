-- ===== src/Sysbench/Oltp/Adds.antt =====
-- The statements that the parts of a transaction add, one rule for each way to put parts together.
use htmsql.Prelude.{
  ℕ, zero, suc, ◌+◌, ◌-◌, ◌%◌, ◌≤◌, ◌≡◌, refl, subst, Bool, true, false, if◌then◌else◌, inl, inr,
  Bool-cases, Option, none, some, List, [], ◌∷◌, ◌++◌, arith,
}
use mathlib.Core.List.{append-nil, append_assoc}
use htmsql.Sysbench.Oltp.{
  World, word, OltpArgs, QueryType, reconnect, range_distinct, Oltp, Cmd, ◌>>=◌, ◌>>◌, when, repeat,
  malloc_untested, get_think_time,
}
use htmsql.Sysbench.Oltp.Ends.{Ends, ended, faulted, Ends-bind}
use htmsql.Sysbench.Oltp.Ids.{IsUsable, IsRow, get_think_time-Draws, get_random_id-Draws}
use htmsql.Sysbench.Oltp.Requests.{
  add_tail, add_reconnect_req, add_marker, add_id, range_start, add_range, add_distinct,
}
use htmsql.Sysbench.Oltp.Grown.{
  Statement, distinct_range, statement_of, push, IsValidAs, row_change, Grown, Left,
  allocated-Grown, malloc-Grown, draw-Grown, tail-Grown,
}

-- `n` times the same statements
unfoldable pub times : ℕ → List Statement → List Statement
times zero xs = []
times (suc n) xs = xs ++ times n xs

module _ (w : World) (args : OltpArgs) (base performed : ℕ) where
  -- `m` adds queries with the statements `ys`, and leaves the rows of the table as they are.
  pub record Adds (ys : List Statement) (m : Cmd (Unit {0})) : Type 0 where
    pub at :
        (xs : List Statement) (s : Oltp)
        → Grown args base performed xs none 0 s
        → Ends w
            (λ _ s'. Grown args base performed (xs ++ ys) none 0 s')
            (Left base performed)
            (m s)

  pub Adds-then :
      {ys zs : List Statement} {m n : Cmd (Unit {0})}
      → Adds ys m
      → Adds zs n
      → Adds (ys ++ zs) (m >> n)
  Adds-then {ys} {zs} {n} a b = record {
    at =
        λ xs s g. rw (← append_assoc xs ys zs) (Ends-bind (a.at xs s g) λ _ s'. b.at (xs ++ ys) s');
  }

  pub Adds-when :
      {ys : List Statement} (c : Bool) {m : Cmd (Unit {0})}
      → Adds ys m
      → Adds (if c then ys else []) (when c m)
  Adds-when true a = a
  Adds-when false a = record { at = λ xs s g. ended (rw append-nil g) }

  pub Adds-repeat :
      {ys : List Statement} (n : ℕ) {m : Cmd (Unit {0})}
      → Adds ys m
      → Adds (times n ys) (repeat n m)
  unfolding times repeat
  Adds-repeat zero a = record { at = λ xs s g. ended (rw append-nil g) }
  Adds-repeat (suc n) a = Adds-then a (Adds-repeat n a)

  module _ (u : IsUsable args) where
    -- A query that leaves the rows alone, behind its call of malloc
    think_and_add :
        {Q : Oltp → Type 0} {lost : Option ℕ} (xs : List Statement) (t : QueryType)
        (nrows : Option ℕ) (s : Oltp)
        → IsValidAs args t nrows
        → ((f : ℕ → Bool) → row_change t f ≡ f)
        → Grown args base performed xs lost 1 s
        → Ends w
            (λ _ s'. Grown args base performed (xs ++ push (statement_of t) []) lost 0 s')
            Q
            ((get_think_time w args >>= λ think. add_tail t think nrows) s)
    think_and_add xs t nrows s valid keeps g =
        Ends-bind (draw-Grown (get_think_time-Draws w args u s) g) λ think s' (_, g').
          tail-Grown t think nrows s' valid (λ f h full e j. rw (keeps h) (e j)) g'

    pub reconnect-Grown :
        {Q : Oltp → Type 0} {lost : Option ℕ} (xs : List Statement) (s : Oltp)
        → Grown args base performed xs lost 0 s
        → Ends w
            (λ _ s'. Grown args base performed (xs ++ []) lost 0 s')
            Q
            (add_reconnect_req w args s)
    unfolding add_reconnect_req malloc_untested row_change
    reconnect-Grown xs s g = elim (Bool-cases (w.malloc s.asked)) [
      | inl e ↦ rw e (think_and_add xs reconnect (some 0) _ tt (λ f. refl) (allocated-Grown g))
      | inr e ↦ rw e (faulted (s.asked, e))
    ]

    pub Adds-reconnect : Adds [] (add_reconnect_req w args)
    Adds-reconnect = record { at = λ xs s g. reconnect-Grown xs s g }

    pub Adds-id :
        (t : ℕ → QueryType) (nrows : Option ℕ) (x : Statement)
        → ((i : ℕ) → IsRow args i → IsValidAs args (t i) nrows)
        → ((i : ℕ) → statement_of (t i) ≡ some x)
        → ((i : ℕ) (f : ℕ → Bool) → row_change (t i) f ≡ f)
        → Adds (x ∷ []) (add_id w args t nrows)
    unfolding add_id
    Adds-id t nrows x valid is keeps = record {
      at = λ xs s g. Ends-bind (malloc-Grown s g) λ _ s1 g1.
          Ends-bind (draw-Grown (get_think_time-Draws w args u s1) g1) λ think s2 (_, g2).
            Ends-bind (draw-Grown (get_random_id-Draws w args u s2) g2) λ i s3 (row, g3).
              subst
                (λ o.
                  Ends w (λ _ s'. Grown args base performed (xs ++ push o []) none 0 s')
                    (Left base performed) (add_tail (t i) think nrows s3))
                (is i)
                (tail-Grown (t i) think nrows s3 (valid i row)
                  (λ f h full e j. rw (keeps i h) (e j)) g3);
    }

    pub Adds-marker :
        (t : QueryType)
        → IsValidAs args t none
        → ((f : ℕ → Bool) → row_change t f ≡ f)
        → Adds (push (statement_of t) []) (add_marker w args t)
    unfolding add_marker
    Adds-marker t valid keeps = record {
      at = λ xs s g.
          Ends-bind (malloc-Grown s g)
            λ _ s1 g1. tail-Grown t 0 none s1 valid (λ f h full e j. rw (keeps h) (e j)) g1;
    }

    range_start_bounds :
        (r : ℕ)
        → IsRow args r
        → (1 ≤ range_start args r) × (range_start args r + args.range_size ≤ args.table_size)
    unfolding range_start
    range_start_bounds r row = ground (arith, u.percents, u.shorter, u.ranges)

    abbrev pub IsValidRange : (ℕ → ℕ → QueryType) → Option ℕ → Type 0
    IsValidRange t nrows =
        (a : ℕ)
        → 1 ≤ a
        → a + args.range_size ≤ args.table_size
        → IsValidAs args (t a (a + args.range_size - 1)) nrows

    pub Adds-range :
        (t : ℕ → ℕ → QueryType) (nrows : Option ℕ) (x : Statement)
        → IsValidRange t nrows
        → ((a b : ℕ) → statement_of (t a b) ≡ some x)
        → ((a b : ℕ) (f : ℕ → Bool) → row_change (t a b) f ≡ f)
        → Adds (x ∷ []) (add_range w args t nrows)
    unfolding add_range
    Adds-range t nrows x valid is keeps = record {
      at = λ xs s g. Ends-bind (malloc-Grown s g) λ _ s1 g1.
          Ends-bind (draw-Grown (get_think_time-Draws w args u s1) g1) λ think s2 (_, g2).
            Ends-bind (draw-Grown (get_random_id-Draws w args u s2) g2) λ r s3 (row, g3).
              let a = range_start args r in
              let b = (a + args.range_size + word - 1) % word in
              let in_table = range_start_bounds r row in
              let last : b ≡ a + args.range_size - 1 =
                omega (arith, in_table, u.percents, u.ranges) in
              subst
                (λ o.
                  Ends w (λ _ s'. Grown args base performed (xs ++ push o []) none 0 s')
                    (Left base performed) (add_tail (t a b) think nrows s3))
                (is a b)
                (tail-Grown (t a b) think nrows s3 (rw last (valid a in_table.0 in_table.1))
                  (λ f h full e j. rw (keeps a b h) (e j)) g3);
    }

    pub Adds-distinct : Adds (distinct_range ∷ []) (add_distinct w args)
    unfolding add_distinct row_change
    Adds-distinct = record {
      at = λ xs s g. Ends-bind (malloc-Grown s g) λ _ s1 g1.
          Ends-bind (draw-Grown (get_think_time-Draws w args u s1) g1) λ think s2 (_, g2).
            Ends-bind (draw-Grown (get_random_id-Draws w args u s2) g2) λ r s3 (row, g3).
              let a = range_start args r in
              let b = (a + args.range_size) % word in
              let in_table = range_start_bounds r row in
              let last : b ≡ a + args.range_size = omega (arith, in_table, u.percents) in
              tail-Grown (range_distinct a b) think (some 0) s3
                (in_table.0, omega (arith, last, u.ranges), omega (arith, last, in_table), refl)
                (λ f h full e j. e j) g3;
    }
