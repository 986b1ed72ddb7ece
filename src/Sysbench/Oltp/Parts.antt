-- ===== src/Sysbench/Oltp/Parts.antt =====
-- The parts of a transaction of the complex mode in sb_oltp.c, and the statements that they add.
use htmsql.Prelude.{
  ℕ, ◌+◌, ◌-◌, ◌≡◌, refl, ap, subst, Bool, true, false, if◌then◌else◌, not, Option, none, some,
  List, [], ◌∷◌, ◌++◌, arith,
}
use mathlib.Core.List.{append-nil, append_assoc}
use htmsql.Sysbench.Oltp.{
  World, OltpArgs, ReconnectMode, QueryType, lock, unlock, point, update_index, update_non_index,
  delete, insert, range, range_sum, range_order, Oltp, Cmd, ◌>>◌, when, repeat,
}
use htmsql.Sysbench.Oltp.Ends.{Ends, ended, Ends-bind, Ends-mono}
use htmsql.Sysbench.Oltp.Ids.{IsUsable, IsRow, get_think_time-Draws, get_random_id-Draws}
use htmsql.Sysbench.Oltp.Requests.{
  add_reconnect_req, add_range, with_reconnect, is_query, is_transaction, add_reads, add_with_id,
  add_same, add_writes, add_commit, add_transaction,
}
use htmsql.Sysbench.Oltp.Grown.{
  Statement, begin, commit, point_select, simple_range, sum_range, order_range, distinct_range,
  index_update, non_index_update, row_delete, row_insert, statement_of, push, IsValidAs, IsFull,
  row_change, without, Grown, Left, malloc-Grown, draw-Grown, tail-Grown,
}
use htmsql.Sysbench.Oltp.Adds.{
  times, Adds, Adds-then, Adds-when, Adds-repeat, Adds-reconnect, Adds-id, Adds-marker, Adds-range,
  Adds-distinct, IsValidRange,
}

-- The statements of a transaction
unfoldable pub read_statements : OltpArgs → List Statement
read_statements args =
    times args.point_selects (point_select ∷ [])
    ++ (times args.simple_ranges (simple_range ∷ [])
        ++ (times args.sum_ranges (sum_range ∷ [])
            ++ (times args.order_ranges (order_range ∷ [])
                ++ times args.distinct_ranges (distinct_range ∷ []))))

unfoldable pub write_statements : OltpArgs → List Statement
write_statements args =
    times args.index_updates (index_update ∷ [])
    ++ (times args.non_index_updates (non_index_update ∷ [])
        ++ (index_update ∷ row_delete ∷ row_insert ∷ []))

unfoldable pub complex_statements : OltpArgs → List Statement
complex_statements args =
    (if not args.skip_trx then begin ∷ [] else [])
    ++ (read_statements args
        ++ ((if not args.read_only then write_statements args else [])
            ++ (if not args.skip_trx then commit ∷ [] else [])))

module _ (w : World) (args : OltpArgs) (base performed : ℕ) (u : IsUsable args) where
  with_id-Grown :
      (xs : List Statement) (lost lost' : Option ℕ) (i : ℕ) (t : ℕ → QueryType)
      (rmode : ReconnectMode) (s : Oltp)
      → IsValidAs args (t i) none
      → ((f g : ℕ → Bool)
          → IsFull args f
          → ((j : ℕ) → g j ≡ without lost f j)
          → (j : ℕ) → row_change (t i) g j ≡ without lost' f j)
      → Grown args base performed xs lost 0 s
      → Ends w
          (λ _ s'. Grown args base performed (xs ++ push (statement_of (t i)) []) lost' 0 s')
          (Left base performed)
          (add_with_id w args rmode i t s)
  unfolding add_with_id
  with_id-Grown xs lost lost' i t rmode s valid change g = Ends-bind (malloc-Grown s g) λ _ s1 g1.
      Ends-bind (draw-Grown (get_think_time-Draws w args u s1) g1)
        λ think s2 (_, g2). tail-Grown (t i) think none s2 valid change g2

  deleted :
      (i : ℕ) (f g : ℕ → Bool)
      → IsFull args f
      → ((j : ℕ) → g j ≡ f j)
      → (j : ℕ) → row_change (delete i) g j ≡ without (some i) f j
  unfolding row_change
  deleted i f g full e j = ground (arith, e j)

  inserted :
      (i : ℕ) (f g : ℕ → Bool)
      → IsRow args i
      → IsFull args f
      → ((j : ℕ) → g j ≡ without (some i) f j)
      → (j : ℕ) → row_change (insert i) g j ≡ f j
  unfolding row_change
  inserted i f g row full e j = ground (arith, e j, full i row)

  three :
      (xs : List Statement) (x y z : Statement)
      → ((xs ++ x ∷ []) ++ y ∷ []) ++ z ∷ [] ≡ xs ++ (x ∷ y ∷ z ∷ [])
  three xs x y z = simp append_assoc

  Adds-same :
      (rmode : ReconnectMode)
      → Adds w args base performed
          (index_update ∷ row_delete ∷ row_insert ∷ [])
          (add_same w args rmode)
  unfolding add_same row_change
  Adds-same rmode = record {
    at = λ xs s g. Ends-bind (malloc-Grown s g) λ _ s1 g1.
        Ends-bind (draw-Grown (get_think_time-Draws w args u s1) g1) λ think s2 (_, g2).
          Ends-bind (draw-Grown (get_random_id-Draws w args u s2) g2) λ i s3 (row, g3).
            Ends-bind (tail-Grown (update_index i) think none s3 row (λ f h full e j. e j) g3)
              λ _ s4 g4.
                Ends-bind
                  (with_id-Grown (xs ++ index_update ∷ []) none (some i) i delete rmode s4 row
                    (deleted i) g4)
                  λ _ s5 g5.
                    Ends-mono
                      (with_id-Grown ((xs ++ index_update ∷ []) ++ row_delete ∷ []) (some i) none i
                        insert rmode s5 row (λ f h. inserted i f h row) g5)
                      λ _ s6 g6.
                        subst (λ l. Grown args base performed l none 0 s6)
                          (three xs index_update row_delete row_insert) g6;
  }

  both :
      {ys zs : List Statement} {m n : Cmd (Unit {0})}
      → Adds w args base performed ys m
      → Adds w args base performed zs n
      → Adds w args base performed (ys ++ zs) (m >> n)
  both = Adds-then w args base performed

  pub Adds-maybe : (c : Bool) → Adds w args base performed [] (when c (add_reconnect_req w args))
  Adds-maybe true = Adds-reconnect w args base performed u
  Adds-maybe false = record { at = λ xs s g. ended (rw append-nil g) }

  module _ (rmode : ReconnectMode) where
    Adds-with :
        {x : Statement} {m : Cmd (Unit {0})}
        → Adds w args base performed (x ∷ []) m
        → Adds w args base performed (x ∷ []) (with_reconnect w args rmode m)
    Adds-with a = Adds-then w args base performed a (Adds-maybe (is_query rmode))

    loop_of :
        {x : Statement} {m : Cmd (Unit {0})} (n : ℕ)
        → Adds w args base performed (x ∷ []) m
        → Adds w args base performed (times n (x ∷ [])) (repeat n (with_reconnect w args rmode m))
    loop_of n a = Adds-repeat w args base performed n (Adds-with a)

    ranges :
        (t : ℕ → ℕ → QueryType) (nrows : Option ℕ) (x : Statement)
        → IsValidRange w args base performed u t nrows
        → ((a b : ℕ) → statement_of (t a b) ≡ some x)
        → ((a b : ℕ) (f : ℕ → Bool) → row_change (t a b) f ≡ f)
        → Adds w args base performed (x ∷ []) (add_range w args t nrows)
    ranges = Adds-range w args base performed u

    -- The rows of a range are as many as its ids.
    width : (a : ℕ) → some args.range_size ≡ some (a + args.range_size - 1 + 1 - a)
    width a = ap some (omega (arith, u.ranges))

    Adds-reads : Adds w args base performed (read_statements args) (add_reads w args rmode)
    unfolding add_reads read_statements row_change
    Adds-reads =
        both
          (loop_of args.point_selects (
            Adds-id w args base performed u point (some 1) point_select (λ i row. (row, refl))
              (λ i. refl) (λ i f. refl)))
          (both
            (loop_of args.simple_ranges (
              ranges range (some args.range_size) simple_range
                (λ a low high. (low, omega (arith, u.ranges), omega arith, width a)) (λ a b. refl)
                (λ a b f. refl)))
            (both
              (loop_of args.sum_ranges (
                ranges range_sum (some 1) sum_range
                  (λ a low high. (low, omega (arith, u.ranges), omega arith, refl)) (λ a b. refl)
                  (λ a b f. refl)))
              (both
                (loop_of args.order_ranges (
                  ranges range_order (some args.range_size) order_range
                    (λ a low high. (low, omega (arith, u.ranges), omega arith, width a))
                    (λ a b. refl) (λ a b f. refl)))
                (loop_of args.distinct_ranges (Adds-distinct w args base performed u)))))

    Adds-writes : Adds w args base performed (write_statements args) (add_writes w args rmode)
    unfolding add_writes write_statements row_change
    Adds-writes =
        both
          (loop_of args.index_updates (
            Adds-id w args base performed u update_index none index_update (λ i row. row)
              (λ i. refl) (λ i f. refl)))
          (both
            (loop_of args.non_index_updates (
              Adds-id w args base performed u update_non_index none non_index_update (λ i row. row)
                (λ i. refl) (λ i f. refl)))
            (Adds-same rmode))

    Adds-commit : Adds w args base performed (commit ∷ []) (add_commit w args rmode)
    unfolding add_commit row_change
    Adds-commit =
        both (Adds-marker w args base performed u unlock tt (λ f. refl))
          (Adds-maybe (is_transaction rmode))

    pub Adds-transaction :
        Adds w args base performed (complex_statements args) (add_transaction w args rmode)
    unfolding add_transaction complex_statements row_change
    Adds-transaction =
        both
          (Adds-when w args base performed (not args.skip_trx)
            (Adds-marker w args base performed u lock tt (λ f. refl)))
          (both Adds-reads (
            both (Adds-when w args base performed (not args.read_only) Adds-writes)
              (Adds-when w args base performed (not args.skip_trx) Adds-commit)))
