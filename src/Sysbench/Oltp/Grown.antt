-- ===== src/Sysbench/Oltp/Grown.antt =====
-- What the generators of requests in sb_oltp.c keep while they add queries.
use htmsql.Prelude.{
  ℕ, ◌+◌, ◌-◌, ◌≤◌, ◌≡◌, refl, ap, ◌∙◌, Bool, true, false, if◌then◌else◌, ◌==◌, update, inl, inr,
  Bool-cases, Option, none, some, List, [], ◌∷◌, ◌++◌, length, length-append, All, arith,
}
use htmsql.Sysbench.Oltp.{
  World, OltpArgs, QueryType, lock, unlock, call, reconnect, point, update_index, update_non_index,
  delete, insert, range, range_sum, range_order, range_distinct, Query, Oltp, Run, malloc,
}
use htmsql.Sysbench.Oltp.Ends.{Ends, ended, jumped}
use htmsql.Sysbench.Oltp.Ids.{IsRow, Draws, draws}
use htmsql.Sysbench.Oltp.Requests.{add_tail}

-- A statement of a transaction, without its ids
pub data Statement : Type 0 where
  begin commit procedure point_select index_update non_index_update row_delete row_insert :
      Statement
  simple_range sum_range order_range distinct_range : Statement

abbrev pub statement_of : QueryType → Option Statement
statement_of lock = some begin
statement_of unlock = some commit
statement_of call = some procedure
statement_of reconnect = none
statement_of (point i) = some point_select
statement_of (update_index i) = some index_update
statement_of (update_non_index i) = some non_index_update
statement_of (delete i) = some row_delete
statement_of (insert i) = some row_insert
statement_of (range a b) = some simple_range
statement_of (range_sum a b) = some sum_range
statement_of (range_order a b) = some order_range
statement_of (range_distinct a b) = some distinct_range

abbrev pub push : Option Statement → List Statement → List Statement
push none xs = xs
push (some x) xs = x ∷ xs

-- The statements of the queries, in order, without the reconnects
unfoldable pub statements : List Query → List Statement
statements [] = []
statements (q ∷ qs) = push (statement_of q.type) (statements qs)

-- The ids lie in the table, a range is not empty, and the number of rows that the test checks is the
-- number that a full table gives.
abbrev pub IsValidAs : OltpArgs → QueryType → Option ℕ → Type 0
IsValidAs args (point i) rows = IsRow args i × (rows ≡ some 1)
IsValidAs args (update_index i) rows = IsRow args i
IsValidAs args (update_non_index i) rows = IsRow args i
IsValidAs args (delete i) rows = IsRow args i
IsValidAs args (insert i) rows = IsRow args i
IsValidAs args (range a b) rows =
    (1 ≤ a) × (a ≤ b) × (b ≤ args.table_size) × (rows ≡ some (b + 1 - a))
IsValidAs args (range_sum a b) rows = (1 ≤ a) × (a ≤ b) × (b ≤ args.table_size) × (rows ≡ some 1)
IsValidAs args (range_order a b) rows =
    (1 ≤ a) × (a ≤ b) × (b ≤ args.table_size) × (rows ≡ some (b + 1 - a))
IsValidAs args (range_distinct a b) rows =
    (1 ≤ a) × (a ≤ b) × (b ≤ args.table_size) × (rows ≡ some 0)
IsValidAs args t rows = Unit

abbrev pub IsValid : OltpArgs → Query → Type 0
IsValid args q = (q.num_times ≡ 1) × IsValidAs args q.type q.nrows

-- The rows of a table, by their ids, behind a query and behind queries
unfoldable pub row_change : QueryType → (ℕ → Bool) → ℕ → Bool
row_change (delete i) f = update f i false
row_change (insert i) f = update f i true
row_change _ f = f

unfoldable pub applied : List Query → (ℕ → Bool) → ℕ → Bool
applied [] f = f
applied (q ∷ qs) f = applied qs (row_change q.type f)

abbrev pub without : Option ℕ → (ℕ → Bool) → ℕ → Bool
without none f j = f j
without (some i) f j = if i == j then false else f j

-- Every row of the table is there.
abbrev pub IsFull : OltpArgs → (ℕ → Bool) → Type 0
IsFull args f = (i : ℕ) → IsRow args i → f i ≡ true

push-append : (o : Option Statement) (ys zs : List Statement) → push o (ys ++ zs) ≡ push o ys ++ zs
push-append none ys zs = refl
push-append (some x) ys zs = refl

statements-append :
    (qs : List Query) (q : Query)
    → statements (qs ++ q ∷ []) ≡ statements qs ++ push (statement_of q.type) []
unfolding statements
statements-append [] q = refl
statements-append (p ∷ qs) q =
    ap (push (statement_of p.type)) (statements-append qs q)
    ∙ push-append (statement_of p.type) (statements qs) (push (statement_of q.type) [])

applied-append :
    (qs : List Query) (q : Query) (f : ℕ → Bool)
    → applied (qs ++ q ∷ []) f ≡ row_change q.type (applied qs f)
unfolding applied
applied-append [] q f = refl
applied-append (p ∷ qs) q f = applied-append qs q (row_change p.type f)

All-append {ℓ κ} :
    {A : Type ℓ} (P : A → Type κ) (xs : List A) {x : A} → All P xs → P x → All P (xs ++ x ∷ [])
All-append P [] all p = (p, tt)
All-append P (y ∷ xs) all p = (all.0, All-append P xs all.1 p)

-- The queries so far, where `base` blocks were in use and `performed` requests performed; the row
-- `lost` is deleted, and `extra` blocks are allocated beside those of the queries.
pub record Grown (args : OltpArgs) (base performed : ℕ) (xs : List Statement) (lost : Option ℕ)
    (extra : ℕ) (s : Oltp) : Type 0 where
  pub shape : statements s.queries ≡ xs
  pub valid : All (IsValid args) s.queries
  pub live : s.live ≡ base + length s.queries + extra
  pub counted : s.req_performed ≡ performed
  pub rows : (f : ℕ → Bool) → IsFull args f → (j : ℕ) → applied s.queries f j ≡ without lost f j

-- What is left at the label `memfail`
pub record Left (base performed : ℕ) (s : Oltp) : Type 0 where
  pub live : s.live ≡ base + length s.queries
  pub counted : s.req_performed ≡ performed

module _ {args : OltpArgs} {base performed : ℕ} where
  pub allocated-Grown :
      {xs : List Statement} {lost : Option ℕ} {s : Oltp}
      → Grown args base performed xs lost 0 s
      → Grown args base performed xs lost 1 (record s { asked = s.asked + 1; live = s.live + 1 })
  allocated-Grown g = record {
    shape = g.shape;
    valid = g.valid;
    live = omega (arith, g.live);
    counted = g.counted;
    rows = g.rows;
  }

module _ {w : World} {args : OltpArgs} {base performed : ℕ} where
  pub malloc-Grown :
      {xs : List Statement} {lost : Option ℕ} (s : Oltp)
      → Grown args base performed xs lost 0 s
      → Ends w (λ _ s'. Grown args base performed xs lost 1 s') (Left base performed) (malloc w s)
  unfolding malloc
  malloc-Grown s g = elim (Bool-cases (w.malloc s.asked)) [
    | inl e ↦ rw e (ended (allocated-Grown g))
    | inr e ↦
        rw e (jumped (s.asked, e) (record { live = omega (arith, g.live); counted = g.counted }))
  ]

  pub draw-Grown :
      {xs : List Statement} {lost : Option ℕ} {extra : ℕ} {P : ℕ → Type 0} {Q : Oltp → Type 0}
      {s : Oltp} {r : Run ℕ}
      → Draws P s r
      → Grown args base performed xs lost extra s
      → Ends w (λ i s'. P i × Grown args base performed xs lost extra s') Q r
  draw-Grown (draws p d) g = ended (
    p,
    record {
      shape = rw d.queries g.shape;
      valid = rw d.queries g.valid;
      live = rw (d.queries, d.live) g.live;
      counted = rw d.performed g.counted;
      rows = rw d.queries g.rows;
    },
  )

  -- The query at the tail takes over the block.
  pub tail-Grown :
      {Q : Oltp → Type 0} {xs : List Statement} {lost lost' : Option ℕ} (t : QueryType) (think : ℕ)
      (nrows : Option ℕ) (s : Oltp)
      → IsValidAs args t nrows
      → ((f g : ℕ → Bool)
          → IsFull args f
          → ((j : ℕ) → g j ≡ without lost f j)
          → (j : ℕ) → row_change t g j ≡ without lost' f j)
      → Grown args base performed xs lost 1 s
      → Ends w
          (λ _ s'. Grown args base performed (xs ++ push (statement_of t) []) lost' 0 s')
          Q
          (add_tail t think nrows s)
  tail-Grown t think nrows s valid change g =
      let q : Query = record { type = t; num_times = 1; think_time = think; nrows = nrows } in
      ended (record {
        shape = statements-append s.queries q ∙ ap (λ l. l ++ push (statement_of t) []) g.shape;
        valid = All-append (IsValid args) s.queries g.valid (refl, valid);
        live = omega (arith, g.live, length-append s.queries (q ∷ []));
        counted = g.counted;
        rows = λ f full j.
            rw (applied-append s.queries q f)
              (change f (applied s.queries f) full (g.rows f full) j);
      })
