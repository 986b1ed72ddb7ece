-- ===== src/Sysbench/Oltp/Complex.antt =====
-- A transaction of the complex mode, `get_request_complex` of sb_oltp.c, as a whole.
use htmsql.Prelude.{
  ℕ, ◌+◌, ◌%◌, ◌≡◌, refl, Bool, not, ◌&&◌, update, inl, inr, Bool-cases, none, [], length, All,
  arith,
}
use htmsql.Sysbench.Oltp.{World, word, OltpArgs, ReconnectMode, Oltp, Run, malloc}
use htmsql.Sysbench.Oltp.Ends.{OutOfMemory, Ends, ended, jumped, faulted, Ends-bind}
use htmsql.Sysbench.Oltp.Ids.{IsUsable, sb_rnd-Draws}
use htmsql.Sysbench.Oltp.Requests.{
  SqlRequest, type_null, type_sql, is_random, is_session, mode_of, reconnects_from, choose_mode,
  finished, freed, with_list, get_request_complex,
}
use htmsql.Sysbench.Oltp.Grown.{statements, IsValid, IsFull, applied, Grown, Left, draw-Grown}
use htmsql.Sysbench.Oltp.Parts.{complex_statements, Adds-transaction, Adds-maybe}

module _ (w : World) (args : OltpArgs) (base performed : ℕ) (u : IsUsable args) where
  -- The mode is chosen, with at most a reconnect in front of the transaction.
  reconnects_from-Grown :
      (tid : ℕ) (rmode : ReconnectMode) (r : ℕ) (s : Oltp)
      → Grown args base performed [] none 0 s
      → Ends w
          (λ _ s'. Grown args base performed [] none 0 s')
          (Left base performed)
          (reconnects_from w args tid rmode r s)
  unfolding reconnects_from
  reconnects_from-Grown tid rmode r s g =
      let s1 = record s { reconnect_modes = update s.reconnect_modes tid (mode_of (r % 3)) } in
      let g1 : Grown args base performed [] none 0 s1 = record {
        shape = g.shape;
        valid = g.valid;
        live = g.live;
        counted = g.counted;
        rows = g.rows;
      } in
      Ends-bind
        ((Adds-maybe w args base performed u
            (is_session rmode && not (is_session (mode_of (r % 3))))).at
          [] s1 g1)
        λ _ s2 g2. ended g2

  choose_mode-Grown :
      (tid : ℕ) (s : Oltp)
      → Grown args base performed [] none 0 s
      → Ends w
          (λ _ s'. Grown args base performed [] none 0 s')
          (Left base performed)
          (choose_mode w args tid s)
  unfolding choose_mode
  choose_mode-Grown tid s g = elim (Bool-cases (is_random args.reconnect_mode)) [
    | inl e ↦ rw e (
        Ends-bind (draw-Grown (sb_rnd-Draws w s) g)
          λ r s1 (_, g1). reconnects_from-Grown tid (s.reconnect_modes tid) r s1 g1)
    | inr e ↦ rw e (ended g)
  ]

-- What is true of the answer: NULL where memory ran out, with the memory as before; or the whole
-- transaction.
abbrev pub IsTransaction : World → OltpArgs → Oltp → SqlRequest → Oltp → Type 0
IsTransaction w args s type_null s' =
    OutOfMemory w × (s'.live ≡ s.live) × (s'.req_performed ≡ s.req_performed)
IsTransaction w args s (type_sql qs) s' =
    (statements qs ≡ complex_statements args)
    × All (IsValid args) qs
    × ((f : ℕ → Bool) → IsFull args f → (j : ℕ) → applied qs f j ≡ f j)
    × (s'.live ≡ s.live + length qs + 1)
    × (s'.req_performed ≡ (s.req_performed + 1) % word)

module _ (w : World) (args : OltpArgs) (s : Oltp) where
  freed-IsTransaction :
      {r : Run SqlRequest}
      → Ends w (λ a s'. IsTransaction w args s a s') (Left (s.live + 1) s.req_performed) r
      → Ends w (λ a s'. IsTransaction w args s a s') (λ _. ⊥) (freed r)
  unfolding freed
  freed-IsTransaction (ended p) = ended p
  freed-IsTransaction (jumped o q) = ended (o, omega (arith, q.live), q.counted)
  freed-IsTransaction (faulted o) = faulted o

-- With usable arguments, and whatever the numbers drawn and the calls of malloc that fail,
-- get_request_complex ends, or writes through NULL where a call of malloc failed. Its answer is NULL
-- only where memory ran out, and then it has given back what it had allocated and has not counted the
-- request. Else its queries are the statements of a whole transaction in their order, with the
-- reconnects between them; each names rows of the table alone and expects as many rows as a full table
-- gives; behind them the table has the rows that it had; and the blocks in use are those of the queries
-- and of their list.
pub get_request_complex-IsTransaction :
    (w : World) (args : OltpArgs) (tid : ℕ) (s : Oltp)
    → IsUsable args
    → Ends w (λ r s'. IsTransaction w args s r s') (λ _. ⊥) (get_request_complex w args tid s)
unfolding get_request_complex with_list malloc finished statements applied
get_request_complex-IsTransaction w args tid s u = elim (Bool-cases (w.malloc s.asked)) [
  | inr e ↦ rw e (ended ((s.asked, e), refl, refl))
  | inl e ↦
      let base = s.live + 1 in
      let s1 = record s { asked = s.asked + 1; live = s.live + 1; queries = [] } in
      let g1 : Grown args base s.req_performed [] none 0 s1 = record {
        shape = refl;
        valid = tt;
        live = omega arith;
        counted = refl;
        rows = λ f full j. refl;
      } in
      rw e (
        freed-IsTransaction w args s (
          Ends-bind
            (Ends-bind (choose_mode-Grown w args base s.req_performed u tid s1 g1)
              λ rmode s2 g2. (Adds-transaction w args base s.req_performed u rmode).at [] s2 g2)
            λ _ s3 g3.
              ended (g3.shape, g3.valid, g3.rows, omega (arith, g3.live), rw g3.counted refl)))
]
