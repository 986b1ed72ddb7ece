-- ===== src/Sysbench/Oltp/Short.antt =====
-- The requests of one query in sb_oltp.c: `get_request_simple`, `get_request_sp` and
-- `get_request_nontrx`.
use htmsql.Prelude.{
  ℕ, ◌+◌, ◌%◌, ◌≡◌, refl, subst, Bool, ◌==◌, if◌then◌else◌, inl, inr, Bool-cases, Option, none,
  some, List, [], ◌∷◌, length, All, arith,
}
use mathlib.Core.List.{append-nil}
use htmsql.Sysbench.Oltp.{
  World, word, OltpArgs, NontrxMode, nontrx_select, nontrx_update_key, nontrx_update_nokey,
  nontrx_insert, nontrx_delete, QueryType, call, point, Oltp, Run, Cmd, ◌>>=◌, ◌>>◌, pure, malloc,
}
use htmsql.Sysbench.Oltp.Ends.{OutOfMemory, Ends, ended, jumped, faulted, Ends-bind, Ends-mono}
use htmsql.Sysbench.Oltp.Ids.{
  IsUsable, get_think_time-Draws, get_random_id-Draws, get_unique_random_id-Draws, sb_rnd-Draws,
}
use htmsql.Sysbench.Oltp.Requests.{
  SqlRequest, type_null, type_sql, add_tail, add_reconnect_req, is_query, is_random,
  reconnect_behind, list_init, finished, freed, with_list, nontrx_query, nontrx_body,
  get_request_nontrx, take_two, simple_body, sp_body, get_request_simple, get_request_sp,
}
use htmsql.Sysbench.Oltp.Grown.{
  Statement, procedure, point_select, index_update, non_index_update, row_delete, row_insert,
  statement_of, statements, push, IsValid, IsValidAs, IsFull, row_change, applied, without, Grown,
  Left, malloc-Grown, draw-Grown, tail-Grown,
}
use htmsql.Sysbench.Oltp.Adds.{reconnect-Grown}

unfoldable pub nontrx_statement : NontrxMode → Statement
nontrx_statement nontrx_select = point_select
nontrx_statement nontrx_update_key = index_update
nontrx_statement nontrx_update_nokey = non_index_update
nontrx_statement nontrx_insert = row_insert
nontrx_statement nontrx_delete = row_delete

module _ (w : World) (args : OltpArgs) (base performed : ℕ) (u : IsUsable args) where
  reconnect_behind-Grown :
      {Q : Oltp → Type 0} {lost : Option ℕ} (xs : List Statement) (s : Oltp)
      → Grown args base performed xs lost 0 s
      → Ends w (λ _ s'. Grown args base performed xs lost 0 s') Q (reconnect_behind w args s)
  unfolding reconnect_behind
  reconnect_behind-Grown {Q} {lost} xs s g =
      let reconnects : (t : Oltp)
          → Grown args base performed xs lost 0 t
          → Ends w (λ _ s'. Grown args base performed xs lost 0 s') Q (add_reconnect_req w args t) =
        λ t h.
          subst
            (λ l.
              Ends w (λ _ s'. Grown args base performed l lost 0 s') Q (add_reconnect_req w args t))
            (append-nil xs) (reconnect-Grown w args base performed u xs t h) in
      elim (Bool-cases (is_query args.reconnect_mode)) [
        | inl e ↦ rw e (reconnects s g)
        | inr e ↦ elim (Bool-cases (is_random args.reconnect_mode)) [
          | inr e' ↦ rw (e, e') (ended g)
          | inl e' ↦
              rw (e, e')
                (Ends-bind (draw-Grown (sb_rnd-Draws w s) g) λ r t (_, h).
                  elim (Bool-cases (r % 2 == 1)) [
                    | inl odd ↦ rw odd (reconnects t h)
                    | inr even ↦ rw even (ended h)
                  ])
        ]
      ]

  -- One query at the end of the list, and perhaps a reconnect behind it
  one-Grown :
      {Q : Oltp → Type 0} (t : QueryType) (x : Statement) (think : ℕ) (nrows : Option ℕ)
      (lost : Option ℕ) (s : Oltp)
      → IsValidAs args t nrows
      → statement_of t ≡ some x
      → ((f g : ℕ → Bool)
          → IsFull args f
          → ((j : ℕ) → g j ≡ f j)
          → (j : ℕ) → row_change t g j ≡ without lost f j)
      → Grown args base performed [] none 1 s
      → Ends w
          (λ _ s'. (l : Option ℕ) × Grown args base performed (x ∷ []) l 0 s')
          Q
          ((add_tail t think nrows >> reconnect_behind w args) s)
  one-Grown t x think nrows lost s valid is change g =
      Ends-bind (tail-Grown t think nrows s valid change g) λ _ s' g'.
        let h = subst (λ o. Grown args base performed (push o []) lost 0 s') is g' in
        Ends-mono (reconnect_behind-Grown (x ∷ []) s' h) λ _ s'' h'. (lost, h')

  abbrev IsDrawn : NontrxMode → QueryType × Option ℕ → Oltp → Type 0
  IsDrawn mode q s =
      IsValidAs args q.0 q.1
      × (statement_of q.0 ≡ some (nontrx_statement mode))
      × ((lost : Option ℕ) × ((f g : ℕ → Bool)
            → IsFull args f
            → ((j : ℕ) → g j ≡ f j)
            → (j : ℕ) → row_change q.0 g j ≡ without lost f j))
      × Grown args base performed [] none 1 s

  nontrx_query-IsDrawn :
      {Q : Oltp → Type 0} (mode : NontrxMode) (s : Oltp)
      → Grown args base performed [] none 1 s
      → Ends w (IsDrawn mode) Q (nontrx_query w args mode s)
  unfolding nontrx_query row_change nontrx_statement
  nontrx_query-IsDrawn nontrx_select s g =
      Ends-bind (draw-Grown (get_random_id-Draws w args u s) g)
        λ i t (row, h). ended ((row, refl), refl, (none, λ f k full e. e), h)
  nontrx_query-IsDrawn nontrx_update_key s g =
      Ends-bind (draw-Grown (get_random_id-Draws w args u s) g)
        λ i t (row, h). ended (row, refl, (none, λ f k full e. e), h)
  nontrx_query-IsDrawn nontrx_update_nokey s g =
      Ends-bind (draw-Grown (get_random_id-Draws w args u s) g)
        λ i t (row, h). ended (row, refl, (none, λ f k full e. e), h)
  nontrx_query-IsDrawn nontrx_insert s g =
      Ends-bind (draw-Grown (get_random_id-Draws w args u s) g) λ i t (row, h).
        ended (row, refl, (none, λ f k full e j. ground (arith, e j, full i row)), h)
  nontrx_query-IsDrawn nontrx_delete s g =
      Ends-bind (draw-Grown (get_unique_random_id-Draws w args u s) g)
        λ i t (row, h). ended (row, refl, (some i, λ f k full e j. ground (arith, e j)), h)

  nontrx_body-Grown :
      (s : Oltp)
      → Grown args base performed [] none 0 s
      → Ends w
          (λ _ s'.
            (l : Option ℕ) × Grown args base performed
              (nontrx_statement args.nontrx_mode ∷ [])
              l
              0
              s')
          (Left base performed)
          (nontrx_body w args s)
  unfolding nontrx_body
  nontrx_body-Grown s g = Ends-bind (malloc-Grown s g) λ _ s1 g1.
      Ends-bind (draw-Grown (get_think_time-Draws w args u s1) g1) λ think s2 (_, g2).
        Ends-bind (nontrx_query-IsDrawn args.nontrx_mode s2 g2) λ q s3 d.
          one-Grown q.0 (nontrx_statement args.nontrx_mode) think q.1 d.2.0 s3 d.0 d.1 d.2.1 d.3

-- The answer: NULL with `kept` blocks that are not freed, or one statement
abbrev pub IsShort : World → OltpArgs → Statement → ℕ → Oltp → SqlRequest → Oltp → Type 0
IsShort w args x kept s type_null s' =
    OutOfMemory w × (s'.live ≡ s.live + kept) × (s'.req_performed ≡ s.req_performed)
IsShort w args x kept s (type_sql qs) s' =
    (statements qs ≡ x ∷ [])
    × All (IsValid args) qs
    × (s'.live ≡ s.live + length qs + 1)
    × (s'.req_performed ≡ (s.req_performed + 1) % word)

-- The blocks that the two calls of malloc in front of a test give
abbrev pub given : World → Oltp → ℕ
given w s = (if w.malloc s.asked then 1 else 0) + (if w.malloc (s.asked + 1) then 1 else 0)

module _ (w : World) (args : OltpArgs) (u : IsUsable args) (s : Oltp) where
  finish :
      {Q : Oltp → Type 0} {x : Statement} (kept : ℕ) {l : Option ℕ} {t : Oltp}
      → Grown args (s.live + 1) s.req_performed (x ∷ []) l 0 t
      → Ends w (IsShort w args x kept s) Q (finished t)
  unfolding finished
  finish kept g = ended (g.shape, g.valid, omega (arith, g.live), rw g.counted refl)

  -- The end of a request whose query leaves the rows alone
  tail-IsShort :
      {Q : Oltp → Type 0} (t : QueryType) (x : Statement) (think : ℕ) (nrows : Option ℕ) (kept : ℕ)
      (o : Oltp)
      → IsValidAs args t nrows
      → statement_of t ≡ some x
      → ((f : ℕ → Bool) → row_change t f ≡ f)
      → Grown args (s.live + 1) s.req_performed [] none 1 o
      → Ends w
          (IsShort w args x kept s)
          Q
          ((add_tail t think nrows >> (reconnect_behind w args >> finished)) o)
  tail-IsShort t x think nrows kept o valid is keeps g =
      Ends-bind
        (tail-Grown {lost' = none} t think nrows o valid (λ f h full e j. rw (keeps h) (e j)) g)
        λ _ o1 g1.
          let h =
            subst (λ p. Grown args (s.live + 1) s.req_performed (push p []) none 0 o1) is g1 in
          Ends-bind (reconnect_behind-Grown w args (s.live + 1) s.req_performed u (x ∷ []) o1 h)
            λ _ o2 g2. finish kept g2

  freed-IsShort :
      {x : Statement} {r : Run SqlRequest}
      → Ends w (IsShort w args x 0 s) (Left (s.live + 1) s.req_performed) r
      → Ends w (IsShort w args x 0 s) (λ _. ⊥) (freed r)
  unfolding freed
  freed-IsShort (ended p) = ended p
  freed-IsShort (jumped o q) = ended (o, omega (arith, q.live), q.counted)
  freed-IsShort (faulted o) = faulted o

  -- An empty list behind its calls of malloc
  empty-Grown :
      (extra asked live : ℕ)
      → live ≡ s.live + 1 + extra
      → Grown args
          (s.live + 1)
          s.req_performed
          []
          none
          extra
          (record s { queries = []; asked = asked; live = live })
  unfolding statements applied
  empty-Grown extra asked live e = record {
    shape = refl;
    valid = tt;
    live = omega (arith, e);
    counted = refl;
    rows = λ f full j. refl;
  }

  pub nontrx-IsShort :
      Ends w
        (IsShort w args (nontrx_statement args.nontrx_mode) 0 s)
        (λ _. ⊥)
        (get_request_nontrx w args s)
  unfolding get_request_nontrx with_list malloc
  nontrx-IsShort = elim (Bool-cases (w.malloc s.asked)) [
    | inr e ↦ rw e (ended ((s.asked, e), omega arith, refl))
    | inl e ↦
        let g = empty-Grown 0 (s.asked + 1) (s.live + 1) (omega arith) in
        rw e (
          freed-IsShort (
            Ends-bind (nontrx_body-Grown w args (s.live + 1) s.req_performed u _ g)
              λ _ t (l, h). finish 0 h))
  ]

  -- A request behind two calls of malloc
  pair-IsShort :
      (x : Statement) (m : Cmd SqlRequest)
      → ((o : Oltp)
          → Grown args (s.live + 1) s.req_performed [] none 1 o
          → Ends w (IsShort w args x (given w s) s) (λ _. ⊥) (m o))
      → Ends w
          (IsShort w args x (given w s) s)
          (λ _. ⊥)
          ((take_two w args >>= λ b. if b then list_init >> m else pure type_null) s)
  unfolding take_two
  pair-IsShort x m body = elim (Bool-cases (w.malloc s.asked)) [
    | inr e ↦ rw e (ended ((s.asked, e), omega arith, refl))
    | inl e ↦ elim (Bool-cases (w.malloc (s.asked + 1))) [
      | inr e' ↦ rw (e, e') (ended ((s.asked + 1, e'), omega arith, refl))
      | inl e' ↦
          let both : given w s ≡ 2 = rw (e, e') refl in
          rw (e, e')
            (rw both at (body _ (empty-Grown 1 (s.asked + 2) (s.live + 1 + 1) (omega arith))))
    ]
  ]

  pub simple-IsShort :
      Ends w (IsShort w args point_select (given w s) s) (λ _. ⊥) (get_request_simple w args s)
  unfolding get_request_simple simple_body row_change
  simple-IsShort = pair-IsShort point_select _ λ o g.
      Ends-bind (draw-Grown (get_think_time-Draws w args u o) g) λ think o1 (_, g1).
        Ends-bind (draw-Grown (get_random_id-Draws w args u o1) g1) λ i o2 (row, g2).
          tail-IsShort (point i) point_select think (some 1) (given w s) o2 (row, refl) refl
            (λ f. refl) g2

  pub sp-IsShort :
      Ends w (IsShort w args procedure (given w s) s) (λ _. ⊥) (get_request_sp w args s)
  unfolding get_request_sp sp_body row_change
  sp-IsShort = pair-IsShort procedure _ λ o g.
      Ends-bind (draw-Grown (get_think_time-Draws w args u o) g) λ think o1 (_, g1).
        tail-IsShort call procedure think (some 0) (given w s) o1 tt refl (λ f. refl) g1
