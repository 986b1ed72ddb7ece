-- ===== src/Sysbench/Oltp.antt =====
-- The oltp test of sysbench, tests/oltp/sb_oltp.c under mysql/bench/sysbench-0.4.12/sysbench: its
-- arguments, its random numbers and its queries, with the commands that the generators of requests
-- are made of. `World` holds what the test takes from elsewhere: the values of `sb_rnd()` and whether
-- each call of malloc gives memory. A division by zero and a write through NULL are faults. Signed
-- sums wrap around as unsigned ones do.
pub mod Requests
pub mod Execute
pub mod Ids
pub mod Ends
pub mod Grown
pub mod Adds
pub mod Parts
pub mod Complex
pub mod Rounds
pub mod Loop
pub mod Short
pub mod Counts
pub mod Whole
pub mod Answer
use htmsql.Prelude.{
  ℕ, zero, suc, ◌+◌, ◌-◌, ◌*◌, ◌/◌, ◌%◌, Bool, if◌then◌else◌, ◌==◌, ltb, leb, Option, none, some,
  List, [], ◌∷◌, ◌++◌,
}

pub record World : Type 0 where
  pub sb_rnd : ℕ → ℕ
  pub malloc : ℕ → Bool

abbrev pub word : ℕ
word = 4294967296

pub data OltpMode : Type 0 where
  mode_simple mode_complex mode_nontrx mode_sp : OltpMode

pub data NontrxMode : Type 0 where
  nontrx_select nontrx_update_key nontrx_update_nokey nontrx_insert nontrx_delete : NontrxMode

pub data OltpDist : Type 0 where
  dist_uniform dist_gaussian dist_special : OltpDist

pub data ReconnectMode : Type 0 where
  reconnect_session reconnect_query reconnect_transaction reconnect_random : ReconnectMode

-- `oltp_args_t`: the fields that the requests depend on
pub record OltpArgs : Type 0 where
  pub test_mode : OltpMode
  pub reconnect_mode : ReconnectMode
  pub read_only : Bool
  pub skip_trx : Bool
  pub range_size : ℕ
  pub point_selects : ℕ
  pub simple_ranges : ℕ
  pub sum_ranges : ℕ
  pub order_ranges : ℕ
  pub distinct_ranges : ℕ
  pub index_updates : ℕ
  pub non_index_updates : ℕ
  pub nontrx_mode : NontrxMode
  pub user_delay_min : ℕ
  pub user_delay_max : ℕ
  pub table_size : ℕ
  pub dist_type : OltpDist
  pub dist_iter : ℕ
  pub dist_pct : ℕ
  pub dist_res : ℕ

-- `sb_sql_query_type_t` with the member of the union that goes with each type
pub data QueryType : Type 0 where
  lock unlock call reconnect : QueryType
  point update_index update_non_index delete insert : (id : ℕ) → QueryType
  range range_sum range_order range_distinct : (from to : ℕ) → QueryType

-- `sb_sql_query_t`; `nrows` is `none` where the code leaves it as malloc gave it.
pub record Query : Type 0 where
  pub type : QueryType
  pub num_times : ℕ
  pub think_time : ℕ
  pub nrows : Option ℕ

-- The variables of the test, with the request that is being made, and the number of calls of
-- `sb_rnd` and malloc and of blocks that are not freed.
pub record Oltp : Type 0 where
  pub req_performed : ℕ
  pub reconnect_modes : ℕ → ReconnectMode
  pub rnd_seed : ℕ
  pub queries : List Query
  pub draws : ℕ
  pub asked : ℕ
  pub live : ℕ

-- The outcome of a command: the label `memfail` is one.
pub data Run (A : Type 0) : Type 0 where
  done : A → Oltp → Run A
  memfail : Oltp → Run A
  fault : Run A

abbrev pub Cmd : Type 0 → Type 0
Cmd A = Oltp → Run A

abbrev pub pure : {A : Type 0} → A → Cmd A
pure = done

abbrev pub and_then : {A B : Type 0} → Run A → (A → Cmd B) → Run B
and_then (done a s) k = k a s
and_then (memfail s) k = memfail s
and_then fault k = fault

infixl 5 ◌>>=◌ ◌>>◌
abbrev pub ◌>>=◌ : {A B : Type 0} → Cmd A → (A → Cmd B) → Cmd B
m >>= k = λ s. and_then (m s) k

abbrev pub ◌>>◌ : {A B : Type 0} → Cmd A → Cmd B → Cmd B
m >> n = m >>= λ _. n

abbrev pub when : Bool → Cmd (Unit {0}) → Cmd (Unit {0})
when b m = if b then m else pure tt

-- `for (i = 0; i < n; i++)`
unfoldable pub repeat : ℕ → Cmd (Unit {0}) → Cmd (Unit {0})
repeat zero m = pure tt
repeat (suc n) m = m >> repeat n m

-- `/` and `%` on unsigned numbers
unfoldable pub div : ℕ → ℕ → Cmd ℕ
div a b s = if b == 0 then fault else done (a / b) s

unfoldable pub mod_by : ℕ → ℕ → Cmd ℕ
mod_by a b s = if b == 0 then fault else done (a % b) s

module _ (w : World) where
  unfoldable pub sb_rnd : Cmd ℕ
  sb_rnd s = done (w.sb_rnd s.draws) (record s { draws = s.draws + 1 })

  -- `malloc` with the jump to `memfail` behind it, and `malloc` that is not tested
  unfoldable pub malloc : Cmd (Unit {0})
  malloc s =
      let asked = s.asked + 1 in
      if w.malloc s.asked
      then done tt (record s { asked = asked; live = s.live + 1 })
      else memfail (record s { asked = asked })

  unfoldable pub malloc_untested : Cmd (Unit {0})
  malloc_untested s =
      if w.malloc s.asked
      then done tt (record s { asked = s.asked + 1; live = s.live + 1 })
      else fault

-- The second part of `rnd_func_special`: few items near the center
unfoldable pub special_id : OltpArgs → ℕ → ℕ
special_id args res =
    let share = args.table_size * args.dist_pct % word in
    let d = if ltb (share / 100) 1 then 1 else share / 100 in
    (res % d + (args.table_size / 2 + word - share / 200)) % word

module _ (w : World) (args : OltpArgs) where
  unfoldable pub rnd_func_uniform : Cmd ℕ
  rnd_func_uniform = do r ← sb_rnd w; v ← mod_by r args.table_size; pure ((1 + v) % word)

  -- The loop over `dist_iter`, whose draws are those of `rnd_func_uniform`.
  unfoldable pub sum_draws : ℕ → ℕ → Cmd ℕ
  sum_draws zero sum = pure sum
  sum_draws (suc n) sum = do v ← rnd_func_uniform; sum_draws n ((sum + v) % word)

  unfoldable pub rnd_func_gaussian : Cmd ℕ
  rnd_func_gaussian = do sum ← sum_draws args.dist_iter 0; div sum args.dist_iter

  -- The first part is that of `rnd_func_gaussian`.
  unfoldable pub special_part : ℕ → Cmd ℕ
  special_part res =
      if leb res args.table_size then rnd_func_gaussian else pure (special_id args res)

  unfoldable pub special_draw : Cmd ℕ
  special_draw = do
    factor ← div 100 ((100 + word - args.dist_res) % word)
    r ← sb_rnd w
    v ← mod_by r (args.table_size * factor % word)
    special_part ((1 + v) % word)

  unfoldable pub rnd_func_special : Cmd ℕ
  unfolding special_draw special_part
  rnd_func_special = if args.table_size == 0 then pure 0 else special_draw

  -- `GET_RANDOM_ID()`, the function that `parse_arguments` chose
  rnd_func : OltpDist → Cmd ℕ
  unfolding rnd_func_uniform rnd_func_gaussian rnd_func_special sb_rnd mod_by div sum_draws
      special_id
  rnd_func dist_uniform = rnd_func_uniform
  rnd_func dist_gaussian = rnd_func_gaussian
  rnd_func dist_special = rnd_func_special

  unfoldable pub get_random_id : Cmd ℕ
  unfolding rnd_func
  get_random_id = rnd_func args.dist_type

  -- The seed is an unsigned long long; `LARGE_PRIME` is 2147483647.
  unfoldable pub get_unique_random_id : Cmd ℕ
  unfolding mod_by
  get_unique_random_id = do
    res ← (λ s. mod_by s.rnd_seed args.table_size s)
    (λ s.
        done (res % word + 1)
          (record s { rnd_seed = (s.rnd_seed + 2147483647) % 18446744073709551616 }))

  unfoldable pub delay_draw : Cmd ℕ
  delay_draw = do
    r ← sb_rnd w
    t ← mod_by r (args.user_delay_max - args.user_delay_min)
    pure ((args.user_delay_min + t) % word)

  unfoldable pub get_think_time : Cmd ℕ
  unfolding sb_rnd mod_by delay_draw
  get_think_time =
      if ltb args.user_delay_min args.user_delay_max then delay_draw else pure args.user_delay_min
