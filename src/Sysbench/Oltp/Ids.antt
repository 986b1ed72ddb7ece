-- ===== src/Sysbench/Oltp/Ids.antt =====
-- The random ids of sb_oltp.c lie in the table.
use htmsql.Prelude.{
  ℕ, zero, suc, ◌+◌, ◌-◌, ◌*◌, ◌/◌, ◌%◌, ◌≤◌, ◌<◌, ◌≡◌, refl, false, ◌⊎◌, inl, inr, Bool-cases,
  arith, dec_lt, ◌==◌, ltb, leb,
}
use htmsql.Sysbench.Oltp.{
  World, word, OltpArgs, OltpDist, dist_uniform, dist_gaussian, dist_special, Oltp, Run, done, Cmd,
  and_then, div, mod_by, sb_rnd, rnd_func_uniform, sum_draws, rnd_func_gaussian, special_id,
  special_part, special_draw, rnd_func_special, rnd_func, get_random_id, get_unique_random_id,
  delay_draw, get_think_time,
}
use native.Mathlib.Nat.{mod-lt, mod-eq_of_lt, div-lt_iff_lt-mul, mul-le-mul_left}

-- Arguments with which the ids lie in the table and the arithmetic does not wrap around.
pub record IsUsable (a : OltpArgs) : Type 0 where
  pub rows : 2 ≤ a.table_size
  pub percents : a.table_size * 100 < word
  pub iterates : 1 ≤ a.dist_iter
  pub sums : a.dist_iter * a.table_size < word
  pub res : a.dist_res < 100
  pub pct : a.dist_pct ≤ 50
  pub ranges : 1 ≤ a.range_size
  pub shorter : a.range_size < a.table_size

-- The state but for the random numbers drawn
pub record Drawn (s s' : Oltp) : Type 0 where
  pub queries : s'.queries ≡ s.queries
  pub live : s'.live ≡ s.live
  pub performed : s'.req_performed ≡ s.req_performed

-- The command returns a number of which `P` holds, having drawn random numbers.
pub data Draws (P : ℕ → Type 0) (s : Oltp) : Run ℕ → Type 0 where
  draws : {i : ℕ} {s' : Oltp} → P i → Drawn s s' → Draws P s (done i s')

Drawn-trans : {s t u : Oltp} → Drawn s t → Drawn t u → Drawn s u
Drawn-trans d e = ground arith

Draws-bind :
    {P R : ℕ → Type 0} {s : Oltp} {r : Run ℕ} {k : ℕ → Cmd ℕ}
    → Draws P s r
    → ((i : ℕ) (t : Oltp) → P i → Draws R t (k i t))
    → Draws R s (and_then r k)
Draws-bind {R} {s} (draws {i} {s' = t} p d) next = onward (next i t p)
  where
    onward : {r : Run ℕ} → Draws R t r → Draws R s r
    onward (draws q e) = draws q (Drawn-trans d e)

Draws-mono :
    {P R : ℕ → Type 0} {s : Oltp} {r : Run ℕ} → Draws P s r → ((i : ℕ) → P i → R i) → Draws R s r
Draws-mono (draws p d) weaken = draws (weaken _ p) d

module _ (w : World) where
  pub sb_rnd-Draws : (s : Oltp) → Draws (λ _. Unit) s (sb_rnd w s)
  unfolding sb_rnd
  sb_rnd-Draws s = draws tt (record { queries = refl; live = refl; performed = refl })

pure-Draws : {P : ℕ → Type 0} (i : ℕ) (s : Oltp) → P i → Draws P s (done i s)
pure-Draws i s p = draws p (record { queries = refl; live = refl; performed = refl })

mod_by-Draws : (a b : ℕ) (s : Oltp) → 0 < b → Draws (λ i. i < b) s (mod_by a b s)
unfolding mod_by
mod_by-Draws a b s h =
    let e : (b == 0) ≡ false = ground arith in rw e (pure-Draws (a % b) s (mod-lt a h))

div-Draws : {P : ℕ → Type 0} (a b : ℕ) (s : Oltp) → 0 < b → P (a / b) → Draws P s (div a b s)
unfolding div
div-Draws a b s h p = let e : (b == 0) ≡ false = ground arith in rw e (pure-Draws (a / b) s p)

-- The mean of `n` numbers between 1 and `m`
mean_bounds : (n m sum : ℕ) → 1 ≤ n → n ≤ sum → sum ≤ n * m → (1 ≤ sum / n) × (sum / n ≤ m)
mean_bounds n m sum pos low high =
    let upper : sum / n < m + 1 = (div-lt_iff_lt-mul pos).1 (grind arith) in
    let lower : sum / n < 1 → sum < 1 * n = (div-lt_iff_lt-mul pos).0 in
    elim (dec_lt (sum / n) 1) [
      | yes less ↦ absurd (omega (arith, lower less))
      | no more ↦ (omega arith, omega arith)
    ]

-- A number of a row
abbrev pub IsRow : OltpArgs → ℕ → Type 0
IsRow args i = (1 ≤ i) × (i ≤ args.table_size)

special_bounds :
    (rows share res d : ℕ)
    → 2 ≤ rows
    → share ≤ rows * 50
    → rows * 100 < word
    → 1 ≤ d
    → (d ≡ 1) ⊎ (d ≡ share / 100)
    → let i = (res % d + (rows / 2 + word - share / 200)) % word in (1 ≤ i) × (i ≤ rows)
special_bounds rows share res d two half small pos (inl e) =
    let less = mod-lt res pos in (omega arith, omega arith)
special_bounds rows share res d two half small pos (inr e) =
    let less = mod-lt res pos in (omega arith, omega arith)

special_id-IsRow :
    (args : OltpArgs) (u : IsUsable args) (res : ℕ) → IsRow args (special_id args res)
unfolding special_id
special_id-IsRow args u res =
    let share = args.table_size * args.dist_pct in
    let half : share ≤ args.table_size * 50 = mul-le-mul_left args.table_size u.pct in
    let fits : share % word ≡ share = mod-eq_of_lt (omega (arith, half, u.percents)) in
    rw fits (elim (Bool-cases (ltb (share / 100) 1)) [
      | inl small ↦ rw small (
          special_bounds args.table_size share res 1 u.rows half u.percents (omega arith)
            (inl refl))
      | inr large ↦ rw large (
          special_bounds args.table_size share res (share / 100) u.rows half u.percents
            (ground arith) (inr refl))
    ])

module _ (w : World) (args : OltpArgs) (u : IsUsable args) where
  uniform-Draws : (s : Oltp) → Draws (IsRow args) s (rnd_func_uniform w args s)
  unfolding rnd_func_uniform
  uniform-Draws s = Draws-bind (sb_rnd-Draws w s) λ r t _.
      Draws-bind (mod_by-Draws r args.table_size t (omega (arith, u.rows))) λ v t' h.
        pure-Draws ((1 + v) % word) t' (omega (arith, u.percents), omega (arith, u.percents))

  sum_draws-Draws :
      (n sum : ℕ) (s : Oltp)
      → sum + n * args.table_size < word
      → Draws (λ t. (sum + n ≤ t) × (t ≤ sum + n * args.table_size)) s (sum_draws w args n sum s)
  unfolding sum_draws
  sum_draws-Draws zero sum s h = pure-Draws sum s (omega arith, omega arith)
  sum_draws-Draws (suc n) sum s h = Draws-bind (uniform-Draws s) λ v t row.
      let step : suc n * args.table_size ≡ n * args.table_size + args.table_size = grind arith in
      let fits : (sum + v) % word ≡ sum + v = mod-eq_of_lt (omega (arith, step, row)) in
      rw fits (
        Draws-mono (sum_draws-Draws n (sum + v) t (omega (arith, step, row)))
          λ r h'. (omega (arith, step, row, h'), omega (arith, step, row, h')))

  gaussian-Draws : (s : Oltp) → Draws (IsRow args) s (rnd_func_gaussian w args s)
  unfolding rnd_func_gaussian
  gaussian-Draws s =
      Draws-bind (sum_draws-Draws args.dist_iter 0 s (omega (arith, u.sums))) λ sum t h.
        div-Draws sum args.dist_iter t u.iterates (
          mean_bounds args.dist_iter args.table_size sum u.iterates (omega (arith, h))
            (omega (arith, h)))

  special_part-Draws : (res : ℕ) (s : Oltp) → Draws (IsRow args) s (special_part w args res s)
  unfolding special_part
  special_part-Draws res s = elim (Bool-cases (leb res args.table_size)) [
    | inl low ↦ rw low (gaussian-Draws s)
    | inr high ↦ rw high (pure-Draws (special_id args res) s (special_id-IsRow args u res))
  ]

  range_pos : (f : ℕ) → (1 ≤ f) × (f ≤ 100) → 1 ≤ args.table_size * f % word
  range_pos f h =
      let most : args.table_size * f ≤ args.table_size * 100 =
        mul-le-mul_left args.table_size h.1 in
      let least : args.table_size * 1 ≤ args.table_size * f = mul-le-mul_left args.table_size h.0 in
      omega (arith, most, least, u.percents, u.rows)

  special-Draws : (s : Oltp) → Draws (IsRow args) s (rnd_func_special w args s)
  unfolding rnd_func_special special_draw
  special-Draws s =
      let filled : (args.table_size == 0) ≡ false = ground (arith, u.rows) in
      let n = (100 + word - args.dist_res) % word in
      let rest : (1 ≤ n) × (n ≤ 100) = (omega (arith, u.res), omega (arith, u.res)) in
      rw filled (
        Draws-bind
          (div-Draws {P = λ f. (1 ≤ f) × (f ≤ 100)} 100 ((100 + word - args.dist_res) % word) s
            rest.0
            (mean_bounds ((100 + word - args.dist_res) % word) 100 100 rest.0 rest.1
              (omega (arith, rest.0))))
          λ f t h. Draws-bind (sb_rnd-Draws w t) λ r t' _.
            Draws-bind
              (mod_by-Draws r (args.table_size * f % word) t'
                (omega (arith, u.rows, range_pos f h)))
              λ v t'' h'. special_part-Draws ((1 + v) % word) t'')

  rnd_func-Draws : (d : OltpDist) (s : Oltp) → Draws (IsRow args) s (rnd_func w args d s)
  unfolding rnd_func
  rnd_func-Draws dist_uniform s = uniform-Draws s
  rnd_func-Draws dist_gaussian s = gaussian-Draws s
  rnd_func-Draws dist_special s = special-Draws s

  -- With usable arguments, whatever the numbers drawn and whichever the distribution, GET_RANDOM_ID
  -- returns the id of a row, from 1 to the size of the table.
  pub get_random_id-Draws : (s : Oltp) → Draws (IsRow args) s (get_random_id w args s)
  unfolding get_random_id
  get_random_id-Draws s = rnd_func-Draws args.dist_type s

  -- The delay is drawn without a fault.
  pub get_think_time-Draws : (s : Oltp) → Draws (λ _. Unit) s (get_think_time w args s)
  unfolding get_think_time delay_draw
  get_think_time-Draws s = elim (Bool-cases (ltb args.user_delay_min args.user_delay_max)) [
    | inl more ↦ rw more (
        Draws-bind (sb_rnd-Draws w s) λ r t _.
          Draws-bind (mod_by-Draws r (args.user_delay_max - args.user_delay_min) t (ground arith))
            λ v t' h. pure-Draws ((args.user_delay_min + v) % word) t' tt)
    | inr none ↦ rw none (pure-Draws args.user_delay_min s tt)
  ]

  -- So is the id that is drawn from the seed.
  pub get_unique_random_id-Draws : (s : Oltp) → Draws (IsRow args) s (get_unique_random_id w args s)
  unfolding get_unique_random_id mod_by
  get_unique_random_id-Draws s =
      let filled : (args.table_size == 0) ≡ false = ground (arith, u.rows) in
      let less : s.rnd_seed % args.table_size < args.table_size =
        mod-lt s.rnd_seed (omega (arith, u.rows)) in
      rw filled (
        draws (omega arith, omega (arith, less, u.percents))
          (record { queries = refl; live = refl; performed = refl }))
