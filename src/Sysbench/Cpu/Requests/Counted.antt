-- ===== src/Sysbench/Cpu/Requests/Counted.antt =====
-- How many requests `cpu_get_request` hands out to several threads.
use htmsql.Prelude.{
  ℕ, ◌+◌, ◌-◌, ◌%◌, ◌^◌, ◌<◌, ◌≤◌, ◌≡◌, refl, ap, none, some, update, arith, Bool, true, false,
}
use htmsql.Prelude.Sums.{total, total-update, total-le, total-zero}
use htmsql.Sysbench.Cpu.Requests.{
  Pc, outside, passed, locked, loaded, stored, ended, System, tests_more, tests_enough, locks,
  loads, stores, unlocks, Reach, start, later,
}

-- A request that is on its way to be counted
abbrev on_way : Pc → ℕ
on_way outside = 0
on_way passed = 1
on_way locked = 1
on_way (loaded v) = 1
on_way stored = 0
on_way ended = 0

-- A request that is counted and not yet returned
abbrev counted : Pc → ℕ
counted outside = 0
counted passed = 0
counted locked = 0
counted (loaded v) = 0
counted stored = 1
counted ended = 0

-- In the lock
abbrev holds : Pc → Bool
holds outside = false
holds passed = false
holds locked = true
holds (loaded v) = true
holds stored = true
holds ended = false

record IsCounted (threads max_requests : ℕ) (s : System) : Type 0 where
  owner : (i : ℕ) → holds (s.pc i) ≡ true → s.request_mutex ≡ some i
  fresh : (i v : ℕ) → s.pc i ≡ loaded v → v ≡ s.req_performed
  enough : (i : ℕ) → s.pc i ≡ ended → max_requests ≤ s.req_performed
  bounded : s.req_performed + total on_way s.pc threads ≤ max_requests + (threads - 1)
  returned : s.handed + total counted s.pc threads ≡ s.req_performed

on_way-le : (p : Pc) → on_way p ≤ 1
on_way-le outside = omega arith
on_way-le passed = omega arith
on_way-le locked = omega arith
on_way-le (loaded v) = omega arith
on_way-le stored = omega arith
on_way-le ended = omega arith

module _ {n max : ℕ} {s : System} (h : IsCounted n max s) {t : ℕ} (lt : t < n) where
  -- The sums when thread `t` goes on
  moved_on_way :
      (p q : Pc)
      → s.pc t ≡ p
      → total on_way (update s.pc t q) n + on_way p ≡ total on_way s.pc n + on_way q
  moved_on_way p q e = rw e at (total-update on_way s.pc t q n lt)

  moved_counted :
      (p q : Pc)
      → s.pc t ≡ p
      → total counted (update s.pc t q) n + counted p ≡ total counted s.pc n + counted q
  moved_counted p q e = rw e at (total-update counted s.pc t q n lt)

  Step-tests_more :
      s.pc t ≡ outside
      → s.req_performed < max
      → IsCounted n max (record s { pc = update s.pc t passed })
  Step-tests_more e few =
      let way = moved_on_way outside passed e in
      let room = total-le on_way (update s.pc t passed) n on_way-le in
      let back = moved_counted outside passed e in
      record {
        owner = λ i a. ground (arith, h.owner i);
        fresh = λ i v a. ground (arith, h.fresh i v);
        enough = λ i a. ground (arith, h.enough i);
        bounded = omega (arith, way, room, few);
        returned = omega (arith, back, h.returned);
      }

  Step-tests_enough :
      s.pc t ≡ outside
      → max ≤ s.req_performed
      → IsCounted n max (record s { pc = update s.pc t ended })
  Step-tests_enough e many =
      let way = moved_on_way outside ended e in
      let back = moved_counted outside ended e in
      record {
        owner = λ i a. ground (arith, h.owner i);
        fresh = λ i v a. ground (arith, h.fresh i v);
        enough = λ i a. ground (arith, h.enough i);
        bounded = omega (arith, way, h.bounded);
        returned = omega (arith, back, h.returned);
      }

  Step-locks :
      s.pc t ≡ passed
      → s.request_mutex ≡ none
      → IsCounted n max (record s { request_mutex = some t; pc = update s.pc t locked })
  Step-locks e free =
      let way = moved_on_way passed locked e in
      let back = moved_counted passed locked e in
      record {
        owner = λ i a. ground (arith, h.owner i);
        fresh = λ i v a. ground (arith, h.fresh i v);
        enough = λ i a. ground (arith, h.enough i);
        bounded = omega (arith, way, h.bounded);
        returned = omega (arith, back, h.returned);
      }

  Step-loads :
      s.pc t ≡ locked → IsCounted n max (record s { pc = update s.pc t (loaded s.req_performed) })
  Step-loads e =
      let way = moved_on_way locked (loaded s.req_performed) e in
      let back = moved_counted locked (loaded s.req_performed) e in
      record {
        owner = λ i a. ground (arith, h.owner i, h.owner t);
        fresh = λ i v a. ground (arith, h.fresh i v);
        enough = λ i a. ground (arith, h.enough i);
        bounded = omega (arith, way, h.bounded);
        returned = omega (arith, back, h.returned);
      }

  Step-stores :
      (v : ℕ)
      → s.pc t ≡ loaded v
      → max + n < 2 ^ 32
      → IsCounted n max (record s { req_performed = (v + 1) % 2 ^ 32; pc = update s.pc t stored })
  Step-stores v e fits =
      let way = moved_on_way (loaded v) stored e in
      let back = moved_counted (loaded v) stored e in
      let same = h.fresh t v e in
      let next : (v + 1) % 2 ^ 32 ≡ s.req_performed + 1 =
        omega (arith, way, h.bounded, same, fits, lt) in
      record {
        owner = λ i a. ground (arith, h.owner i, h.owner t);
        fresh = λ i w a. ground (arith, h.owner i, h.owner t);
        enough = λ i a. ground (arith, h.enough i, next);
        bounded = omega (arith, way, h.bounded, next);
        returned = omega (arith, back, h.returned, next);
      }

  Step-unlocks :
      s.pc t ≡ stored
      → IsCounted n max
          (record s { request_mutex = none; pc = update s.pc t outside; handed = s.handed + 1 })
  Step-unlocks e =
      let way = moved_on_way stored outside e in
      let back = moved_counted stored outside e in
      record {
        owner = λ i a. ground (arith, h.owner i, h.owner t);
        fresh = λ i v a. ground (arith, h.fresh i v);
        enough = λ i a. ground (arith, h.enough i);
        bounded = omega (arith, way, h.bounded);
        returned = omega (arith, back, h.returned);
      }

Reach-IsCounted : {n max : ℕ} {s : System} → max + n < 2 ^ 32 → Reach n max s → IsCounted n max s
Reach-IsCounted {n} {max} fits start = record {
  owner = λ i a. cc;
  fresh = λ i v a. cc;
  enough = λ i a. cc;
  bounded = omega (arith, total-zero on_way (λ t. outside) n (λ i lt. refl));
  returned = omega (arith, total-zero counted (λ t. outside) n (λ i lt. refl));
}
Reach-IsCounted fits (later r (tests_more lt e few)) =
    Step-tests_more (Reach-IsCounted fits r) lt e few
Reach-IsCounted fits (later r (tests_enough lt e many)) =
    Step-tests_enough (Reach-IsCounted fits r) lt e many
Reach-IsCounted fits (later r (locks lt e free)) = Step-locks (Reach-IsCounted fits r) lt e free
Reach-IsCounted fits (later r (loads lt e)) = Step-loads (Reach-IsCounted fits r) lt e
Reach-IsCounted fits (later r (stores {t} {v} lt e)) =
    Step-stores (Reach-IsCounted fits r) lt v e fits
Reach-IsCounted fits (later r (unlocks lt e)) = Step-unlocks (Reach-IsCounted fits r) lt e

-- When all of at least one thread have been told that there is no more request, with the numbers of
-- requests and threads below 2 ^ 32 together: at least max_requests requests were handed out, and at
-- most one more for each thread but one, at any interleaving.
pub cpu_requests-performed :
    {threads max_requests : ℕ} {s : System}
    → max_requests + threads < 2 ^ 32
    → 1 ≤ threads
    → Reach threads max_requests s
    → ((i : ℕ) → i < threads → s.pc i ≡ ended)
    → (max_requests ≤ s.handed) × (s.handed ≤ max_requests + (threads - 1))
cpu_requests-performed {threads} {max_requests} {s} fits some_thread r all_ended =
    let h = Reach-IsCounted fits r in
    let none_left : total counted s.pc threads ≡ 0 =
      total-zero counted s.pc threads (λ i lt. ap counted (all_ended i lt)) in
    let enough = h.enough 0 (all_ended 0 some_thread) in
    (omega (arith, h.returned, none_left, enough), omega (arith, h.returned, h.bounded))
