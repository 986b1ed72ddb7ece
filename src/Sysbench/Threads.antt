-- ===== src/Sysbench/Threads.antt =====
-- The threads test of mysql/bench/sysbench-0.4.12/sysbench/tests/threads/sb_threads.c. The counter of
-- requests is an unsigned int that is read and counted up under one lock, so a call is one step.
use htmsql.Prelude.{
  ℕ, zero, suc, ◌+◌, ◌%◌, ◌^◌, ◌<◌, ◌≤◌, ◌≡◌, refl, ap, ◌∙◌, Bool, true, false, List, [], ◌∷◌,
  if◌then◌else◌, leb, arith, Option, none, some,
}
use native.Mathlib.Nat.{mod-lt, mod-eq_of_lt}

-- `thread_yields` and `thread_locks`, and `sb_globals.max_requests`
pub record Settings : Type 0 where
  pub thread_yields : ℕ
  pub thread_locks : ℕ
  pub max_requests : ℕ

-- `threads_get_request`: the counter, and the number of the lock, or `none` for SB_REQ_TYPE_NULL.
unfoldable pub threads_get_request : Settings → ℕ → ℕ × Option ℕ
threads_get_request o req_performed =
    if leb o.max_requests req_performed
    then (req_performed, none)
    else ((req_performed + 1) % 2 ^ 32, some (req_performed % o.thread_locks))

pub data Action : Type 0 where
  lock unlock : (lock_num : ℕ) → Action
  yield : Action

-- `threads_execute_request`: what a thread does for a request, in its order.
unfoldable pub threads_execute_request : (thread_yields lock_num : ℕ) → List Action
threads_execute_request zero l = []
threads_execute_request (suc n) l = lock l ∷ yield ∷ unlock l ∷ threads_execute_request n l

-- The counter behind some calls, by whichever threads.
unfoldable pub calls : Settings → ℕ → ℕ → ℕ
calls o zero c = c
calls o (suc n) c = (threads_get_request o (calls o n c)).0

-- Whether a thread can do the actions while no other one runs: it takes no lock twice and gives back
-- no other one. The last argument is the lock that it holds.
unfoldable pub is_balanced : List Action → Option ℕ → Bool
is_balanced [] none = true
is_balanced [] (some l) = false
is_balanced (lock l ∷ more) none = is_balanced more (some l)
is_balanced (lock l ∷ more) (some k) = false
is_balanced (unlock l ∷ more) none = false
is_balanced (unlock l ∷ more) (some k) =
    if leb l k then if leb k l then is_balanced more none else false else false
is_balanced (yield ∷ more) held = is_balanced more held

get-some :
    (o : Settings) (c : ℕ)
    → c < o.max_requests
    → threads_get_request o c ≡ ((c + 1) % 2 ^ 32, some (c % o.thread_locks))
unfolding threads_get_request
get-some o c h = let e : leb o.max_requests c ≡ false = ground arith in rw e refl

get-none : (o : Settings) (c : ℕ) → o.max_requests ≤ c → threads_get_request o c ≡ (c, none)
unfolding threads_get_request
get-none o c h = let e : leb o.max_requests c ≡ true = ground arith in rw e refl

calls-counter :
    (o : Settings) (n : ℕ) → o.max_requests < 2 ^ 32 → n ≤ o.max_requests → calls o n 0 ≡ n
unfolding calls
calls-counter o zero w h = refl
calls-counter o (suc n) w h =
    let before = calls-counter o n w (omega (arith, h)) in
    ap (λ c. (threads_get_request o c).0) before
    ∙ ap (λ q. q.0) (get-some o n (omega (arith, h)))
    ∙ mod-eq_of_lt (omega (arith, w, h))
    ∙ omega arith

-- With at least one lock, the calls hand out exactly `max_requests` requests, the n-th one with the
-- n-th lock in turn, which is a lock of the test, and nothing behind them.
pub threads_get_request_lem :
    (o : Settings)
    → 1 ≤ o.thread_locks
    → o.max_requests < 2 ^ 32
    → ((n : ℕ)
        → n < o.max_requests
        → ((threads_get_request o (calls o n 0)).1 ≡ some (n % o.thread_locks))
          × (n % o.thread_locks < o.thread_locks))
      × (threads_get_request o (calls o o.max_requests 0) ≡ (o.max_requests, none))
threads_get_request_lem o some_lock w = (
  (λ n h. (
    ap (λ c. (threads_get_request o c).1) (calls-counter o n w (omega (arith, h)))
        ∙ ap (λ q. q.1) (get-some o n h),
    mod-lt n some_lock,
  )),
  ap (threads_get_request o) (calls-counter o o.max_requests w (omega arith))
      ∙ get-none o o.max_requests (omega arith),
)

-- A request takes its lock and gives it back in turn, and holds none in the end.
pub threads_execute_request-is_balanced :
    (n l : ℕ) → is_balanced (threads_execute_request n l) none ≡ true
unfolding threads_execute_request is_balanced
threads_execute_request-is_balanced zero l = refl
threads_execute_request-is_balanced (suc n) l =
    ground (arith, threads_execute_request-is_balanced n l)
