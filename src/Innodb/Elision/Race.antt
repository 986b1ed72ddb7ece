-- ===== src/Innodb/Elision/Race.antt =====
-- A transaction beside an owner of the mutex where `rtm_lock` does not read the lock word.
use htmsql.Prelude.{ℕ, zero, suc, ◌≤◌, ◌≡◌, refl, sym, subst, false, arith}
use htmsql.Innodb.Mutex.{mutex_create_func, outside, owner, enter, Move, ib_mutex_test_and_set}
use htmsql.Innodb.Elision.{
  RtmLock, Layer, trying, speculating, fallback, begun, released, failed, noticed, System, at_layer,
  moved, behind, calls, starts, is_refused, goes_on, moves, init, Reach, later, start,
}

-- Thread 0 is in the critical section of its transaction, and thread 1 at `l` in front of the mutex.
record Beside (v : RtmLock) (rounds : ℕ) (l : Layer) : Type 0 where
  s : System
  reached : Reach v rounds s
  first : s.layer 0 ≡ speculating 0
  second : s.layer 1 ≡ l
  out : s.pc 1 ≡ outside
  free : s.mutex.lock_word ≡ 0

module _ (v : RtmLock) (rounds : ℕ) where
  Beside-start : v.reads_lock_word ≡ false → Beside v rounds (trying 0)
  unfolding mutex_create_func
  Beside-start unread = record {
    s =
        at_layer (at_layer (at_layer (at_layer init 0 (trying 0)) 0 (begun 0)) 0 (speculating 0)) 1
          (trying 0);
    reached =
        later (later (later (later start (calls refl)) (starts refl)) (goes_on refl (λ reads. cc)))
          (calls refl);
    first = refl;
    second = refl;
    out = refl;
    free = refl;
  }

  Beside-refused : {k : ℕ} → Beside v rounds (trying k) → Beside v rounds (failed v k)
  Beside-refused {k} b = record {
    s = at_layer b.s 1 (failed v k);
    reached = later b.reached (is_refused b.second);
    first = b.first;
    second = refl;
    out = b.out;
    free = b.free;
  }

  tried : (k : ℕ) → v.reads_lock_word ≡ false → k ≤ v.max_retries → Beside v rounds (trying k)
  tried zero unread h = Beside-start unread
  tried (suc k) unread h =
      let e : failed v k ≡ trying (suc k) = unfold failed in ground arith in
      subst (Beside v rounds) e (Beside-refused (tried k unread (omega arith)))

  falls_back : v.reads_lock_word ≡ false → Beside v rounds fallback
  falls_back unread =
      let e : failed v v.max_retries ≡ fallback = unfold failed in ground arith in
      subst (Beside v rounds) e (Beside-refused (tried v.max_retries unread (omega arith)))

-- Where it does not, as in trx_lock_func-rtm: whatever the retries are, a state is reachable in which
-- a transaction of one thread is in its critical section while another thread owns the mutex.
pub unread_race :
    (v : RtmLock) (rounds : ℕ)
    → v.reads_lock_word ≡ false
    → (s : System) × Reach v rounds s × ((k : ℕ) × (s.layer 0 ≡ speculating k)) × (s.pc 1 ≡ owner)
unfolding noticed behind
unread_race v rounds unread =
    let b = falls_back v rounds unread in
    let enters =
      subst (λ p. Move rounds b.s.mutex p (ib_mutex_test_and_set b.s.mutex).0 owner) (sym b.out)
        (enter b.free) in
    (
      moved v b.s 1 (ib_mutex_test_and_set b.s.mutex).0 owner (behind fallback released owner),
      later b.reached (moves b.second enters (λ _. λ e. cc)),
      (0, rw (b.first, unread) refl),
      refl,
    )
