-- ===== src/Innodb/Elision/Invariant.antt =====
-- What every reachable state of the mutex with transactions satisfies.
use htmsql.Prelude.{
  ℕ, ◌≤◌, ◌≡◌, refl, subst, true, false, ◌==◌, update, inl, inr, Bool-cases, arith,
}
use htmsql.Innodb.Mutex
use htmsql.Innodb.Mutex.{IbMutex, mutex_create_func, Pc, outside, owner, check, Move, pick}
use htmsql.Innodb.Mutex.Invariant.{Inv, Inv-init, Step-Inv}
use htmsql.Innodb.Elision.{
  RtmLock, Layer, idle, trying, begun, speculating, fallback, released, closing, failed, noticed,
  System, at_layer, moved, behind, Step, calls, starts, is_refused, goes_on, aborts_itself,
  aborted_begun, aborted, moves, commits, checks, signals, init, Reach, start, later,
}

-- The mutex and its threads alone.
abbrev pub plain : System → Mutex.System
plain s = record { mutex = s.mutex; pc = s.pc }

-- Of one thread: outside of the fallback and of the look at the waiters it is in no function of the
-- mutex, a transaction that has read the lock word has read 0, and the retries are bounded.
abbrev pub IsPlaced : RtmLock → IbMutex → Pc → Layer → Type 0
IsPlaced v m p idle = p ≡ outside
IsPlaced v m p (trying k) = (p ≡ outside) × (k ≤ v.max_retries)
IsPlaced v m p (begun k) = (p ≡ outside) × (k ≤ v.max_retries)
IsPlaced v m p (speculating k) =
    (p ≡ outside) × (k ≤ v.max_retries) × (v.reads_lock_word ≡ true → m.lock_word ≡ 0)
IsPlaced v m p fallback = Unit
IsPlaced v m p released = p ≡ outside
IsPlaced v m p closing = Unit

pub record IsElided (v : RtmLock) (s : System) : Type 0 where
  pub mutex : Inv (plain s)
  pub placed : (i : ℕ) → IsPlaced v s.mutex (s.pc i) (s.layer i)

-- A thread outside may look at the waiters once more.
Inv-check :
    {s : Mutex.System} (inv : Inv s) (t : ℕ)
    → s.pc t ≡ outside
    → Inv (record s { pc = update s.pc t check })
Inv-check {s} inv t out = record {
  taken = λ i q. ground (arith, inv.taken i);
  owned = λ h. let (i, at) = inv.owned h in (i, ground arith);
  unique = λ i j q w. ground (arith, inv.unique i j);
  started = inv.started;
  recent = λ i c q. ground (arith, inv.recent i c);
  seen = λ i c a q h. elim (inv.seen i c (ground arith) (ground arith) h) [
    | inl some_wait ↦ inl some_wait
    | inr (j, at) ↦ inr (j, ground arith)
  ];
  served = λ i c q h. let (j, at) = inv.served i c (ground arith) h in (j, ground arith);
}

module _ (v : RtmLock) (m : IbMutex) (p : Pc) where
  IsPlaced-failed : (k : ℕ) → p ≡ outside → IsPlaced v m p (failed v k)
  unfolding failed
  IsPlaced-failed k out = ground arith

  -- The others notice what a thread does to the lock word.
  IsPlaced-noticed :
      (m' : IbMutex) (l : Layer) → IsPlaced v m p l → IsPlaced v m' p (noticed v m m' l)
  unfolding noticed
  IsPlaced-noticed m' idle h = h
  IsPlaced-noticed m' (trying k) h = h
  IsPlaced-noticed m' (begun k) h = h
  IsPlaced-noticed m' fallback h = h
  IsPlaced-noticed m' released h = h
  IsPlaced-noticed m' closing h = h
  IsPlaced-noticed m' (speculating k) h = ground arith

-- What holds of the new place of thread `t` and of the old places of the others holds of all.
by_thread :
    (f : ℕ → Layer) (P : ℕ → Layer → Type 0) (t : ℕ) (l : Layer)
    → P t l
    → ((i : ℕ) → (t == i) ≡ false → P i (f i))
    → (i : ℕ) → P i (update f t l i)
by_thread f P t l new old i = elim (Bool-cases (t == i)) [
  | inl eq ↦ rw eq (subst (λ j. P j l) (let e : t ≡ i = ground arith in e) new)
  | inr ne ↦ rw ne (old i ne)
]

IsPlaced-behind :
    (v : RtmLock) (m : IbMutex) (stays leaves : Layer) (p : Pc)
    → IsPlaced v m p stays
    → (p ≡ outside → IsPlaced v m p leaves)
    → IsPlaced v m p (behind stays leaves p)
unfolding behind
IsPlaced-behind v m stays leaves outside a b = b refl
IsPlaced-behind v m stays leaves p a b = a

module _ {v : RtmLock} {s : System} (inv : IsElided v s) where
  -- Of one thread the layer changes alone.
  IsElided-layer : (t : ℕ) (l : Layer) → IsPlaced v s.mutex (s.pc t) l → IsElided v (at_layer s t l)
  IsElided-layer t l new = record {
    mutex = inv.mutex;
    placed = by_thread s.layer (λ i k. IsPlaced v s.mutex (s.pc i) k) t l new (λ i _. inv.placed i);
  }

  IsElided-failed : (t k : ℕ) → s.pc t ≡ outside → IsElided v (at_layer s t (failed v k))
  IsElided-failed t k out = IsElided-layer t (failed v k) (IsPlaced-failed v s.mutex (s.pc t) k out)

  -- It moves in a function of the mutex.
  IsElided-moved :
      {rounds : ℕ} (t : ℕ) {m : IbMutex} {p : Pc} (l : Layer)
      → Move rounds s.mutex (s.pc t) m p
      → IsPlaced v m p l
      → IsElided v (moved v s t m p l)
  IsElided-moved t {m} {p} l mv new = record {
    mutex = Step-Inv (pick t mv) inv.mutex;
    placed =
        by_thread (λ i. noticed v s.mutex m (s.layer i)) (λ i k. IsPlaced v m (update s.pc t p i) k)
          t l (let e : (t == t) ≡ true = ground arith in rw e new)
          λ i other. rw other (IsPlaced-noticed v s.mutex (s.pc i) m (s.layer i) (inv.placed i));
  }

  IsElided-checks :
      (t : ℕ)
      → s.pc t ≡ outside
      → IsElided v (record s { pc = update s.pc t check; layer = update s.layer t closing })
  IsElided-checks t out = record {
    mutex = Inv-check inv.mutex t out;
    placed =
        by_thread s.layer (λ i k. IsPlaced v s.mutex (update s.pc t check i) k) t closing tt
          λ i other. rw other (inv.placed i);
  }

  at : (t : ℕ) {l : Layer} → s.layer t ≡ l → IsPlaced v s.mutex (s.pc t) l
  at t e = subst (λ k. IsPlaced v s.mutex (s.pc t) k) e (inv.placed t)

Step-IsElided :
    {v : RtmLock} {rounds : ℕ} {s u : System} → Step v rounds s u → IsElided v s → IsElided v u
Step-IsElided (calls {t} e) inv = IsElided-layer inv t (trying 0) (at inv t e, omega arith)
Step-IsElided (starts {t} {k} e) inv = IsElided-layer inv t (begun k) (at inv t e)
Step-IsElided (is_refused {t} {k} e) inv = IsElided-failed inv t k (at inv t e).0
Step-IsElided (goes_on {t} {k} e free) inv =
    IsElided-layer inv t (speculating k) ((at inv t e).0, (at inv t e).1, free)
Step-IsElided (aborts_itself {t} {k} e reads busy) inv = IsElided-failed inv t k (at inv t e).0
Step-IsElided (aborted_begun {t} {k} e) inv = IsElided-failed inv t k (at inv t e).0
Step-IsElided (aborted {t} {k} e) inv = IsElided-failed inv t k (at inv t e).0
Step-IsElided {v} (moves {t} {m} {p} e mv enters) inv =
    IsElided-moved inv t (behind fallback released p) mv
      (IsPlaced-behind v m fallback released p tt λ q. q)
Step-IsElided (commits {t} e) inv = IsElided-layer inv t released (at inv t e).0
Step-IsElided (checks {t} e) inv = IsElided-checks inv t (at inv t e)
Step-IsElided {v} (signals {t} {m} {p} e mv) inv =
    IsElided-moved inv t (behind closing idle p) mv (IsPlaced-behind v m closing idle p tt λ q. q)

init-IsElided : (v : RtmLock) → IsElided v init
init-IsElided v = record { mutex = Inv-init; placed = λ i. refl }

pub Reach-IsElided : {v : RtmLock} {rounds : ℕ} {s : System} → Reach v rounds s → IsElided v s
Reach-IsElided {v} start = init-IsElided v
Reach-IsElided (later r st) = Step-IsElided st (Reach-IsElided r)
