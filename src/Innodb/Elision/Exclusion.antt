-- ===== src/Innodb/Elision/Exclusion.antt =====
-- A transaction and an owner of the mutex exclude each other where `rtm_lock` reads the lock word.
use htmsql.Prelude.{ℕ, ◌≡◌, ◌≢◌, true, subst}
use htmsql.Innodb.Mutex.{owner}
use htmsql.Innodb.Elision.{RtmLock, speculating, System, Reach}
use htmsql.Innodb.Elision.Invariant.{IsPlaced, Reach-IsElided}

-- Where `rtm_lock` reads the lock word, as that of syslock-rtm does: in every reachable state, while
-- a transaction is in its critical section no thread owns the mutex; at any time at most one thread
-- owns it, and then the lock word is not 0.
pub elided_exclusion :
    {v : RtmLock} {rounds : ℕ} {s : System}
    → v.reads_lock_word ≡ true
    → Reach v rounds s
    → ((i j k : ℕ) → s.layer i ≡ speculating k → s.pc j ≢ owner)
      × ((i j : ℕ) → s.pc i ≡ owner → s.pc j ≡ owner → i ≡ j)
      × ((i : ℕ) → s.pc i ≡ owner → s.mutex.lock_word ≢ 0)
elided_exclusion {v} {s} reads r =
    let inv = Reach-IsElided r in
    (
      λ i j k spec own.
          let here = subst (λ l. IsPlaced v s.mutex (s.pc i) l) spec (inv.placed i) in
          inv.mutex.taken j own (here.2 reads),
      inv.mutex.unique,
      inv.mutex.taken,
    )
