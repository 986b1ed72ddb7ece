-- ===== src/Innodb/UnfencedTests.antt =====
-- The lost wakeup with 30 spin rounds.
use htmsql.Prelude.{ℕ, ◌≡◌, ◌≢◌, false}
use htmsql.Innodb.Event.{wait_is_over}
use htmsql.Innodb.Mutex.{outside, sleep}
use htmsql.Innodb.Mutex.Unfenced.{Buffered, BufferedReach, lost_wakeup}

lost_wakeup_example :
    (b : Buffered) × BufferedReach 30 b
    × (b.system.pc 1 ≡ sleep 1)
    × (wait_is_over b.system.mutex.event 1 ≡ false)
    × (b.system.mutex.lock_word ≡ 0)
    × ((j : ℕ) → j ≢ 1 → b.system.pc j ≡ outside)
    × ((j : ℕ) → b.resets j ≡ false)
lost_wakeup_example = lost_wakeup 30
