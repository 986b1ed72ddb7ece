-- ===== src/Innodb/Event.antt =====
-- The events of mysql/mysql-5.6.10-glibc/storage/innobase/os/os0sync.cc with native conditions. Each
-- function holds the event's own mutex throughout, so it is one step; the count is not bounded.
use htmsql.Prelude.{ℕ, ◌+◌, Bool, true, false, not, ◌||◌, if◌then◌else◌, ◌==◌}

-- `struct os_event`, without the mutex, the condition variable and the list node
pub record OsEvent : Type 0 where
  pub is_set : Bool
  pub signal_count : ℕ

unfoldable pub os_event_create : OsEvent
os_event_create = record { is_set = false; signal_count = 1 }

unfoldable pub os_event_set : OsEvent → OsEvent
os_event_set e = if e.is_set then e else record { is_set = true; signal_count = e.signal_count + 1 }

-- The event, and the count that is returned.
unfoldable pub os_event_reset : OsEvent → OsEvent × ℕ
os_event_reset e = (record e { is_set = false }, e.signal_count)

-- The count that `os_event_wait_low` waits on: zero stands for the count at the call.
unfoldable pub wait_count : OsEvent → ℕ → ℕ
wait_count e c = if c == 0 then e.signal_count else c

-- The test that ends the while loop of `os_event_wait_low`.
unfoldable pub wait_is_over : OsEvent → ℕ → Bool
wait_is_over e c = e.is_set || not (e.signal_count == c)
