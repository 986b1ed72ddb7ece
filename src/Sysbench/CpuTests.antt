-- ===== src/Sysbench/CpuTests.antt =====
-- Two threads of the cpu test ask for the one request.
use htmsql.Prelude.{ℕ, ◌+◌, ◌-◌, ◌<◌, ◌≤◌, ◌≡◌, refl, arith}
use htmsql.Sysbench.Cpu.Requests.{
  System, ended, Reach, start, later, tests_more, tests_enough, locks, loads, stores, unlocks,
}
use htmsql.Sysbench.Cpu.Requests.Counted.{cpu_requests-performed}

-- Both have passed the test before one of them counts.
both_served : (s : System) × Reach 2 1 s × ((i : ℕ) → i < 2 → s.pc i ≡ ended) × (s.handed ≡ 2)
both_served = (
  _,
  later
      (later
        (later
          (later
            (later
              (later
                (later
                  (later
                    (later
                      (later
                        (later (later start (tests_more {t = 0} (omega arith) refl (omega arith)))
                          (tests_more {t = 1} (omega arith) refl (omega arith)))
                        (locks {t = 0} (omega arith) refl refl))
                      (loads {t = 0} (omega arith) refl))
                    (stores {t = 0} (omega arith) refl))
                  (unlocks {t = 0} (omega arith) refl))
                (locks {t = 1} (omega arith) refl refl))
              (loads {t = 1} (omega arith) refl))
            (stores {t = 1} (omega arith) refl))
          (unlocks {t = 1} (omega arith) refl))
        (tests_enough {t = 0} (omega arith) refl (omega arith)))
      (tests_enough {t = 1} (omega arith) refl (omega arith)),
  (λ i lt. ground arith),
  refl,
)

cpu_requests-performed_example : (1 ≤ both_served.0.handed) × (both_served.0.handed ≤ 1 + (2 - 1))
cpu_requests-performed_example =
    cpu_requests-performed (omega arith) (omega arith) both_served.1 both_served.2
