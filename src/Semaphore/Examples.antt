-- ===== src/Semaphore/Examples.antt =====
-- A semaphore of at most five items.
use hexahedron.Base.{ℕ, ◌<◌, ◌≤◌, ◌+◌, ◌≡◌, true, arith}
use hexahedron.Base.Int.{pos}
use hexahedron.Base.Outcome.{done, panic}
use hexahedron.Semaphore.{Semaphore, create, wait, signal, get_items}
use hexahedron.Semaphore.Bounds.{wait_lem, wait-signal}

wait_example :
    (0 < 2 → wait (pos 7) (create (pos 2) (pos 5)) ≡ done (pos 2) (create (pos 0) (pos 5)))
    × (◌≡◌ {A = ℕ} 2 0
        → wait (pos 7) (create (pos 2) (pos 5))
          ≡ panic (record (create (pos 2) (pos 5)) { lock = true }))
wait_example = wait_lem 2 5 7 (omega arith)

wait-signal_example :
    (added : ℕ) × (t : Semaphore) × (signal (pos 7) (create (pos 2) (pos 5)) ≡ done (pos added) t)
    × (added ≡ 3)
    × (get_items t ≡ pos (2 + added))
    × (2 + added ≤ 5)
    × (wait (pos added) t ≡ done (pos added) (create (pos 2) (pos 5)))
wait-signal_example = wait-signal 2 5 7 (omega arith) (omega arith) (omega arith) (omega arith)
