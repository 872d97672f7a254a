-- ===== src/Semaphore/Bounds.antt =====
-- `semaphore_wait` and `semaphore_signal` take and add what is there, within the bounds.
use Prim.Native.Nat.{min}
use hexahedron.Base.{ℕ, suc, ◌+◌, ◌-◌, ◌^◌, ◌≤◌, ◌<◌, ◌≡◌, true, arith, refl, ◌∙◌}
use hexahedron.Base.Int.{pos, negsuc, ◌+ℤ◌, ◌-ℤ◌}
use hexahedron.Base.Outcome.{done, panic}
use hexahedron.Semaphore.{Semaphore, create, wait, signal, get_items}

-- A semaphore that holds items: `semaphore_wait` takes as many as asked for, or all if there are
-- fewer, and what it returns is what the semaphore loses. On an empty semaphore it panics.
pub wait_lem :
    (v most n : ℕ)
    → v < 2 ^ 31
    → (0 < v
        → wait (pos n) (create (pos v) (pos most))
          ≡ done (pos (min n v)) (create (pos (v - n)) (pos most)))
      × (v ≡ 0
          → wait (pos n) (create (pos v) (pos most))
            ≡ panic (record (create (pos v) (pos most)) { lock = true }))
unfolding wait create ◌-ℤ◌
wait_lem v most n h = ((λ l. ground arith), (λ e. ground arith))

-- A semaphore below its maximum: `semaphore_signal` adds as many items as asked for, or as many as
-- the maximum allows, and returns their number. At the maximum it panics.
pub signal_lem :
    (v most n : ℕ)
    → v + n < 2 ^ 31
    → 0 < most
    → most < 2 ^ 31
    → (v < most
        → signal (pos n) (create (pos v) (pos most))
          ≡ done (pos (min n (most - v))) (create (pos (min (v + n) most)) (pos most)))
      × (most ≤ v
          → signal (pos n) (create (pos v) (pos most))
            ≡ panic (record (create (pos v) (pos most)) { lock = true }))
unfolding signal create ◌+ℤ◌ ◌-ℤ◌
signal_lem v most n h positive small = ((λ l. ground arith), (λ e. ground arith))

-- With the maximum 0, `semaphore_signal` of a semaphore that holds items takes them all, and returns
-- a negative number.
pub signal-empties :
    (v n : ℕ)
    → suc v + n < 2 ^ 31
    → signal (pos n) (create (pos (suc v)) (pos 0)) ≡ done (negsuc v) (create (pos 0) (pos 0))
unfolding signal create ◌+ℤ◌ ◌-ℤ◌
signal-empties v n h = ground arith

-- A semaphore below its maximum, whose value and the items asked for are not both none and fit an `int`
-- together: `semaphore_signal` adds as many items as asked for, or as the maximum allows, stays within the
-- maximum, and returns their number; `semaphore_wait` for that number takes them out again, returns it
-- too, and leaves the semaphore as it was.
pub wait-signal :
    (v most n : ℕ)
    → v + n < 2 ^ 31
    → 0 < v + n
    → v < most
    → most < 2 ^ 31
    → (added : ℕ) × (t : Semaphore) × (signal (pos n) (create (pos v) (pos most))
        ≡ done (pos added) t)
      × (added ≡ min n (most - v))
      × (get_items t ≡ pos (v + added))
      × (v + added ≤ most)
      × (wait (pos added) t ≡ done (pos added) (create (pos v) (pos most)))
unfolding get_items create
wait-signal v most n h some below small =
    let added = min n (most - v) in
    let sum : v + added ≡ min (v + n) most = ground arith in
    let back : v + added - v ≡ added = omega arith in
    let rest : v + added - added ≡ v = omega arith in
    (
      added,
      create (pos (v + added)) (pos most),
      (signal_lem v most n h (omega arith) small).0 below ∙ ground (arith, sum),
      refl,
      refl,
      omega arith,
      (wait_lem (v + added) most added (omega arith)).0 (omega arith)
          ∙ (let least : min added (v + added) ≡ added = omega arith in rw (least, rest) refl),
    )
