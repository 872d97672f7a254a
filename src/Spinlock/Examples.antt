-- ===== src/Spinlock/Examples.antt =====
-- Two processors that want the lock.
use hexahedron.Base.{ℕ, ◌≡◌, ◌≢◌, refl, false, true}
use hexahedron.Spinlock.{
  spinning, holding, outside, System, create, move, acquire_round, release, Step, call, spin, Reach,
  here, next, IsProper,
}
use hexahedron.Spinlock.Exclusion.{mutual_exclusion, acquire_progress}

abbrev both_called : System
both_called = move (move create 0 false spinning) 1 false spinning

-- processor 0 has the lock, processor 1 spins
abbrev contended : System
contended = acquire_round 0 both_called

apart : outside ≢ spinning
apart e = cc

abbrev contended-Reach : Reach create contended
contended-Reach = next (next (next here (call 0 apart)) (call 1 apart)) (spin 0 refl)

contended-IsProper : IsProper contended-Reach
contended-IsProper = (((tt, refl), refl), tt)

mutual_exclusion_example : ◌≡◌ {A = ℕ} 0 0
unfolding acquire_round
mutual_exclusion_example = mutual_exclusion contended-Reach contended-IsProper 0 0 refl refl

acquire_progress_example :
    (((j : ℕ) → contended.pc j ≢ holding) → (acquire_round 1 contended).pc 1 ≡ holding)
    × ((j : ℕ)
        → contended.pc j ≡ holding
        → ((k : ℕ) → (acquire_round 1 contended).pc k ≡ contended.pc k)
          × ((acquire_round 1 contended).lock ≡ true)
          × Step contended (release j contended)
          × Step (release j contended) (acquire_round 1 (release j contended))
          × ((acquire_round 1 (release j contended)).pc 1 ≡ holding)
          × ((k : ℕ) → (acquire_round 1 (release j contended)).pc k ≡ holding → k ≡ 1))
unfolding acquire_round
acquire_progress_example = acquire_progress contended-Reach contended-IsProper 1 refl
