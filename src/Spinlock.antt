-- ===== src/Spinlock.antt =====
-- hexahedron/misc/spinlock.c: one lock and the processors that call `spinlock_acquire` and
-- `spinlock_release` on it. A step is one atomic operation on the flag, or the start of a call by a
-- processor that is not in the loop. Neither function looks who calls it: a processor that holds the lock may
-- ask for it again, and one that does not may release it. IsProper says that none does.
pub mod Exclusion
mod Examples
use hexahedron.Base.{ℕ, Bool, true, false, ◌≡◌, ◌≢◌, ◌==◌, if◌then◌else◌}

-- where a processor stands: outside, in the loop of `spinlock_acquire`, or behind it
pub data Pc : Type 0 where
  outside : Pc
  spinning : Pc
  holding : Pc

pub record System : Type 0 where
  pub lock : Bool
  pub pc : ℕ → Pc

-- `atomic_flag_test_and_set` : what the flag was
abbrev pub test_and_set : System → Bool
test_and_set s = s.lock

abbrev pub move : System → ℕ → Bool → Pc → System
move s i lock p = record { lock = lock; pc = λ j. if j == i then p else s.pc j }

-- `spinlock_create` clears the flag.
abbrev pub create : System
create = record { lock = false; pc = λ i. outside }

-- one round of the loop of `spinlock_acquire`
unfoldable pub acquire_round : ℕ → System → System
acquire_round i s = move s i true (if test_and_set s then spinning else holding)

-- The flag is cleared, whoever calls.
unfoldable pub release : ℕ → System → System
release i s = move s i false outside

pub data Step (s : System) : System → Type 0 where
  call : (i : ℕ) → s.pc i ≢ spinning → Step s (move s i s.lock spinning)
  spin : (i : ℕ) → s.pc i ≡ spinning → Step s (acquire_round i s)
  leave : (i : ℕ) → s.pc i ≢ spinning → Step s (release i s)

pub data Reach (s : System) : System → Type 0 where
  here : Reach s s
  next : {t u : System} → Reach s t → Step t u → Reach s u

-- A processor asks for the lock only when it does not hold it, and releases it only when it does.
abbrev pub IsProperStep : {s t : System} → Step s t → Type 0
IsProperStep {s} (call i e) = s.pc i ≡ outside
IsProperStep (spin i e) = Unit {0}
IsProperStep {s} (leave i e) = s.pc i ≡ holding

abbrev pub IsProper : {s t : System} → Reach s t → Type 0
IsProper here = Unit {0}
IsProper (next r st) = IsProper r × IsProperStep st
