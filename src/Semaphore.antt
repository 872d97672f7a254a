-- ===== src/Semaphore.antt =====
-- hexahedron/misc/semaphore.c: a counter with a lock. A sum of two `int` that leaves the range of 32 bits
-- is a fault.
pub mod Bounds
mod Examples
use hexahedron.Base.{ℕ, ◌+◌, ◌^◌, Bool, true, false, not, ◌&&◌, ltb, leb, if◌then◌else◌}
use hexahedron.Base.Int.{ℤ, pos, negsuc, pos_part, neg_part, ◌+ℤ◌, ◌-ℤ◌, ltb_ℤ}
use hexahedron.Base.Outcome.{Outcome, done, panic, hang, fault, Op, ◌>>=◌, ◌>>◌, pure}
use hexahedron.Libc.Strings.{eq_ℤ}
use hexahedron.Libc.Ctype.{leb_ℤ}

pub record Semaphore : Type 0 where
  pub lock : Bool
  pub value : ℤ
  pub max_value : ℤ

abbrev pub SemaphoreOp : Type 0 → Type 0
SemaphoreOp A = Op Semaphore A

unfoldable pub create : ℤ → ℤ → Semaphore
create value max_value = record { lock = false; value = value; max_value = max_value }

unfoldable pub acquire : SemaphoreOp (Unit {0})
acquire s = if s.lock then hang else done tt (record s { lock = true })

unfoldable pub release : SemaphoreOp (Unit {0})
release s = done tt (record s { lock = false })

-- goes on with a number that an `int` can hold
abbrev pub with_int : {A : Type 0} → ℤ → (ℤ → SemaphoreOp A) → SemaphoreOp A
with_int z f s = if ltb (pos_part z) (2 ^ 31) && leb (neg_part z) (2 ^ 31) then f z s else fault

-- The items are taken, or added, and the lock is released.
unfoldable pub set_value : ℤ → ℤ → SemaphoreOp ℤ
unfolding release
set_value items value = (λ s. done tt (record s { value = value })) >> release >> pure items

unfoldable pub wait : ℤ → SemaphoreOp ℤ
unfolding acquire set_value ◌-ℤ◌
wait items = acquire >> (λ s.
    if ltb_ℤ (pos 0) s.value
    then (let items_taken = if ltb_ℤ items s.value then items else s.value in
        with_int (s.value -ℤ items_taken) (set_value items_taken) s)
    else panic s)

unfoldable pub signal : ℤ → SemaphoreOp ℤ
unfolding acquire set_value ◌+ℤ◌ ◌-ℤ◌
signal items = acquire >> (λ s.
    if not (eq_ℤ s.max_value (pos 0)) && leb_ℤ s.max_value s.value
    then panic s
    else with_int (s.value +ℤ items)
        (λ sum t.
          if ltb_ℤ s.max_value sum
          then with_int (s.max_value -ℤ s.value)
              (λ items_added. set_value items_added (s.value +ℤ items_added)) t
          else set_value items sum t)
        s)

unfoldable pub get_items : Semaphore → ℤ
get_items s = s.value
