-- ===== src/Bitmap/Frames.antt =====
-- What setting and clearing a frame does to every frame.
use hexahedron.Base.{ℕ, ◌-◌, ◌/◌, ◌%◌, ◌^◌, ◌≡◌, not, ◌&&◌, ◌||◌, arith, ◌==◌, if◌then◌else◌}
use native.Mathlib.Nat.{one-le-pow}
use hexahedron.Base.Bits.{
  bit, bit_lt_two, bit-bit_or, bit-bit_and, bit-two_pow, bit-complement, bit_or_lt, bit_and_lt,
  bit_and-two_pow, two_pow_lt,
}
use hexahedron.Bitmap.{Words, IsWords, set_frame, clear_frame, is_taken}

-- A frame is taken if its bit is 1.
pub is_taken-bit : (w : Words) (f : ℕ) → IsWords w → is_taken w f ≡ (bit (w (f / 32)) (f % 32) == 1)
unfolding is_taken
is_taken-bit w f h = ground (
  arith,
  bit_and-two_pow (f % 32) (w (f / 32)) 32 (h (f / 32)),
  bit_lt_two (w (f / 32)) (f % 32),
  one-le-pow (f % 32) 2,
)

module _ (w : Words) (h : IsWords w) where
  pub set_frame-IsWords : (f : ℕ) → IsWords (set_frame w f)
  unfolding set_frame
  set_frame-IsWords f i = ground (
    arith,
    h i,
    bit_or_lt 32 (w (f / 32)) (2 ^ (f % 32)) (h (f / 32)) (two_pow_lt (f % 32) 32 (omega arith)),
  )

  pub clear_frame-IsWords : (f : ℕ) → IsWords (clear_frame w f)
  unfolding clear_frame
  clear_frame-IsWords f i = ground (
    arith,
    h i,
    bit_and_lt 32 (w (f / 32)) (2 ^ 32 - 1 - 2 ^ (f % 32)) (h (f / 32)) (omega arith),
  )

  bit-set_frame :
      (f g : ℕ)
      → bit (set_frame w f (g / 32)) (g % 32) ≡ (if f == g then 1 else bit (w (g / 32)) (g % 32))
  unfolding set_frame
  bit-set_frame f g = ground (
    arith,
    bit-bit_or (w (f / 32)) (2 ^ (f % 32)) (g % 32),
    bit-two_pow (f % 32) (g % 32),
    bit_lt_two (w (f / 32)) (g % 32),
    bit_lt_two (w (g / 32)) (g % 32),
  )

  bit-clear_frame :
      (f g : ℕ)
      → bit (clear_frame w f (g / 32)) (g % 32) ≡ (if f == g then 0 else bit (w (g / 32)) (g % 32))
  unfolding clear_frame
  bit-clear_frame f g = ground (
    arith,
    bit-bit_and (w (f / 32)) (2 ^ 32 - 1 - 2 ^ (f % 32)) (g % 32),
    bit-complement 32 (2 ^ (f % 32)) (g % 32) (two_pow_lt (f % 32) 32 (omega arith)) (omega arith),
    bit-two_pow (f % 32) (g % 32),
    bit_lt_two (w (f / 32)) (g % 32),
    bit_lt_two (w (g / 32)) (g % 32),
  )

  -- Setting a frame takes it and leaves every other frame as it was.
  pub is_taken-set : (f g : ℕ) → is_taken (set_frame w f) g ≡ ((f == g) || is_taken w g)
  is_taken-set f g = ground (
    arith,
    is_taken-bit (set_frame w f) g (set_frame-IsWords f),
    is_taken-bit w g h,
    bit-set_frame f g,
  )

  -- Clearing a frame frees it and leaves every other frame as it was.
  pub is_taken-clear : (f g : ℕ) → is_taken (clear_frame w f) g ≡ (not (f == g) && is_taken w g)
  is_taken-clear f g = ground (
    arith,
    is_taken-bit (clear_frame w f) g (clear_frame-IsWords f),
    is_taken-bit w g h,
    bit-clear_frame f g,
  )
