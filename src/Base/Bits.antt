-- ===== src/Base/Bits.antt =====
-- Bits of machine words: `|`, `&` and `~` of a one-bit mask, at every width.
use Prim.Native.Nat.{min, max, digits, bitwise, bit_and-bitwise, bit_or-bitwise}
use native.Mathlib.Nat.{pow-suc, one-le-pow}
use native.Mathlib.Decide.{dec_le}
use hexahedron.Base.{
  ℕ, zero, suc, ◌+◌, ◌-◌, ◌*◌, ◌/◌, ◌%◌, ◌^◌, ◌≤◌, ◌<◌, bit_and, bit_or, ◌≡◌, refl, arith, ◌==◌,
  if◌then◌else◌, ap, sym, ◌∙◌,
}

-- The native operations recur on the digits, with a count that the first number is enough for.
module _ (last : ℕ → ℕ) (op : ℕ → ℕ → ℕ) where
  spare_count : (c x y : ℕ) → x ≤ c → digits last op (suc c) x y ≡ digits last op c x y
  spare_count zero zero y h = refl
  spare_count (suc c) zero y h = refl
  spare_count zero (suc x) y h = absurd (omega arith)
  spare_count (suc c) (suc x) y h =
      ap (λ t. t * 2 + op (suc x % 2) (y % 2)) (spare_count c (suc x / 2) (y / 2) (omega arith))

  settled : (c x y : ℕ) → x ≤ c → digits last op c x y ≡ bitwise last op x y
  settled zero x y h = let e : x ≡ 0 = omega arith in rw e
  settled (suc c) x y h = elim (dec_le x c) [
    | yes less ↦ spare_count c x y less ∙ settled c x y less
    | no more ↦ let e : x ≡ suc c = omega arith in rw e
  ]

  front_digits :
      (x y : ℕ)
      → bitwise last op (suc x) y ≡ bitwise last op (suc x / 2) (y / 2) * 2 + op (suc x % 2) (y % 2)
  front_digits x y =
      ap (λ t. t * 2 + op (suc x % 2) (y % 2)) (settled x (suc x / 2) (y / 2) (omega arith))

-- Halves and last digits of `|` and `&`.
or_digits :
    (x y : ℕ) → (bit_or x y / 2 ≡ bit_or (x / 2) (y / 2)) × (bit_or x y % 2 ≡ max (x % 2) (y % 2))
or_digits zero y = omega (arith, bit_or-bitwise 0 y, bit_or-bitwise 0 (y / 2))
or_digits (suc x) y = omega (
  arith,
  bit_or-bitwise (suc x) y,
  bit_or-bitwise (suc x / 2) (y / 2),
  front_digits (λ t. t) max x y,
)

and_digits :
    (x y : ℕ)
    → (bit_and x y / 2 ≡ bit_and (x / 2) (y / 2)) × (bit_and x y % 2 ≡ min (x % 2) (y % 2))
and_digits zero y = omega (arith, bit_and-bitwise 0 y, bit_and-bitwise 0 (y / 2))
and_digits (suc x) y = omega (
  arith,
  bit_and-bitwise (suc x) y,
  bit_and-bitwise (suc x / 2) (y / 2),
  front_digits (λ t. zero) min x y,
)

-- Bit `b` of `x`, as 0 or 1.
unfoldable pub bit : ℕ → ℕ → ℕ
bit x zero = x % 2
bit x (suc b) = bit (x / 2) b

pub bit_lt_two : (x b : ℕ) → bit x b < 2
unfolding bit
bit_lt_two x zero = omega arith
bit_lt_two x (suc b) = bit_lt_two (x / 2) b

pub bit-bit_or : (x y b : ℕ) → bit (bit_or x y) b ≡ max (bit x b) (bit y b)
unfolding bit
bit-bit_or x y zero = omega (arith, or_digits x y)
bit-bit_or x y (suc b) =
    let e : bit_or x y / 2 ≡ bit_or (x / 2) (y / 2) = omega (arith, or_digits x y) in
    rw e (bit-bit_or (x / 2) (y / 2) b)

pub bit-bit_and : (x y b : ℕ) → bit (bit_and x y) b ≡ min (bit x b) (bit y b)
unfolding bit
bit-bit_and x y zero = omega (arith, and_digits x y)
bit-bit_and x y (suc b) =
    let e : bit_and x y / 2 ≡ bit_and (x / 2) (y / 2) = omega (arith, and_digits x y) in
    rw e (bit-bit_and (x / 2) (y / 2) b)

bit-zero : (b : ℕ) → bit 0 b ≡ 0
unfolding bit
bit-zero zero = refl
bit-zero (suc b) = bit-zero b

bit-one_suc : (b : ℕ) → bit 1 (suc b) ≡ 0
unfolding bit
bit-one_suc b = bit-zero b

pub bit-two_pow : (k b : ℕ) → bit (2 ^ k) b ≡ (if k == b then 1 else 0)
unfolding bit
bit-two_pow zero zero = refl
bit-two_pow zero (suc b) = ground (arith, bit-zero b)
bit-two_pow (suc k) zero = ground (arith, pow-suc 2 k)
bit-two_pow (suc k) (suc b) =
    let e : 2 ^ suc k / 2 ≡ 2 ^ k = omega (arith, pow-suc 2 k) in
    rw e (ground (arith, bit-two_pow k b))

-- The complement within k bits.
pub bit-complement : (k x b : ℕ) → x < 2 ^ k → b < k → bit (2 ^ k - 1 - x) b ≡ 1 - bit x b
unfolding bit
bit-complement zero x b hx hb = elim hb [ ]
bit-complement (suc k) x zero hx hb = omega (arith, pow-suc 2 k)
bit-complement (suc k) x (suc b) hx hb =
    let e : (2 ^ suc k - 1 - x) / 2 ≡ 2 ^ k - 1 - x / 2 = omega (arith, pow-suc 2 k) in
    rw e (bit-complement k (x / 2) b (omega (arith, pow-suc 2 k)) (omega arith))

pub bit_or_lt : (k x y : ℕ) → x < 2 ^ k → y < 2 ^ k → bit_or x y < 2 ^ k
bit_or_lt zero x y hx hy =
    let ex : x ≡ 0 = omega arith in let ey : y ≡ 0 = omega arith in rw (ex, ey) (omega arith)
bit_or_lt (suc k) x y hx hy = omega (
  arith,
  or_digits x y,
  pow-suc 2 k,
  bit_or_lt k (x / 2) (y / 2) (omega (arith, pow-suc 2 k)) (omega (arith, pow-suc 2 k)),
)

pub bit_and_lt : (k x y : ℕ) → x < 2 ^ k → y < 2 ^ k → bit_and x y < 2 ^ k
bit_and_lt zero x y hx hy =
    let ex : x ≡ 0 = omega arith in let ey : y ≡ 0 = omega arith in rw (ex, ey) (omega arith)
bit_and_lt (suc k) x y hx hy = omega (
  arith,
  and_digits x y,
  pow-suc 2 k,
  bit_and_lt k (x / 2) (y / 2) (omega (arith, pow-suc 2 k)) (omega (arith, pow-suc 2 k)),
)

pub zero-bit_and : (b : ℕ) → bit_and 0 b ≡ 0
zero-bit_and b = bit_and-bitwise 0 b

bit_and-zero : (b x : ℕ) → x < 2 ^ b → bit_and x 0 ≡ 0
bit_and-zero zero x h = let e : x ≡ 0 = omega arith in rw e
bit_and-zero (suc b) x h =
    omega (arith, and_digits x 0, bit_and-zero b (x / 2) (omega (arith, pow-suc 2 b)))

-- `x & (1 << b)` is nonzero exactly when bit b of x is set.
pub bit_and-two_pow : (b x k : ℕ) → x < 2 ^ k → bit_and x (2 ^ b) ≡ bit x b * 2 ^ b
unfolding bit
bit_and-two_pow zero x k h = ground (arith, and_digits x 1, bit_and-zero k (x / 2))
bit_and-two_pow (suc b) x zero h =
    let e : x ≡ 0 = omega arith in rw e (ground (arith, zero-bit_and (2 ^ suc b), bit-zero b))
bit_and-two_pow (suc b) x (suc k) h =
    let e : 2 ^ suc b / 2 ≡ 2 ^ b = omega (arith, pow-suc 2 b) in
    let r = rw e at (and_digits x (2 ^ suc b)) in
    ground (
      arith,
      r,
      pow-suc 2 b,
      bit_and-two_pow b (x / 2) k (omega (arith, pow-suc 2 k)),
      ap (λ (t : ℕ). bit (x / 2) b * t) (pow-suc 2 b),
    )

-- A word whose bits are all set is the mask of ones.
pub all_ones : (k x : ℕ) → x < 2 ^ k → ((b : ℕ) → b < k → bit x b ≡ 1) → x ≡ 2 ^ k - 1
unfolding bit
all_ones zero x hx h = omega arith
all_ones (suc k) x hx h = omega (
  arith,
  pow-suc 2 k,
  h 0 (omega arith),
  all_ones k (x / 2) (omega (arith, pow-suc 2 k)) (λ b l. h (suc b) (omega arith)),
  one-le-pow k 2,
)

pub bit-ones : (k b : ℕ) → b < k → bit (2 ^ k - 1) b ≡ 1
bit-ones k b l = ground (arith, bit-complement k 0 b, bit-zero b, one-le-pow k 2)

pub two_pow_lt : (b k : ℕ) → b < k → 2 ^ b < 2 ^ k
two_pow_lt b zero h = elim h [ ]
two_pow_lt zero (suc k) h = omega (arith, pow-suc 2 k, one-le-pow k 2)
two_pow_lt (suc b) (suc k) h = omega (arith, pow-suc 2 b, pow-suc 2 k, two_pow_lt b k)

-- The bits below k of a sum whose first part is a multiple of 2 ^ k.
pub bit_low : (k q m b : ℕ) → m < 2 ^ k → b < k → bit (q * 2 ^ k + m) b ≡ bit m b
unfolding bit
bit_low zero q m b hm hb = elim hb [ ]
bit_low (suc k) q m zero hm hb = omega (arith, ap (λ (t : ℕ). q * t) (pow-suc 2 k))
bit_low (suc k) q m (suc b) hm hb =
    let e : (q * 2 ^ suc k + m) / 2 ≡ q * 2 ^ k + m / 2 =
      omega (arith, ap (λ (t : ℕ). q * t) (pow-suc 2 k)) in
    rw e (bit_low k q (m / 2) b (omega (arith, pow-suc 2 k)) (omega arith))

-- The remainder by 2 ^ k keeps the bits below k.
pub bit-mod : (k x b : ℕ) → b < k → bit (x % 2 ^ k) b ≡ bit x b
unfolding bit
bit-mod k x b hb =
    let e : x / 2 ^ k * 2 ^ k + x % 2 ^ k ≡ x = grind (arith, one-le-pow k 2) in
    rw e at (sym (bit_low k (x / 2 ^ k) (x % 2 ^ k) b (grind (arith, one-le-pow k 2)) hb))

-- `|` of numbers without a common bit adds.
pub bit_or_add : (k x q : ℕ) → x < 2 ^ k → bit_or x (q * 2 ^ k) ≡ x + q * 2 ^ k
bit_or_add zero x q h =
    let e : x ≡ 0 = omega arith in rw e (omega (arith, bit_or-bitwise 0 (q * 1)))
bit_or_add (suc k) x q h =
    let d : q * 2 ^ suc k ≡ 2 * (q * 2 ^ k) = omega (arith, ap (λ (t : ℕ). q * t) (pow-suc 2 k)) in
    let half : q * 2 ^ suc k / 2 ≡ q * 2 ^ k = omega (arith, d) in
    let r = rw half at (or_digits x (q * 2 ^ suc k)) in
    omega (arith, r, d, pow-suc 2 k, bit_or_add k (x / 2) q (omega (arith, pow-suc 2 k)))
