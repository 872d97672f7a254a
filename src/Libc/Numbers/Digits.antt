-- ===== src/Libc/Numbers/Digits.antt =====
-- The digit loop of `strtol` and its siblings against positional notation.
use native.Mathlib.Nat.{
  div-add-mod', mul-add-mod_self_right, pow-zero, pow-suc, mod-eq_of_lt, one-le-pow,
}
use hexahedron.Base.{
  ℕ, suc, ◌+◌, ◌-◌, ◌*◌, ◌/◌, ◌%◌, ◌^◌, ◌≤◌, ◌<◌, ◌≡◌, ap, sym, true, false, ◌||◌, some, List, [],
  ◌∷◌, ◌++◌, arith, ltb, leb, if◌then◌else◌, ◌&&◌, length, All,
}
use hexahedron.Base.Int.{◌+ℤ◌}
use hexahedron.Libc.Ctype.{to_lower, is_digit, is_upper}
use hexahedron.Libc.Numbers.{is_valid, digit_value, digits}

-- the value of a digit or letter, and 36 for every other byte
abbrev pub face : ℕ → ℕ
face c =
    if leb b'0' c && leb c b'9'
    then c - b'0'
    else if leb b'a' c && leb c b'z'
    then c - b'a' + 10
    else if leb b'A' c && leb c b'Z'
    then c - b'A' + 10
    else 36

-- the value of a numeral: each digit counts with a power of the base
unfoldable pub value : ℕ → List ℕ → ℕ
value base [] = 0
value base (c ∷ s) = face c * base ^ length s + value base s

abbrev pub AreDigits : ℕ → List ℕ → Type 0
AreDigits base = All (λ c. face c < base)

-- a byte that ends the numeral: no digit of the base, and no decimal digit either
abbrev pub IsStop : ℕ → ℕ → Type 0
IsStop base c = (base ≤ face c) × (10 ≤ face c)

pub is_valid-face :
    (base c : ℕ) → base ≤ 36 → is_valid base c ≡ (ltb (face c) base || ltb (face c) 10)
unfolding is_valid to_lower is_upper ◌+ℤ◌
is_valid-face base c h = ground arith

pub digit_value-face : (c : ℕ) → face c < 36 → digit_value c ≡ face c
unfolding digit_value is_digit
digit_value-face c h = ground arith

pub mod_first : (x p v m : ℕ) → (x % m * p + v) % m ≡ (x * p + v) % m
mod_first x p v m =
    let e : x * p + v ≡ x / m * p * m + (x % m * p + v) =
      grind (arith, ap (λ (t : ℕ). t * p) (div-add-mod' x m)) in
    rw e (sym (mul-add-mod_self_right (x / m * p) m (x % m * p + v)))

-- On the digits of a numeral the loop computes its value, and stops behind it.
pub digits-value :
    (bits base : ℕ) (s rest : List ℕ) (stop n acc : ℕ)
    → base ≤ 36
    → AreDigits base s
    → IsStop base stop
    → acc < 2 ^ bits
    → digits bits base (s ++ (stop ∷ rest)) n acc
      ≡ some ((acc * base ^ length s + value base s) % 2 ^ bits, n + length s)
unfolding digits value
digits-value bits base [] rest stop n acc h hs hstop ha =
    let v : is_valid base stop ≡ false = ground (arith, is_valid-face base stop h) in
    let one : base ^ 0 ≡ 1 = pow-zero base in rw (v, one) (ground (arith, mod-eq_of_lt ha))
digits-value bits base (c ∷ s) rest stop n acc h (hc, hs) hstop ha =
    let v : is_valid base c ≡ true = ground (arith, is_valid-face base c h) in
    let d = digit_value-face c (omega arith) in
    let total : (acc * base + face c) * base ^ length s + value base s
        ≡ acc * base ^ suc (length s) + (face c * base ^ length s + value base s) =
      grind (arith, pow-suc base (length s)) in
    let acc' = (acc * base + face c) % 2 ^ bits in
    let next =
      digits-value bits base s rest stop (n + 1) acc' h hs hstop
        (grind (arith, one-le-pow bits 2)) in
    let m = mod_first (acc * base + face c) (base ^ length s) (value base s) (2 ^ bits) in
    let r = rw (m, total) at next in rw (v, d) (ground (arith, r))
