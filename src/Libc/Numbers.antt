-- ===== src/Libc/Numbers.antt =====
-- libpolyhedron/stdlib: `strtol`, `strtoul`, `strtoll`, `strtoull` and `atoi`. A string is the bytes
-- from its pointer on, as in `Libc.Strings`; a number is its bit pattern, of 32 bits for `long` and
-- `int`, of 64 for `long long`. Signed overflow wraps.
pub mod Digits
pub mod Strtol
pub mod Atoi
mod Examples
use hexahedron.Base.{
  ℕ, zero, suc, ◌+◌, ◌-◌, ◌*◌, ◌%◌, ◌^◌, Bool, true, false, not, ◌&&◌, ◌||◌, Option, none, some,
  List, [], ◌∷◌, ◌==◌, ltb, leb, if◌then◌else◌,
}
use hexahedron.Base.Int.{ℤ, pos, negsuc, ltb_ℤ}
use hexahedron.Libc.Ctype.{is_digit, is_space, to_lower, within, leb_ℤ}
use hexahedron.Libc.Strings.{Buffer, char_value, eq_ℤ}

-- the bytes from `ptr` on, and how far `ptr` stands from the start
pub record Cursor : Type 0 where
  pub rest : Buffer
  pub offset : ℕ

abbrev pub at : Buffer → ℕ → Cursor
at s n = record { rest = s; offset = n }

infixl 5 ◌>>=◌
abbrev pub ◌>>=◌ {ℓ κ} : {A : Type ℓ} {B : Type κ} → Option A → (A → Option B) → Option B
none >>= f = none
some a >>= f = f a

-- `*ptr`
unfoldable pub peek : Cursor → Option ℕ
peek p = elim p.rest [ [] ↦ none | c ∷ s ↦ some c ]

-- `ptr++`
unfoldable pub advance : Cursor → Cursor
advance p = elim p.rest [ [] ↦ p | c ∷ s ↦ at s (p.offset + 1) ]

-- `isvalid(base, ch)`, for a base that is not negative
unfoldable pub is_valid : ℕ → ℕ → Bool
unfolding to_lower
is_valid base c =
    if leb_ℤ (pos b'a') (to_lower (char_value c))
      && ltb_ℤ (to_lower (char_value c)) (pos (b'a' + base - 10))
    then true
    else within b'0' b'9' (char_value c)

unfoldable pub skip_spaces : Buffer → ℕ → Option Cursor
unfolding is_space
skip_spaces [] n = none
skip_spaces (c ∷ s) n =
    let next = skip_spaces s (n + 1) in
    if not (c == 0) && is_space (char_value c) then next else some (at (c ∷ s) n)

-- whether the sign is minus, and the place behind it
unfoldable pub read_sign : Cursor → Option (Bool × Cursor)
unfolding peek advance
read_sign p = peek p >>= λ c.
    if c == b'-'
    then some (true, advance p)
    else if c == b'+'
    then some (false, advance p)
    else some (false, p)

unfoldable pub skip_x : Cursor → Option (Bool × Cursor)
unfolding peek advance
skip_x p = do c ← peek p; if c == b'x' || c == b'X' then some (true, advance p) else some (false, p)

-- For base 16 the prefix is skipped; base 0 is settled by the prefix.
unfoldable pub read_prefix : ℕ → Cursor → Option (ℕ × Cursor)
unfolding skip_x
read_prefix base p =
    if base == 16
    then (peek p >>= λ c.
        if c == b'0' then (skip_x (advance p) >>= λ (hex, q). some (16, q)) else some (16, p))
    else if base == 0
    then (peek p >>= λ c.
        if c == b'0'
        then (skip_x (advance p) >>= λ (hex, q). some (if hex then 16 else 8, q))
        else some (10, p))
    else some (base, p)

-- what the loop adds for a character that `isvalid` accepts
unfoldable pub digit_value : ℕ → ℕ
unfolding is_digit
digit_value c =
    if is_digit (char_value c)
    then c - b'0'
    else if within b'A' b'Z' (char_value c)
    then c + 0x20 - b'a' + 10
    else c - b'a' + 10

-- The loop over the digits, in integers of `bits` bits.
unfoldable pub digits : ℕ → ℕ → Buffer → ℕ → ℕ → Option (ℕ × ℕ)
unfolding is_valid digit_value
digits bits base [] n output = none
digits bits base (c ∷ s) n output =
    let next = digits bits base s (n + 1) ((output * base + digit_value c) % 2 ^ bits) in
    if is_valid base c then next else some (output, n)

-- the value returned, and what is stored to `endptr`, if anything
pub record Converted : Type 0 where
  pub value : ℕ
  pub end : Option ℕ

abbrev pub converted : ℕ → ℕ → Converted
converted v n = record { value = v; end = some n }

abbrev pub bad_base : ℤ → Bool
bad_base base = ltb_ℤ base (pos 0) || eq_ℤ base (pos 1) || ltb_ℤ (pos 36) base

unfoldable pub convert : ℕ → ℕ → Buffer → Option Converted
unfolding skip_spaces read_sign read_prefix digits
convert bits base s = do
  p ← skip_spaces s 0
  (minus, q) ← read_sign p
  (base', r) ← read_prefix base q
  (output, n) ← digits bits base' r.rest r.offset 0
  some (converted (if minus then (2 ^ bits - output) % 2 ^ bits else output) n)

abbrev pub base_value : ℤ → ℕ
base_value (pos b) = b
base_value (negsuc b) = 0

-- The four functions differ in the width and in what they return for a base that is refused.
abbrev pub strto : ℕ → ℕ → Buffer → ℤ → Option Converted
strto bits largest s base =
    if bad_base base
    then some (record { value = largest; end = none })
    else convert bits (base_value base) s

unfoldable pub strtol : Buffer → ℤ → Option Converted
unfolding convert
strtol = strto 32 (2 ^ 31 - 1)

unfoldable pub strtoul : Buffer → ℤ → Option Converted
unfolding convert
strtoul = strto 32 (2 ^ 32 - 1)

unfoldable pub strtoll : Buffer → ℤ → Option Converted
unfolding convert
strtoll = strto 64 (2 ^ 63 - 1)

unfoldable pub strtoull : Buffer → ℤ → Option Converted
unfolding convert
strtoull = strto 64 (2 ^ 64 - 1)

-- The loops of `atoi`; `base` is the weight of the digit.
unfoldable pub skip_blanks : Buffer → Option Buffer
unfolding is_space
skip_blanks [] = none
skip_blanks (c ∷ s) = if is_space (char_value c) then skip_blanks s else some (c ∷ s)

unfoldable pub atoi_digits : Buffer → ℕ → ℕ → Option ℕ
unfolding is_digit
atoi_digits [] value base = none
atoi_digits (c ∷ s) value base =
    let next = atoi_digits s ((value + base * (c - b'0')) % 2 ^ 32) (base * 10 % 2 ^ 32) in
    if is_digit (char_value c) then next else some value

unfoldable pub atoi : Option Buffer → Option ℕ
unfolding skip_blanks read_sign atoi_digits
atoi none = some 0
atoi (some s) = do
  t ← skip_blanks s
  (minus, p) ← read_sign (at t 0)
  value ← atoi_digits p.rest 0 1
  some (if minus then (2 ^ 32 - value) % 2 ^ 32 else value)
