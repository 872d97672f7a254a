-- ===== src/Libc/Numbers/Strtol.antt =====
-- `strtol`, `strtoul`, `strtoll` and `strtoull` on a numeral with blanks, a sign and a prefix.
use native.Mathlib.Nat.{one-le-pow}
use hexahedron.Base.{
  ℕ, ◌+◌, ◌-◌, ◌*◌, ◌%◌, ◌^◌, ◌≤◌, ◌<◌, ◌≡◌, refl, ap, ◌≢◌, ◌⊎◌, Bool, true, false, some, List, [],
  ◌∷◌, ◌++◌, arith, if◌then◌else◌, length, All,
}
use hexahedron.Base.Int.{pos}
use hexahedron.Libc.Ctype.{is_space}
use hexahedron.Libc.Strings.{char_value}
use hexahedron.Libc.Numbers.{
  at, skip_spaces, read_sign, peek, advance, skip_x, read_prefix, converted, convert, strtol,
  strtoul, strtoll, strtoull, bad_base,
}
use hexahedron.Libc.Numbers.Digits.{face, value, AreDigits, IsStop, digits-value}

abbrev pub AreBlanks : List ℕ → Type 0
AreBlanks = All (λ c. (c ≡ b' ') ⊎ ((9 ≤ c) × (c ≤ 13) × (c ≢ 12)))

-- the sign as it is written, and whether it is a minus
pub data Sign : List ℕ → Bool → Type 0 where
  unsigned : Sign [] false
  plus : Sign (b'+' ∷ []) false
  minus : Sign (b'-' ∷ []) true

-- `Prefix base d p b`: with the argument `base`, a numeral to base `b` may follow the prefix `p`,
-- when its first byte is `d`.
pub data Prefix (base d : ℕ) : List ℕ → ℕ → Type 0 where
  plain : 2 ≤ base → base ≢ 16 → Prefix base d [] base
  hex : base ≡ 16 → d ≢ b'0' → Prefix base d [] 16
  hex_zero : base ≡ 16 → Prefix base d (b'0' ∷ []) 16
  hex_x :
      {x : ℕ}
      → (base ≡ 0) ⊎ (base ≡ 16)
      → (x ≡ b'x') ⊎ (x ≡ b'X')
      → Prefix base d (b'0' ∷ x ∷ []) 16
  decimal : base ≡ 0 → d ≢ b'0' → Prefix base d [] 10
  octal : base ≡ 0 → Prefix base d (b'0' ∷ []) 8

-- the bit pattern of a number with a sign
abbrev pub signed : ℕ → Bool → ℕ → ℕ
signed bits true n = (2 ^ bits - n % 2 ^ bits) % 2 ^ bits
signed bits false n = n % 2 ^ bits

skip_spaces-blanks :
    (bl s : List ℕ) (c n : ℕ)
    → AreBlanks bl
    → is_space (char_value c) ≡ false
    → skip_spaces (bl ++ (c ∷ s)) n ≡ some (at (c ∷ s) (n + length bl))
unfolding skip_spaces is_space
skip_spaces-blanks [] s c n h hc = ground arith
skip_spaces-blanks (b ∷ bl) s c n (hb, h) hc =
    ground (arith, skip_spaces-blanks bl s c (n + 1) h hc)

pub read_sign-Sign :
    {sg : List ℕ} {m : Bool} (s : List ℕ) (c n : ℕ)
    → Sign sg m
    → face c < 36
    → read_sign (at (sg ++ (c ∷ s)) n) ≡ some (m, at (c ∷ s) (n + length sg))
unfolding read_sign peek advance
read_sign-Sign s c n unsigned h = ground arith
read_sign-Sign s c n plus h = ground arith
read_sign-Sign s c n minus h = ground arith

read_prefix-Prefix :
    {base d b : ℕ} {p : List ℕ} (s : List ℕ) (n : ℕ)
    → Prefix base d p b
    → face d < b
    → read_prefix base (at (p ++ (d ∷ s)) n) ≡ some (b, at (d ∷ s) (n + length p))
unfolding read_prefix skip_x peek advance
read_prefix-Prefix s n (plain two other) h = ground arith
read_prefix-Prefix s n (hex e o) h = ground arith
read_prefix-Prefix s n (hex_zero e) h = ground arith
read_prefix-Prefix s n (hex_x e x) h = ground arith
read_prefix-Prefix s n (decimal e o) h = ground arith
read_prefix-Prefix s n (octal e) h = ground arith

-- The first byte of the numeral or its prefix is a letter or digit.
first_face :
    {base d b : ℕ} {p : List ℕ} (s : List ℕ)
    → Prefix base d p b
    → face d < 36
    → (f : ℕ) × (t : List ℕ) × (p ++ (d ∷ s) ≡ f ∷ t) × (face f < 36)
first_face {d = d} s (plain two other) h = (d, s, refl, h)
first_face {d = d} s (hex e o) h = (d, s, refl, h)
first_face {d = d} s (hex_zero e) h = (b'0', d ∷ s, refl, omega arith)
first_face {d = d} s (hex_x {x} e o) h = (b'0', x ∷ d ∷ s, refl, omega arith)
first_face {d = d} s (decimal e o) h = (d, s, refl, h)
first_face {d = d} s (octal e) h = (b'0', d ∷ s, refl, omega arith)

pub face-solid : (c : ℕ) → face c < 36 → is_space (char_value c) ≡ false
unfolding is_space
face-solid c h = ground arith

skip_spaces-Sign :
    {sg : List ℕ} {m : Bool} (bl s : List ℕ) (c n : ℕ)
    → AreBlanks bl
    → Sign sg m
    → face c < 36
    → skip_spaces (bl ++ (sg ++ (c ∷ s))) n ≡ some (at (sg ++ (c ∷ s)) (n + length bl))
unfolding is_space
skip_spaces-Sign bl s c n h unsigned hc = skip_spaces-blanks bl s c n h (face-solid c hc)
skip_spaces-Sign bl s c n h plus hc = skip_spaces-blanks bl (c ∷ s) b'+' n h refl
skip_spaces-Sign bl s c n h minus hc = skip_spaces-blanks bl (c ∷ s) b'-' n h refl

Prefix-le : {base d b : ℕ} {p : List ℕ} → base ≤ 36 → Prefix base d p b → b ≤ 36
Prefix-le h (plain two other) = h
Prefix-le h (hex e o) = omega arith
Prefix-le h (hex_zero e) = omega arith
Prefix-le h (hex_x e x) = omega arith
Prefix-le h (decimal e o) = omega arith
Prefix-le h (octal e) = omega arith

Prefix-fine :
    {base d b : ℕ} {p : List ℕ} → base ≤ 36 → Prefix base d p b → bad_base (pos base) ≡ false
Prefix-fine h (plain two other) = ground arith
Prefix-fine h (hex e o) = ground arith
Prefix-fine h (hex_zero e) = ground arith
Prefix-fine h (hex_x e x) = ground arith
Prefix-fine h (decimal e o) = ground arith
Prefix-fine h (octal e) = ground arith

pub with_sign :
    (bits : ℕ) (m : Bool) (v : ℕ) {n k : ℕ}
    → n ≡ k
    → some (converted (if m then (2 ^ bits - v % 2 ^ bits) % 2 ^ bits else v % 2 ^ bits) n)
      ≡ some (converted (signed bits m v) k)
with_sign bits true v e = ap (λ t. some (converted (signed bits true v) t)) e
with_sign bits false v e = ap (λ t. some (converted (signed bits false v) t)) e

module _ {base d b : ℕ} {sg p : List ℕ} {m : Bool} (bl ds rest : List ℕ) (stop : ℕ)
    (small : base ≤ 36) (blanks : AreBlanks bl) (sign : Sign sg m) (prefix : Prefix base d p b)
    (numeral : AreDigits b (d ∷ ds)) (ends : IsStop b stop) where
  convert-value :
      (bits : ℕ)
      → convert bits base (bl ++ (sg ++ (p ++ ((d ∷ ds) ++ (stop ∷ rest)))))
        ≡ some (
            converted
              (signed bits m (value b (d ∷ ds)))
              (length bl + length sg + length p + length (d ∷ ds)))
  unfolding convert
  convert-value bits =
      let t = (d ∷ ds) ++ (stop ∷ rest) in
      let le = Prefix-le small prefix in
      let (f, u, e, hf) = first_face (ds ++ (stop ∷ rest)) prefix (omega (arith, numeral.0)) in
      let skipped : skip_spaces (bl ++ (sg ++ (p ++ t))) 0
          ≡ some (at (sg ++ (p ++ t)) (0 + length bl)) =
        rw e (skip_spaces-Sign bl u f 0 blanks sign hf) in
      let signed' : read_sign (at (sg ++ (p ++ t)) (0 + length bl))
          ≡ some (m, at (p ++ t) (0 + length bl + length sg)) =
        rw e (read_sign-Sign u f (0 + length bl) sign hf) in
      let prefixed =
        read_prefix-Prefix (ds ++ (stop ∷ rest)) (0 + length bl + length sg) prefix numeral.0 in
      let read =
        digits-value bits b (d ∷ ds) rest stop (0 + length bl + length sg + length p) 0 le numeral
          ends (omega (arith, one-le-pow bits 2)) in
      let v = value b (d ∷ ds) in
      let acc : 0 * b ^ length (d ∷ ds) + v ≡ v = ground arith in
      rw (skipped, signed', prefixed, read, acc) (with_sign bits m v (omega arith))

  -- On a numeral behind blanks, an optional sign and an optional prefix, in any base from 2 to 36 or
  -- with the base that the prefix decides, and ended by a byte that is no digit of the base and no
  -- decimal digit, the four functions return the numeral's value, negated modulo the width for a
  -- minus sign, as a bit pattern of 32 bits for `long` and of 64 for `long long`, and set the end
  -- pointer to that byte.
  pub strtol-value :
      let s = bl ++ (sg ++ (p ++ ((d ∷ ds) ++ (stop ∷ rest)))) in
      let end = length bl + length sg + length p + length (d ∷ ds) in
      let v = value b (d ∷ ds) in
      (strtol s (pos base) ≡ some (converted (signed 32 m v) end))
      × (strtoul s (pos base) ≡ some (converted (signed 32 m v) end))
      × (strtoll s (pos base) ≡ some (converted (signed 64 m v) end))
      × (strtoull s (pos base) ≡ some (converted (signed 64 m v) end))
  unfolding strtol strtoul strtoll strtoull
  strtol-value =
      let fine = Prefix-fine small prefix in
      rw fine (convert-value 32, convert-value 32, convert-value 64, convert-value 64)
