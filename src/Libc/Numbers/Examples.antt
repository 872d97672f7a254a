-- ===== src/Libc/Numbers/Examples.antt =====
-- Numerals and characters as the library reads them.
use hexahedron.Base.{◌-◌, ◌^◌, ◌≡◌, refl, inl, none, some, [], ◌∷◌, arith}
use hexahedron.Base.Int.{pos}
use hexahedron.Libc.Strings.{Buffer}
use hexahedron.Libc.Numbers.{converted, strtol, strtoul, strtoll, strtoull, atoi}
use hexahedron.Libc.Numbers.Digits.{value}
use hexahedron.Libc.Numbers.Strtol.{minus, hex_x, strtol-value}
use hexahedron.Libc.Numbers.Atoi.{atoi-backwards}

-- " -0xFFz"
abbrev hexadecimal : Buffer
hexadecimal = b' ' ∷ b'-' ∷ b'0' ∷ b'x' ∷ b'F' ∷ b'F' ∷ b'z' ∷ []

-- "9" in base 8
strtol_run : strtol (b'1' ∷ b'9' ∷ 0 ∷ []) (pos 8) ≡ some (converted 17 2)
unfolding strtol
strtol_run = refl

atoi_run : atoi (some (b'1' ∷ b'2' ∷ 0 ∷ [])) ≡ some 21
unfolding atoi
atoi_run = refl

strtol-value_example :
    (strtol hexadecimal (pos 0) ≡ some (converted (2 ^ 32 - 255) 6))
    × (strtoul hexadecimal (pos 0) ≡ some (converted (2 ^ 32 - 255) 6))
    × (strtoll hexadecimal (pos 0) ≡ some (converted (2 ^ 64 - 255) 6))
    × (strtoull hexadecimal (pos 0) ≡ some (converted (2 ^ 64 - 255) 6))
unfolding value
strtol-value_example =
    strtol-value (b' ' ∷ []) (b'F' ∷ []) [] b'z' (omega arith) (inl refl, tt) minus
      (hex_x (inl refl) (inl refl)) (omega arith, (omega arith, tt)) (omega arith, omega arith)

atoi-backwards_example :
    (atoi (some (b' ' ∷ b'-' ∷ b'1' ∷ b'2' ∷ 0 ∷ [])) ≡ some (2 ^ 32 - 21)) × (atoi none ≡ some 0)
unfolding value
atoi-backwards_example =
    atoi-backwards (b' ' ∷ []) (b'2' ∷ []) [] b'1' 0 (inl refl, tt) minus
      (omega arith, (omega arith, tt)) (omega arith)
