-- ===== src/Libc/Ctype.antt =====
-- libpolyhedron/string/ctype.c: tests of characters, on the integers that C passes.
use hexahedron.Base.{ℕ, ◌+◌, ◌≡◌, Bool, true, false, ◌&&◌, ◌||◌, leb, if◌then◌else◌, arith}
use hexahedron.Base.Int.{ℤ, pos, pos_part, neg_part, ◌+ℤ◌, ◌-ℤ◌, ltb_ℤ}
use hexahedron.Libc.Strings.{eq_ℤ}

abbrev pub leb_ℤ : ℤ → ℤ → Bool
leb_ℤ a b = leb (pos_part a + neg_part b) (pos_part b + neg_part a)

abbrev pub within : ℕ → ℕ → ℤ → Bool
within lo hi c = leb_ℤ (pos lo) c && leb_ℤ c (pos hi)

unfoldable pub is_alnum : ℤ → Bool
is_alnum c = within b'0' b'9' c || within b'A' b'Z' c || within b'a' b'z' c

unfoldable pub is_alpha : ℤ → Bool
is_alpha c = within b'A' b'Z' c || within b'a' b'z' c

unfoldable pub is_cntrl : ℤ → Bool
is_cntrl c = ltb_ℤ c (pos b' ')

unfoldable pub is_digit : ℤ → Bool
is_digit c = within b'0' b'9' c

unfoldable pub is_graph : ℤ → Bool
is_graph c = false

unfoldable pub is_lower : ℤ → Bool
is_lower c = within b'a' b'z' c

unfoldable pub is_print : ℤ → Bool
is_print c = within b' ' 0x7F c

unfoldable pub is_punct : ℤ → Bool
is_punct c = eq_ℤ c (pos b'.') || eq_ℤ c (pos b'!') || eq_ℤ c (pos b'?') || eq_ℤ c (pos b',')

unfoldable pub is_space : ℤ → Bool
is_space c =
    eq_ℤ c (pos b' ') || eq_ℤ c (pos 9) || eq_ℤ c (pos 11) || eq_ℤ c (pos 10) || eq_ℤ c (pos 13)

unfoldable pub is_upper : ℤ → Bool
is_upper c = within b'A' b'Z' c

unfoldable pub is_xdigit : ℤ → Bool
unfolding is_digit
is_xdigit c = is_digit c || within b'a' b'f' c || within b'A' b'F' c

unfoldable pub is_blank : ℤ → Bool
is_blank c = eq_ℤ c (pos 9) || eq_ℤ c (pos b' ')

unfoldable pub to_upper : ℤ → ℤ
unfolding is_lower
to_upper c = if is_lower c then c -ℤ pos 0x20 else c

unfoldable pub to_lower : ℤ → ℤ
unfolding is_upper
to_lower c = if is_upper c then c +ℤ pos 0x20 else c

-- `tolower` undoes `toupper` on lower-case letters, `toupper` undoes `tolower` on capitals, and
-- neither changes a character that is no letter.
pub to_lower-to_upper :
    (c : ℤ)
    → (is_lower c ≡ true → to_lower (to_upper c) ≡ c)
      × (is_upper c ≡ true → to_upper (to_lower c) ≡ c)
      × (is_alpha c ≡ false → (to_lower c ≡ c) × (to_upper c ≡ c))
unfolding to_lower to_upper is_alpha ◌+ℤ◌ ◌-ℤ◌
to_lower-to_upper c = ((λ h. ground arith), (λ h. ground arith), (λ h. ground arith))
