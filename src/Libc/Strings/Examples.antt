-- ===== src/Libc/Strings/Examples.antt =====
-- Runs of the string functions, and their theorems at short texts.
use hexahedron.Base.{ℕ, ◌≡◌, refl, some, List, [], ◌∷◌}
use hexahedron.Base.Int.{pos, negsuc, ◌-ℤ◌}
use hexahedron.Bitmap.{set_frame}
use hexahedron.Libc.Strings.{Buffer, c_string, strcmp, strrchr, strspn}

abbrev abab : List ℕ
abab = b'a' ∷ b'b' ∷ b'a' ∷ b'b' ∷ []

abbrev abc : List ℕ
abc = b'a' ∷ b'b' ∷ b'c' ∷ []

abbrev ab : List ℕ
ab = b'b' ∷ b'a' ∷ []

abbrev after : Buffer
after = 7 ∷ 0 ∷ []

strcmp_run : strcmp (c_string abab after) (c_string abc []) ≡ some (negsuc 1)
unfolding strcmp ◌-ℤ◌
strcmp_run = refl

strspn_run : strspn (c_string abc after) (c_string ab []) ≡ some 2
unfolding strspn set_frame
strspn_run = refl

strrchr_run : strrchr (c_string abab after) (pos b'a') ≡ some (some 2)
unfolding strrchr
strrchr_run = refl
