-- ===== src/Libc/Strings.antt =====
-- libpolyhedron/string: the functions that read strings. A `const char *` is the bytes from the
-- pointer to the end of the object that it points into; `none` is a read past that end. A pointer
-- into the string is its offset, and NULL is `none` within the result.
pub mod Compare
pub mod Search
pub mod Span
pub mod Tokens
mod Examples
use hexahedron.Base.{
  ℕ, zero, suc, ◌+◌, ◌-◌, Bool, true, false, not, ◌&&◌, ◌||◌, Option, none, some, List, [], ◌∷◌,
  ◌++◌, ◌==◌, ltb, if◌then◌else◌,
}
use hexahedron.Base.Int.{ℤ, pos, negsuc, pos_part, neg_part, ◌-ℤ◌}
use hexahedron.Bitmap
use hexahedron.Bitmap.{Words}

abbrev pub Buffer : Type 0
Buffer = List ℕ

-- a C string and what follows it in its object
abbrev pub c_string : List ℕ → Buffer → Buffer
c_string s rest = s ++ (0 ∷ rest)

-- a byte read as a `char`, which is signed
abbrev pub char_value : ℕ → ℤ
char_value c = if ltb c 128 then pos c else negsuc (255 - c)

abbrev pub eq_ℤ : ℤ → ℤ → Bool
eq_ℤ a b = pos_part a + neg_part b == pos_part b + neg_part a

strlen_loop : Buffer → ℕ → Option ℕ
strlen_loop [] length = none
strlen_loop (c ∷ s) length = if c == 0 then some length else strlen_loop s (length + 1)

unfoldable pub strlen : Buffer → Option ℕ
unfolding strlen_loop
strlen s = strlen_loop s 0

unfoldable pub strcmp : Buffer → Buffer → Option ℤ
strcmp [] t = none
strcmp (a ∷ s) [] = none
strcmp (a ∷ s) (b ∷ t) =
    if not (a == 0) && not (b == 0) && (a == b) then strcmp s t else some (pos a -ℤ pos b)

-- The loop of `strncmp`; its first argument is n, before it is decremented.
strncmp_loop : ℕ → Buffer → Buffer → Option ℤ
strncmp_loop n [] t = none
strncmp_loop n (a ∷ s) [] = none
strncmp_loop zero (a ∷ s) (b ∷ t) = some (pos a -ℤ pos b)
strncmp_loop (suc n) (a ∷ s) (b ∷ t) =
    if a == b
    then if n == 0 || a == 0 then some (pos a -ℤ pos b) else strncmp_loop n s t
    else some (pos a -ℤ pos b)

unfoldable pub strncmp : Buffer → Buffer → ℕ → Option ℤ
unfolding strncmp_loop
strncmp s t n = if n == 0 then some (pos 0) else strncmp_loop n s t

-- `memcmp`, with the bytes left to compare
unfoldable pub memcmp : Buffer → Buffer → ℕ → Option ℤ
memcmp s t zero = some (pos 0)
memcmp [] t (suc n) = none
memcmp (a ∷ s) [] (suc n) = none
memcmp (a ∷ s) (b ∷ t) (suc n) =
    let rest = memcmp s t n in
    if ltb a b then some (negsuc 0) else if ltb b a then some (pos 1) else rest

-- The loops below carry the offset of the pointer.
strchr_loop : Buffer → ℤ → ℕ → Option (Option ℕ)
strchr_loop [] character ptr = none
strchr_loop (c ∷ s) character ptr =
    let next = strchr_loop s character (ptr + 1) in
    if c == 0 then some none else if eq_ℤ (char_value c) character then some (some ptr) else next

unfoldable pub strchr : Buffer → ℤ → Option (Option ℕ)
unfolding strchr_loop
strchr s character = strchr_loop s character 0

strrchr_loop : Buffer → ℤ → ℕ → Option ℕ → Option (Option ℕ)
strrchr_loop [] character ptr occurence = none
strrchr_loop (c ∷ s) character ptr occurence =
    let next =
      strrchr_loop s character (ptr + 1)
        (if eq_ℤ (char_value c) character then some ptr else occurence) in
    if c == 0 then some occurence else next

unfoldable pub strrchr : Buffer → ℤ → Option (Option ℕ)
unfolding strrchr_loop
strrchr s character = strrchr_loop s character 0 none

strchrnul_loop : Buffer → ℤ → ℕ → Option ℕ
strchrnul_loop [] character ptr = none
strchrnul_loop (c ∷ s) character ptr =
    let next = strchrnul_loop s character (ptr + 1) in
    if not (c == 0) && not (eq_ℤ (char_value c) character) then next else some ptr

unfoldable pub strchrnul : Buffer → ℤ → Option ℕ
unfolding strchrnul_loop
strchrnul s character = strchrnul_loop s character 0

-- `BITOP` on `byteset`, the 256 bits of which are words of 32 bits, as in a bitmap of frames. The
-- value of the assignment is never zero.
fill_set : Buffer → Words → Option Words
fill_set [] set = none
fill_set (c ∷ s) set = if c == 0 then some set else fill_set s (Bitmap.set_frame set c)

abbrev no_bytes : Words
no_bytes i = 0

-- the scans over the string, while its bytes are in the set, or are not
span_in : Words → Buffer → ℕ → Option ℕ
unfolding Bitmap.is_taken
span_in set [] n = none
span_in set (c ∷ s) n =
    let next = span_in set s (n + 1) in
    if not (c == 0) && Bitmap.is_taken set c then next else some n

span_out : Words → Buffer → ℕ → Option ℕ
unfolding Bitmap.is_taken
span_out set [] n = none
span_out set (c ∷ s) n =
    let next = span_out set s (n + 1) in
    if not (c == 0) && not (Bitmap.is_taken set c) then next else some n

-- the scan for one character
span_same : ℕ → Buffer → ℕ → Option ℕ
span_same x [] n = none
span_same x (c ∷ s) n = let next = span_same x s (n + 1) in if c == x then next else some n

with_set : Option Words → (Words → Option ℕ) → Option ℕ
with_set none f = none
with_set (some set) f = f set

unfoldable pub strspn : Buffer → Buffer → Option ℕ
unfolding fill_set span_in span_same with_set
strspn s [] = none
strspn s (x ∷ []) = if x == 0 then some 0 else none
strspn s (x ∷ y ∷ c) =
    if x == 0
    then some 0
    else if y == 0
    then span_same x s 0
    else with_set (fill_set (x ∷ y ∷ c) no_bytes) (λ set. span_in set s 0)

unfoldable pub strcspn : Buffer → Buffer → Option ℕ
unfolding fill_set span_out with_set strchrnul
strcspn s [] = none
strcspn s (x ∷ []) = if x == 0 then strchrnul s (char_value x) else none
strcspn s (x ∷ y ∷ c) =
    if not (x == 0) && not (y == 0)
    then with_set (fill_set (x ∷ y ∷ c) no_bytes) (λ set. span_out set s 0)
    else strchrnul s (char_value x)
