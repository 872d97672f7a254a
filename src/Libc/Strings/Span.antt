-- ===== src/Libc/Strings/Span.antt =====
-- `strspn`, `strcspn` and `strchrnul` against the length of a prefix, whatever way they take through
-- the code: the empty set, one character, or the bitmask.
use hexahedron.Base.{
  ℕ, suc, ◌+◌, ◌^◌, ◌%◌, ◌<◌, ◌≡◌, refl, ap, ◌∙◌, ◌≢◌, Bool, false, not, ◌||◌, some, List, [], ◌∷◌,
  arith, ◌==◌, if◌then◌else◌, All,
}
use hexahedron.Base.Bits.{zero-bit_and}
use hexahedron.Base.Int.{ℤ}
use hexahedron.Bitmap
use hexahedron.Bitmap.{Words, IsWords, is_taken}
use hexahedron.Bitmap.Frames.{is_taken-set, set_frame-IsWords}
use hexahedron.Libc.Strings.{
  c_string, char_value, eq_ℤ, fill_set, no_bytes, span_in, span_out, span_same, strspn, strcspn,
  strchrnul, strchrnul_loop, with_set,
}
use hexahedron.Libc.Strings.Compare.{IsText}

-- the length of the longest prefix whose bytes pass the test
unfoldable pub prefix_length : (ℕ → Bool) → List ℕ → ℕ
prefix_length p [] = 0
prefix_length p (c ∷ s) = if p c then suc (prefix_length p s) else 0

unfoldable pub contains : List ℕ → ℕ → Bool
contains [] c = false
contains (x ∷ xs) c = (x == c) || contains xs c

-- The bitmask holds the bytes of the set, and those that were there.
fill_set_lem :
    (c rest : List ℕ) (set : Words)
    → IsText c
    → IsWords set
    → (full : Words) × (fill_set (c_string c rest) set ≡ some full)
      × ((b : ℕ) → is_taken full b ≡ (contains c b || is_taken set b))
unfolding fill_set contains
fill_set_lem [] rest set h w = (set, refl, λ b. refl)
fill_set_lem (x ∷ c) rest set (hx, hc) w =
    let (full, called, bits) =
      fill_set_lem c rest (Bitmap.set_frame set x) hc (set_frame-IsWords set w x) in
    (full, ground arith, λ b. ground (arith, bits b, is_taken-set set w x b))

no_bytes-taken : (b : ℕ) → is_taken no_bytes b ≡ false
unfolding is_taken
no_bytes-taken b = ground (arith, zero-bit_and (2 ^ (b % 32)))

module _ (set : Words) (p : ℕ → Bool) where
  span_in-prefix_length :
      (s rest : List ℕ) (n : ℕ)
      → ((b : ℕ) → is_taken set b ≡ p b)
      → IsText s
      → span_in set (c_string s rest) n ≡ some (n + prefix_length p s)
  unfolding span_in prefix_length
  span_in-prefix_length [] rest n e h = ground arith
  span_in-prefix_length (c ∷ s) rest n e (hc, hs) =
      ground (arith, e c, span_in-prefix_length s rest (n + 1) e hs)

  span_out-prefix_length :
      (s rest : List ℕ) (n : ℕ)
      → ((b : ℕ) → not (is_taken set b) ≡ p b)
      → IsText s
      → span_out set (c_string s rest) n ≡ some (n + prefix_length p s)
  unfolding span_out prefix_length
  span_out-prefix_length [] rest n e h = ground arith
  span_out-prefix_length (c ∷ s) rest n e (hc, hs) =
      ground (arith, e c, span_out-prefix_length s rest (n + 1) e hs)

span_same-prefix_length :
    (x : ℕ) (s rest : List ℕ) (n : ℕ)
    → x ≢ 0
    → IsText s
    → span_same x (c_string s rest) n ≡ some (n + prefix_length (λ c. c == x) s)
unfolding span_same prefix_length
span_same-prefix_length x [] rest n e h = ground arith
span_same-prefix_length x (c ∷ s) rest n e (hc, hs) =
    ground (arith, span_same-prefix_length x s rest (n + 1) e hs)

strchrnul_loop-prefix_length :
    (s rest : List ℕ) (ch : ℤ) (n : ℕ)
    → IsText s
    → strchrnul_loop (c_string s rest) ch n
      ≡ some (n + prefix_length (λ c. not (eq_ℤ (char_value c) ch)) s)
unfolding strchrnul_loop prefix_length
strchrnul_loop-prefix_length [] rest ch n h = ground arith
strchrnul_loop-prefix_length (c ∷ s) rest ch n (hc, hs) =
    ground (arith, strchrnul_loop-prefix_length s rest ch (n + 1) hs)

-- `strchrnul` returns the offset of the first byte that is the character, or of the terminator.
pub strchrnul-prefix_length :
    (s rest : List ℕ) (ch : ℤ)
    → IsText s
    → strchrnul (c_string s rest) ch ≡ some (prefix_length (λ c. not (eq_ℤ (char_value c) ch)) s)
unfolding strchrnul
strchrnul-prefix_length s rest ch h = ground (arith, strchrnul_loop-prefix_length s rest ch 0 h)

prefix_length-congr :
    (p q : ℕ → Bool) (s : List ℕ) → All (λ c. p c ≡ q c) s → prefix_length p s ≡ prefix_length q s
unfolding prefix_length
prefix_length-congr p q [] h = refl
prefix_length-congr p q (c ∷ s) (hc, hs) = ground (arith, prefix_length-congr p q s hs)

prefix_length_none : (s : List ℕ) → prefix_length (contains []) s ≡ 0
unfolding prefix_length contains
prefix_length_none [] = refl
prefix_length_none (c ∷ s) = refl

each {κ} : {P : ℕ → Type κ} (s : List ℕ) → ((c : ℕ) → P c) → All P s
each [] h = tt
each (c ∷ s) h = (h c, each s h)

-- The bitmask of a set of two characters or more, as a test.
set_of :
    (x y : ℕ) (c rest : List ℕ)
    → IsText c
    → (full : Words) × (fill_set
          (c_string c rest)
          (Bitmap.set_frame (Bitmap.set_frame no_bytes x) y)
        ≡ some full)
      × ((b : ℕ) → is_taken full b ≡ contains (x ∷ y ∷ c) b)
unfolding contains
set_of x y c rest h =
    let one : IsWords (Bitmap.set_frame no_bytes x) =
      set_frame-IsWords no_bytes (λ i. omega arith) x in
    let (full, called, bits) =
      fill_set_lem c rest (Bitmap.set_frame (Bitmap.set_frame no_bytes x) y) h
        (set_frame-IsWords _ one y) in
    (
      full,
      called,
      λ b. ground (
        arith,
        bits b,
        is_taken-set (Bitmap.set_frame no_bytes x) one y b,
        is_taken-set no_bytes (λ i. omega arith) x b,
        no_bytes-taken b,
      ),
    )

-- `strspn` returns the length of the longest prefix whose bytes are all in the set.
pub strspn-prefix_length :
    (s set rest rest' : List ℕ)
    → IsText s
    → IsText set
    → strspn (c_string s rest) (c_string set rest') ≡ some (prefix_length (contains set) s)
unfolding strspn
strspn-prefix_length s [] rest [] hs h = rw (prefix_length_none s)
strspn-prefix_length s [] rest (y ∷ rest') hs h = rw (prefix_length_none s)
strspn-prefix_length s (x ∷ []) rest rest' hs (hx, h) =
    let x' : (x == 0) ≡ false = ground arith in
    let same : prefix_length (λ c. c == x) s ≡ prefix_length (contains (x ∷ [])) s =
      prefix_length-congr _ _ s (each s λ c. unfold contains in ground arith) in
    rw x' (ground (arith, span_same-prefix_length x s rest 0 hx hs, same))
strspn-prefix_length s (x ∷ y ∷ c) rest rest' hs (hx, (hy, h)) =
    let (full, called, bits) = set_of x y c rest' h in
    let x' : (x == 0) ≡ false = ground arith in
    let y' : (y == 0) ≡ false = ground arith in
    rw (x', y')
      (ap (λ o. with_set o (λ set'. span_in set' (c_string s rest) 0)) called
        ∙ ground (arith, span_in-prefix_length full (contains (x ∷ y ∷ c)) s rest 0 bits hs))

-- every byte is below 256
abbrev pub IsBytes : List ℕ → Type 0
IsBytes = All (λ c. c < 256)

nul_matches_none :
    (s : List ℕ)
    → IsText s
    → IsBytes s
    → All (λ c. not (eq_ℤ (char_value c) (char_value 0)) ≡ not (contains [] c)) s
unfolding contains
nul_matches_none [] h b = tt
nul_matches_none (c ∷ s) (hc, hs) (bc, bs) = (ground arith, nul_matches_none s hs bs)

one_matches :
    (x : ℕ) (s : List ℕ)
    → x < 256
    → IsBytes s
    → All (λ c. not (eq_ℤ (char_value c) (char_value x)) ≡ not (contains (x ∷ []) c)) s
unfolding contains
one_matches x [] hx b = tt
one_matches x (c ∷ s) hx (bc, bs) = (ground arith, one_matches x s hx bs)

-- `strcspn` returns the length of the longest prefix none of whose bytes is in the set.
pub strcspn-prefix_length :
    (s set rest rest' : List ℕ)
    → IsText s
    → IsBytes s
    → IsText set
    → IsBytes set
    → strcspn (c_string s rest) (c_string set rest')
      ≡ some (prefix_length (λ c. not (contains set c)) s)
unfolding strcspn
strcspn-prefix_length s [] rest [] hs bs h b =
    strchrnul-prefix_length s rest (char_value 0) hs
    ∙ ap some (prefix_length-congr _ _ s (nul_matches_none s hs bs))
strcspn-prefix_length s [] rest (y ∷ rest') hs bs h b =
    strchrnul-prefix_length s rest (char_value 0) hs
    ∙ ap some (prefix_length-congr _ _ s (nul_matches_none s hs bs))
strcspn-prefix_length s (x ∷ []) rest rest' hs bs (hx, h) (bx, b) =
    let x' : (x == 0) ≡ false = ground arith in
    rw x' (
      strchrnul-prefix_length s rest (char_value x) hs
      ∙ ap some (prefix_length-congr _ _ s (one_matches x s bx bs)))
strcspn-prefix_length s (x ∷ y ∷ c) rest rest' hs bs (hx, (hy, h)) b =
    let (full, called, bits) = set_of x y c rest' h in
    let x' : (x == 0) ≡ false = ground arith in
    let y' : (y == 0) ≡ false = ground arith in
    rw (x', y')
      (ap (λ o. with_set o (λ set'. span_out set' (c_string s rest) 0)) called
        ∙ ground (
          arith,
          span_out-prefix_length full (λ c'. not (contains (x ∷ y ∷ c) c')) s rest 0
              (λ t. ground (arith, bits t)) hs,
        ))
