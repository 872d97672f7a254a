-- ===== src/Bitmap.antt =====
-- The bitmap of frames that hexahedron/mem/pmm.c and hexahedron/misc/pool.c share: a bit for each
-- frame in words of 32 bits, and the loops that look for free frames. The words are a function from
-- the index, since a window of the search may run past the last word of the bitmap.
pub mod Frames
pub mod Least
pub mod Find
pub mod Runs
pub mod Search
use hexahedron.Base.{
  ℕ, zero, suc, ◌+◌, ◌-◌, ◌*◌, ◌/◌, ◌%◌, ◌^◌, ◌<◌, bit_and, bit_or, Bool, true, false, not, Option,
  none, some, ◌==◌, if◌then◌else◌,
}

abbrev pub Words : Type 0
Words = ℕ → ℕ

abbrev pub IsWords : Words → Type 0
IsWords w = (i : ℕ) → w i < 2 ^ 32

abbrev pub u32 : ℕ → ℕ
u32 n = n % 2 ^ 32

-- -ENOMEM, as the bit pattern of a 32-bit integer
abbrev pub neg_enomem : ℕ
neg_enomem = 2 ^ 32 - 12

abbrev pub index_bit : ℕ → ℕ
index_bit a = a / 32

abbrev pub offset_bit : ℕ → ℕ
offset_bit a = a % 32

abbrev pub put : Words → ℕ → ℕ → Words
put w i v j = if i == j then v else w j

unfoldable pub set_frame : Words → ℕ → Words
set_frame w f = put w (index_bit f) (bit_or (w (index_bit f)) (2 ^ offset_bit f))

-- `~(1 << b)` is the complement within 32 bits
unfoldable pub clear_frame : Words → ℕ → Words
clear_frame w f = put w (index_bit f) (bit_and (w (index_bit f)) (2 ^ 32 - 1 - 2 ^ offset_bit f))

unfoldable pub test_frame : Words → ℕ → ℕ
test_frame w f = bit_and (w (index_bit f)) (2 ^ offset_bit f)

-- the truth value of `test_frame`
unfoldable pub is_taken : Words → ℕ → Bool
unfolding test_frame
is_taken w f = not (test_frame w f == 0)

-- The loop over the bits of one word, with the rounds left; `none` if it ends without a `return`.
unfoldable pub scan_word : ℕ → ℕ → ℕ → Option ℕ
scan_word zero b x = none
scan_word (suc n) b x = if bit_and x (2 ^ b) == 0 then some b else scan_word n (suc b) x

-- The loop over the words.
unfoldable pub find_words : ℕ → ℕ → Words → Option ℕ
unfolding scan_word
find_words zero i w = none
find_words (suc n) i w =
    let next = find_words n (suc i) w in
    if w i == 0xFFFFFFFF
    then next
    else elim (scan_word 32 0 (w i)) [ some b ↦ some (u32 (i * 4 * 8 + b)) | none ↦ next ]

-- what a search returns: the frame found, or -ENOMEM
abbrev pub returned : Option ℕ → ℕ
returned none = neg_enomem
returned (some f) = f

-- The first free frame of a bitmap of `n` words.
unfoldable pub find_first : ℕ → Words → ℕ
unfolding find_words
find_first n w = returned (find_words n 0 w)

-- The loop that counts the free frames of a window of `n` frames from `start`.
unfoldable pub window : ℕ → ℕ → ℕ → Words → ℕ → ℕ → Bool
unfolding is_taken
window zero check free w start n = false
window (suc r) check free w start n =
    let free' = if is_taken w (u32 (start + check)) then free else free + 1 in
    if free' == n then true else window r (check + 1) free' w start n

-- The loop over the bits of a word, where each free bit starts a window.
unfoldable pub scan_runs : ℕ → ℕ → ℕ → Words → ℕ → Option ℕ
unfolding window
scan_runs zero b i w n = none
scan_runs (suc r) b i w n =
    let next = scan_runs r (suc b) i w n in
    if bit_and (w i) (2 ^ b) == 0
    then if window n 0 0 w (u32 (i * 32 + b)) n then some (u32 (i * 4 * 8 + b)) else next
    else next

unfoldable pub find_runs : ℕ → ℕ → Words → ℕ → Option ℕ
unfolding scan_runs
find_runs zero i w n = none
find_runs (suc r) i w n =
    let next = find_runs r (suc i) w n in
    if w i == 0xFFFFFFFF
    then next
    else elim (scan_runs 32 0 i w n) [ some f ↦ some f | none ↦ next ]

-- The first run of `n` free frames, in a bitmap of `words` words.
unfoldable pub find_first_run : ℕ → Words → ℕ → ℕ
unfolding find_runs find_first
find_first_run words w n =
    if n == 0 then 0 else if n == 1 then find_first words w else returned (find_runs words 0 w n)
