-- ===== src/Bitmap/Find.antt =====
-- The search for one free frame returns the least one.
use hexahedron.Base.{
  ℕ, zero, suc, ◌+◌, ◌-◌, ◌*◌, ◌/◌, ◌%◌, ◌^◌, ◌≤◌, ◌<◌, ◌≡◌, refl, inl, inr, false, not, Option,
  none, some, arith, ◌==◌, Bool-cases, bit_and, Bool,
}
use native.Mathlib.Nat.{one-le-pow}
use hexahedron.Base.Bits.{bit, bit_lt_two, bit_and-two_pow, bit-ones}
use hexahedron.Bitmap.{Words, IsWords, u32, is_taken, scan_word, find_words}
use hexahedron.Bitmap.Frames.{is_taken-bit}
use hexahedron.Bitmap.Least.{Least, absent, found, nothing, here, past, widen}

abbrev pub is_free : Words → ℕ → Bool
is_free w g = not (is_taken w g)

-- the test of the loop over a word
abbrev is_clear : ℕ → ℕ → Bool
is_clear x b = bit_and x (2 ^ b) == 0

pub is_clear-bit : (x b : ℕ) → x < 2 ^ 32 → is_clear x b ≡ (bit x b == 0)
is_clear-bit x b h = ground (arith, bit_and-two_pow b x 32 h, bit_lt_two x b, one-le-pow b 2)

-- Frame `i * 32 + b` is bit `b` of word `i`.
pub is_free_at :
    (w : Words) (i b g : ℕ) → IsWords w → i * 32 + b ≡ g → b < 32 → is_free w g ≡ is_clear (w i) b
is_free_at w i b g h e l =
    let q : g / 32 ≡ i = omega arith in
    let r : g % 32 ≡ b = omega arith in
    rw (is_taken-bit w g h, q, r, is_clear-bit (w i) b (h i)) (ground (arith, bit_lt_two (w i) b))

scan_word-Least : (n b x : ℕ) → b + n ≡ 32 → Least (is_clear x) b 32 (scan_word n b x)
unfolding scan_word
scan_word-Least zero b x e = absent λ c l m. absurd (omega arith)
scan_word-Least (suc n) b x e = elim (Bool-cases (is_clear x b)) [
  | inl yes' ↦ rw yes' (here (is_clear x) (omega arith) yes')
  | inr no' ↦ rw no' (
      past (is_clear x) (omega arith) (λ c l m. let e' : c ≡ b = omega arith in rw e' no')
        (scan_word-Least n (suc b) x (omega arith)))
]

-- A full word holds no free frame.
full_word : (x b : ℕ) → x ≡ 0xFFFFFFFF → x < 2 ^ 32 → b < 32 → is_clear x b ≡ false
full_word x b e h l = rw (is_clear-bit x b h, e) (ground (arith, bit-ones 32 b l))

module _ (w : Words) (h : IsWords w) where
  pub full_frames :
      (i : ℕ) → w i ≡ 0xFFFFFFFF → (c : ℕ) → i * 32 ≤ c → c < suc i * 32 → is_free w c ≡ false
  full_frames i e c l m =
      rw (is_free_at w i (c - i * 32) c h (omega arith) (omega arith))
        (full_word (w i) (c - i * 32) e (h i) (omega arith))

  -- What the scan of word `i` says of its frames.
  word_frames :
      (i : ℕ) {o : Option ℕ}
      → suc i * 32 ≤ 2 ^ 32
      → Least (is_clear (w i)) 0 32 o
      → Least
          (is_free w)
          (i * 32)
          (suc i * 32)
          (elim o [ some b ↦ some (u32 (i * 4 * 8 + b)) | none ↦ none ])
  word_frames i m (absent g) = absent λ c l k.
      rw (is_free_at w i (c - i * 32) c h (omega arith) (omega arith))
        (g (c - i * 32) (omega arith) (omega arith))
  word_frames i m (found {r} a b e g) =
      let s : u32 (i * 4 * 8 + r) ≡ i * 32 + r = omega arith in
      rw s (
        found (omega arith) (omega arith) (rw (is_free_at w i r (i * 32 + r) h refl b) e) λ c l k.
          rw (is_free_at w i (c - i * 32) c h (omega arith) (omega arith))
            (g (c - i * 32) (omega arith) (omega arith)))

  pub find_words-Least :
      (n i m : ℕ)
      → i + n ≡ m
      → m * 32 ≤ 2 ^ 32
      → Least (is_free w) (i * 32) (m * 32) (find_words n i w)
  unfolding find_words
  find_words-Least zero i m e l = let e' : m ≡ i = omega arith in rw e' (nothing (is_free w))
  find_words-Least (suc n) i m e l = elim (Bool-cases (w i == 0xFFFFFFFF)) [
    | inl yes' ↦ rw yes' (
        past (is_free w) (omega arith) (full_frames i (ground arith))
          (find_words-Least n (suc i) m (omega arith) l))
    | inr no' ↦ rw no' (
        joined (scan_word 32 0 (w i))
          (word_frames i (omega arith) (scan_word-Least 32 0 (w i) refl))
          (find_words-Least n (suc i) m (omega arith) l))
  ]
    where
      joined :
          (o : Option ℕ) {next : Option ℕ}
          → Least
              (is_free w)
              (i * 32)
              (suc i * 32)
              (elim o [ some b ↦ some (u32 (i * 4 * 8 + b)) | none ↦ none ])
          → Least (is_free w) (suc i * 32) (m * 32) next
          → Least
              (is_free w)
              (i * 32)
              (m * 32)
              (elim o [ some b ↦ some (u32 (i * 4 * 8 + b)) | none ↦ next ])
      joined none (absent g) x = past (is_free w) (omega arith) g x
      joined (some b) y x = widen (is_free w) (omega arith) y
