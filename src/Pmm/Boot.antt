-- ===== src/Pmm/Boot.antt =====
-- `pmm_init`: the bitmap that it leaves behind.
use hexahedron.Base.{
  ℕ, zero, suc, ◌+◌, ◌*◌, ◌/◌, ◌%◌, ◌^◌, ◌<◌, ◌≡◌, refl, Bool, true, false, arith, ◌==◌,
  if◌then◌else◌, Bool-cases, inl, inr, ltb, ◌⊎◌, ◌∙◌,
}
use native.Mathlib.Nat.{one-le-pow}
use hexahedron.Base.Bits.{bit, bit_low, bit-mod}
use hexahedron.Base.Outcome.{done}
use hexahedron.Bitmap.{Words, IsWords, is_taken}
use hexahedron.Bitmap.Frames.{is_taken-bit}
use hexahedron.Pmm.{Pmm, block_size, memset_word, init}
use hexahedron.Pmm.Invariant.{taken}

-- 0x0F0F0F0F has the low four bits of each byte.
checked : (ℕ → Bool) → ℕ → Bool
checked ok zero = true
checked ok (suc m) = if checked ok m then ok m else false

checked-all : (ok : ℕ → Bool) (m : ℕ) → checked ok m ≡ true → (b : ℕ) → b < m → ok b ≡ true
unfolding checked
checked-all ok zero good b l = elim l [ ]
checked-all ok (suc m) good b l = elim (Bool-cases (b == m)) [
  | inl same ↦ ground arith
  | inr other ↦ checked-all ok m (ground arith) b (ground arith)
]

pattern_table : checked (λ b. bit 0x0F0F0F0F b == (if ltb (b % 8) 4 then 1 else 0)) 32 ≡ true
unfolding checked bit
pattern_table = refl

pattern_bit : (b : ℕ) → b < 32 → bit 0x0F0F0F0F b ≡ (if ltb (b % 8) 4 then 1 else 0)
pattern_bit b h = ground (
  arith,
  checked-all (λ b. bit 0x0F0F0F0F b == (if ltb (b % 8) 4 then 1 else 0)) 32 pattern_table b h,
)

below_four : (k : ℕ) → k < 4 → (k ≡ 0) ⊎ (k ≡ 1) ⊎ (k ≡ 2) ⊎ (k ≡ 3)
below_four k h = omega arith

partial_word_lt :
    (k x : ℕ)
    → k < 4
    → x < 2 ^ 32
    → x / 2 ^ (8 * k) * 2 ^ (8 * k) + 0x0F0F0F0F % 2 ^ (8 * k) < 2 ^ 32
partial_word_lt k x h hx = elim (below_four k h) [
  | inl e ↦ rw e (omega arith)
  | inr (inl e) ↦ rw e (omega arith)
  | inr (inr (inl e)) ↦ rw e (omega arith)
  | inr (inr (inr e)) ↦ rw e (omega arith)
]

mod_two_pow_lt : (x k : ℕ) → x % 2 ^ k < 2 ^ k
mod_two_pow_lt x k = grind (arith, one-le-pow k 2)

partial_word_bit :
    (k x b : ℕ)
    → b < 8 * k
    → bit (x / 2 ^ (8 * k) * 2 ^ (8 * k) + 0x0F0F0F0F % 2 ^ (8 * k)) b ≡ bit 0x0F0F0F0F b
partial_word_bit k x b h =
    bit_low (8 * k) (x / 2 ^ (8 * k)) (0x0F0F0F0F % 2 ^ (8 * k)) b
      (mod_two_pow_lt 0x0F0F0F0F (8 * k)) h
    ∙ bit-mod (8 * k) 0x0F0F0F0F b h

module _ (words : Words) (h : IsWords words) (n : ℕ) where
  memset_word-IsWords : IsWords (memset_word n words)
  unfolding memset_word
  memset_word-IsWords i = ground (arith, h i, partial_word_lt (n % 4) (words i) (omega arith) (h i))

  bit-memset_word :
      (f : ℕ) → f < 8 * n → bit (memset_word n words (f / 32)) (f % 32) ≡ bit 0x0F0F0F0F (f % 32)
  unfolding memset_word
  bit-memset_word f l = elim (Bool-cases (ltb (f / 32) (n / 4))) [
    | inl t ↦ rw t refl
    | inr t ↦
        let last : (f / 32 == n / 4) ≡ true = ground arith in
        rw (t, last) (partial_word_bit (n % 4) (words (f / 32)) (f % 32) (ground arith))
  ]

  memset_word_taken : (f : ℕ) → f < 8 * n → is_taken (memset_word n words) f ≡ ltb (f % 8) 4
  memset_word_taken f l =
      rw
        (
          is_taken-bit (memset_word n words) f memset_word-IsWords,
          bit-memset_word f l,
          pattern_bit (f % 32) (omega arith),
        )
        (let e : f % 32 % 8 ≡ f % 8 = omega arith in rw e (ground arith))

-- After `pmm_init` the counter says that every block is in use, but of the frames in the bitmap's
-- bytes only the first four of every eight are taken.
pub init_lem :
    (memsize bitmap : ℕ) (words : Words) (s : Pmm)
    → 0 < memsize
    → 0 < bitmap
    → IsWords words
    → (t : Pmm) × (init memsize bitmap words s ≡ done 0 t)
      × (t.used_blocks ≡ memsize / block_size)
      × (t.max_blocks ≡ memsize / block_size)
      × ((f : ℕ) → f < t.max_blocks / 8 * 8 → taken t f ≡ ltb (f % 8) 4)
unfolding init
init_lem memsize bitmap words s hm hb h = (
  record s {
    memory_size = memsize;
    max_blocks = memsize / block_size;
    used_blocks = memsize / block_size;
    nframes = memsize / block_size;
    frames = memset_word (memsize / block_size / 8) words;
  },
  ground arith,
  refl,
  refl,
  λ f l. memset_word_taken words h (memsize / block_size / 8) f (omega arith),
)
