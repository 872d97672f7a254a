-- ===== src/Pool/Chunks.antt =====
-- `pool_allocateChunk`, and when the bitmap and the counter of a pool agree.
use native.Mathlib.Nat.{mul-div_cancel}
use hexahedron.Base.{
  ℕ, suc, ◌+◌, ◌-◌, ◌*◌, ◌/◌, ◌^◌, ◌≤◌, ◌<◌, ◌≡◌, refl, inl, inr, Bool, true, false, ◌||◌, arith,
  ap, ◌∙◌, ◌==◌, some, Bool-cases,
}
use hexahedron.Base.Count.{count, count-le, count_add, count_full}
use hexahedron.Base.Outcome.{done}
use hexahedron.Bitmap
use hexahedron.Bitmap.{IsWords, u32, neg_enomem, is_taken}
use hexahedron.Bitmap.Frames.{is_taken-set, set_frame-IsWords}
use hexahedron.Bitmap.Runs.{AllFree}
use hexahedron.Bitmap.Search.{FirstRun, no_run, run, find_first_lem}
use hexahedron.Pool.{Pool, allocate_chunk, find_first_frame}

abbrev pub taken : Pool → ℕ → Bool
taken p = is_taken p.bitmap

-- A pool of `n` chunks, where the bitmap and the count of bytes in use agree.
pub record IsValid (n : ℕ) (p : Pool) : Type 0 where
  pub words : IsWords p.bitmap
  pub sized : p.allocated ≡ n * p.chunk_size
  pub positive : 0 < p.chunk_size
  pub small : p.allocated + p.starting_addr < 2 ^ 32
  pub counted : p.used ≡ count (taken p) n * p.chunk_size
  pub unlocked : p.lock ≡ some false

abbrev pub with_frame : ℕ → Pool → Pool
with_frame f p = record p {
  bitmap = Bitmap.set_frame p.bitmap f;
  used = p.used + p.chunk_size;
  lock = some false;
}

frames_le : (n k : ℕ) → 0 < k → n ≤ n * k
frames_le n k h =
    let e : k ≡ suc (k - 1) = omega arith in
    let f : n * k ≡ n + n * (k - 1) = ap (λ t. n * t) e ∙ grind arith in omega (arith, f)

pub part_le : (r n k : ℕ) → r < n → r * k + k ≤ n * k
part_le r n k l =
    let e : n ≡ r + 1 + (n - r - 1) = omega arith in
    let f : n * k ≡ r * k + k + (n - r - 1) * k = ap (λ t. t * k) e ∙ grind arith in
    omega (arith, f)

pub mul_le : (c n k : ℕ) → c ≤ n → c * k ≤ n * k
mul_le c n k l =
    let e : n ≡ c + (n - c) = omega arith in
    let f : n * k ≡ c * k + (n - c) * k = ap (λ t. t * k) e ∙ grind arith in omega (arith, f)

module _ {n : ℕ} {p : Pool} (v : IsValid n p) where
  quotient : p.allocated / p.chunk_size ≡ n
  quotient = ap (λ t. t / p.chunk_size) v.sized ∙ mul-div_cancel n v.positive

  fits : n ≤ p.allocated
  fits = omega (arith, v.sized, frames_le n p.chunk_size v.positive)

  -- A free frame leaves room for a chunk.
  room : (f : ℕ) → f < n → taken p f ≡ false → p.used + p.chunk_size ≤ p.allocated
  room f l e =
      let bound = count-le (taken p) n in
      let full = count_full (taken p) n f in
      let less : suc (count (taken p) n) ≤ n = ground (arith, bound, full) in
      omega (arith, part_le (count (taken p) n) n p.chunk_size less, v.sized, v.counted)

  searched : FirstRun p.bitmap 1 (n / 32 * 32) (find_first_frame p)
  unfolding find_first_frame
  searched = rw quotient (find_first_lem p.bitmap (n / 32) v.words (omega (arith, fits, v.small)))

  with_frame-IsValid : (f : ℕ) → f < n → taken p f ≡ false → IsValid n (with_frame f p)
  with_frame-IsValid f l e =
      let more =
        count_add (taken p) (taken (with_frame f p)) f n (is_taken-set p.bitmap v.words f) e l in
      let e' : count (taken (with_frame f p)) n * p.chunk_size
          ≡ count (taken p) n * p.chunk_size + p.chunk_size =
        ap (λ t. t * p.chunk_size) more ∙ grind arith in
      record {
        words = set_frame-IsWords p.bitmap v.words f;
        sized = v.sized;
        positive = v.positive;
        small = v.small;
        counted = omega (arith, v.counted, e');
        unlocked = refl;
      }

  served :
      (r : ℕ)
      → r < n / 32 * 32
      → taken p r ≡ false
      → find_first_frame p ≡ r
      → allocate_chunk p ≡ done (p.starting_addr + r * p.chunk_size) (with_frame r p)
  unfolding allocate_chunk
  served r l e h =
      let space = room r (omega (arith, l)) e in
      let h' : Bitmap.find_first (p.allocated / p.chunk_size / 32) p.bitmap ≡ r =
        unfold find_first_frame in h in
      let part = part_le r n p.chunk_size (omega (arith, l)) in
      let high : r < 2 ^ 32 - 12 = omega (arith, l, fits, v.small) in
      ground (arith, h', space, v.unlocked, v.sized, v.small, part, high)

  exhausted :
      find_first_frame p ≡ neg_enomem → allocate_chunk p ≡ done 0 (record p { lock = some false })
  unfolding allocate_chunk
  exhausted h =
      let h' : Bitmap.find_first (p.allocated / p.chunk_size / 32) p.bitmap ≡ neg_enomem =
        unfold find_first_frame in h in
      ground (arith, h', v.unlocked)

  one_free : (r : ℕ) → AllFree p.bitmap r 1 → taken p r ≡ false
  one_free r a = let z : r + 0 ≡ r = omega arith in rw z at (a 0 (omega arith))

  free_one : (r : ℕ) → taken p r ≡ false → AllFree p.bitmap r 1
  free_one r e k l = let z : r + k ≡ r = omega arith in rw z e

-- While a chunk of the searched words is free, `pool_allocateChunk` returns the address of the least
-- free chunk, which lies within the pool, marks that chunk and no other, and keeps bitmap and counter
-- in agreement.
pub allocate_chunk_lem :
    {n : ℕ} {p : Pool} (f : ℕ)
    → IsValid n p
    → f < n / 32 * 32
    → taken p f ≡ false
    → (r : ℕ) × (t : Pool) × (allocate_chunk p ≡ done (p.starting_addr + r * p.chunk_size) t)
      × (r * p.chunk_size + p.chunk_size ≤ p.allocated)
      × (taken p r ≡ false)
      × ((g : ℕ) → g < r → taken p g ≡ true)
      × ((g : ℕ) → taken t g ≡ ((r == g) || taken p g))
      × (t.used ≡ p.used + p.chunk_size)
      × IsValid n t
allocate_chunk_lem {n} {p} f v l e = elim (searched v) [
  | no_run h none_free ↦ absurd (none_free f l (free_one v f e))
  | run less free least ↦
      let r = find_first_frame p in
      (
        r,
        with_frame r p,
        served v r less (one_free v r free) refl,
        omega (arith, part_le r n p.chunk_size (omega (arith, less)), v.sized),
        one_free v r free,
        λ g l'. before g (least g l'),
        is_taken-set p.bitmap v.words r,
        refl,
        with_frame-IsValid v r (omega (arith, less)) (one_free v r free),
      )
]
  where
    before : (g : ℕ) → ¬ AllFree p.bitmap g 1 → taken p g ≡ true
    before g h = elim (Bool-cases (taken p g)) [ inl t ↦ t | inr o ↦ absurd (h (free_one v g o)) ]

-- When every chunk of the searched words is in use, `pool_allocateChunk` returns NULL and leaves the
-- pool as it is. The last chunks of a pool, behind the last whole word of its bitmap, are never
-- searched; so a pool of fewer than 32 chunks has no chunk to give.
pub allocate_chunk_exhausted :
    {n : ℕ} {p : Pool}
    → IsValid n p
    → ((f : ℕ) → f < n / 32 * 32 → taken p f ≡ true)
    → allocate_chunk p ≡ done 0 (record p { lock = some false })
allocate_chunk_exhausted {n} {p} v full = elim (searched v) [
  | no_run h none_free ↦ exhausted v h
  | run less free least ↦ cc (full _ less, one_free v _ free)
]
