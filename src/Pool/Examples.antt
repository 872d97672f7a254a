-- ===== src/Pool/Examples.antt =====
-- A pool of 32 chunks of 64 bytes at 0x1000.
use hexahedron.Base.{
  ℕ, ◌+◌, ◌*◌, ◌≤◌, ◌<◌, ◌≡◌, refl, true, false, not, ◌&&◌, ◌||◌, arith, ◌==◌, some, if◌then◌else◌,
}
use hexahedron.Base.Count.{count}
use hexahedron.Base.Outcome.{done}
use hexahedron.Bitmap.{Words, is_taken}
use hexahedron.Pool.{Pool, allocate_chunk, free_chunk}
use hexahedron.Pool.Chunks.{taken, IsValid, allocate_chunk_lem}
use hexahedron.Pool.Release.{free_chunk_lem}

abbrev bits : ℕ → Words
bits first i = if i == 0 then first else 0

abbrev pool : ℕ → ℕ → Pool
pool first used = record {
  lock = some false;
  bitmap = bits first;
  chunk_size = 64;
  starting_addr = 0x1000;
  allocated = 2048;
  used = used;
}

empty-IsValid : IsValid 32 (pool 0 0)
unfolding count is_taken
empty-IsValid = record {
  words = λ i. ground arith;
  sized = refl;
  positive = omega arith;
  small = omega arith;
  counted = refl;
  unlocked = refl;
}

one-IsValid : IsValid 32 (pool 1 64)
unfolding count is_taken
one-IsValid = record {
  words = λ i. ground arith;
  sized = refl;
  positive = omega arith;
  small = omega arith;
  counted = refl;
  unlocked = refl;
}

-- a pool of two chunks
abbrev small_pool : Pool
small_pool = record (pool 0 0) { allocated = 128 }

small-IsValid : IsValid 2 small_pool
unfolding count is_taken
small-IsValid = record {
  words = λ i. ground arith;
  sized = refl;
  positive = omega arith;
  small = omega arith;
  counted = refl;
  unlocked = refl;
}

first_free : taken (pool 0 0) 3 ≡ false
unfolding is_taken
first_free = refl

first_used : taken (pool 1 64) 0 ≡ true
unfolding is_taken
first_used = refl

allocate_chunk_example :
    (r : ℕ) × (t : Pool) × (allocate_chunk (pool 0 0) ≡ done (0x1000 + r * 64) t)
    × (r * 64 + 64 ≤ 2048)
    × (taken (pool 0 0) r ≡ false)
    × ((g : ℕ) → g < r → taken (pool 0 0) g ≡ true)
    × ((g : ℕ) → taken t g ≡ ((r == g) || taken (pool 0 0) g))
    × (t.used ≡ 64)
    × IsValid 32 t
allocate_chunk_example = allocate_chunk_lem 3 empty-IsValid (omega arith) first_free

free_chunk_example :
    (t : Pool) × (free_chunk 0x1000 (pool 1 64) ≡ done tt t)
    × ((g : ℕ) → taken t g ≡ (not (0 == g) && taken (pool 1 64) g))
    × (64 ≡ t.used + 64)
    × IsValid 32 t
free_chunk_example = free_chunk_lem 0 one-IsValid (omega arith) first_used
