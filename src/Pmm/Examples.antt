-- ===== src/Pmm/Examples.antt =====
-- Runs of the frame allocator, and its theorems at one memory of 64 frames.
use hexahedron.Base.{
  ℕ, ◌+◌, ◌*◌, ◌/◌, ◌%◌, ◌≤◌, ◌<◌, ◌≡◌, refl, true, false, not, ◌&&◌, ◌||◌, arith, ◌==◌,
  if◌then◌else◌, ltb, inl, inr, ◌⊎◌,
}
use hexahedron.Base.Count.{count, count_full, in_run}
use hexahedron.Base.Outcome.{done, panic}
use hexahedron.Bitmap.{is_taken, find_first}
use hexahedron.Bitmap.Runs.{AllFree}
use hexahedron.Pmm.{
  Pmm, block_size, init, allocate_block, free_block, allocate_blocks, free_blocks,
  initialize_region,
}
use hexahedron.Pmm.Invariant.{taken, IsValid}
use hexahedron.Pmm.Single.{allocate_block_lem, allocate_block_exhausted}
use hexahedron.Pmm.Release.{free_block_lem, free_block-allocate_block}
use hexahedron.Pmm.Boot.{init_lem}
use hexahedron.Pmm.Regions.{initialize_region_lem}
use hexahedron.Pmm.Multiple.{allocate_blocks_lem, free_blocks_lem}

-- frames 0 to 2 are in use
abbrev sample : Pmm
sample = record {
  frames = λ i. if i == 0 then 7 else 0;
  nframes = 64;
  memory_size = 64 * 4096;
  used_blocks = 3;
  max_blocks = 64;
  frame_lock = false;
}

sample-count : 3 ≡ count (taken sample) 64
unfolding count is_taken
sample-count = refl

sample-IsValid : IsValid sample
sample-IsValid = record {
  words = λ i. ground arith;
  sized = refl;
  small = omega arith;
  counted = sample-count;
  unlocked = refl;
}

-- 33 frames: the 32 of the only whole word are in use, and the last is free
abbrev packed : Pmm
packed = record {
  frames = λ i. if i == 0 then 0xFFFFFFFF else 0;
  nframes = 33;
  memory_size = 33 * 4096;
  used_blocks = 32;
  max_blocks = 33;
  frame_lock = false;
}

packed-count : (32 ≡ count (taken packed) 33) × (count (taken packed) 32 ≡ 32)
unfolding count is_taken
packed-count = (refl, refl)

packed-IsValid : IsValid packed
packed-IsValid = record {
  words = λ i. ground arith;
  sized = refl;
  small = omega arith;
  counted = packed-count.0;
  unlocked = refl;
}

free_at_5 : taken sample 5 ≡ false
unfolding is_taken
free_at_5 = refl

taken_at_2 : taken sample 2 ≡ true
unfolding is_taken
taken_at_2 = refl

low_taken : (g : ℕ) → in_run 0 3 g ≡ true → taken sample g ≡ true
unfolding is_taken
low_taken g h = elim (three g (ground arith)) [
  | inl e ↦ rw e
  | inr (inl e) ↦ rw e
  | inr (inr e) ↦ rw e
]
  where
    three : (n : ℕ) → n < 3 → (n ≡ 0) ⊎ (n ≡ 1) ⊎ (n ≡ 2)
    three n l = omega arith

middle_free : (g : ℕ) → in_run 4 2 g ≡ true → taken sample g ≡ false
unfolding is_taken
middle_free g h = elim (two g (ground arith) (ground arith)) [ inl e ↦ rw e | inr e ↦ rw e ]
  where
    two : (n : ℕ) → 4 ≤ n → n < 6 → (n ≡ 4) ⊎ (n ≡ 5)
    two n l m = omega arith

pair_free : AllFree (sample).frames 4 2
pair_free k l = middle_free (4 + k) (ground arith)

allocate_block_example :
    (r : ℕ) × (t : Pmm) × (allocate_block sample ≡ done (r * block_size) t)
    × (r ≤ 5)
    × (taken sample r ≡ false)
    × ((g : ℕ) → taken t g ≡ ((r == g) || taken sample g))
    × (t.used_blocks ≡ 3 + 1)
    × IsValid t
allocate_block_example = allocate_block_lem {s = sample} 5 sample-IsValid (omega arith) free_at_5

allocate_block_exhausted_example : (t : Pmm) × (allocate_block packed ≡ panic t)
allocate_block_exhausted_example =
    allocate_block_exhausted {s = packed} packed-IsValid
      (λ f l. count_full (taken packed) 32 f packed-count.1 (omega (arith, l)))

free_block_example :
    (t : Pmm) × (free_block (2 * block_size) sample ≡ done tt t)
    × ((g : ℕ) → taken t g ≡ (not (2 == g) && taken sample g))
    × (3 ≡ t.used_blocks + 1)
    × IsValid t
free_block_example = free_block_lem {s = sample} 2 sample-IsValid (omega arith) taken_at_2

free_block-allocate_block_example :
    (address : ℕ) × (t u : Pmm) × (allocate_block sample ≡ done address t)
    × (free_block address t ≡ done tt u)
    × ((g : ℕ) → taken u g ≡ taken sample g)
    × (u.used_blocks ≡ 3)
free_block-allocate_block_example =
    free_block-allocate_block {s = sample} 5 sample-IsValid (omega arith) free_at_5

init_example :
    (t : Pmm) × (init 0x100000 0xC0000000 (λ i. 0) sample ≡ done 0 t)
    × (t.used_blocks ≡ 0x100000 / block_size)
    × (t.max_blocks ≡ 0x100000 / block_size)
    × ((f : ℕ) → f < t.max_blocks / 8 * 8 → taken t f ≡ ltb (f % 8) 4)
init_example =
    init_lem 0x100000 0xC0000000 (λ i. 0) sample (omega arith) (omega arith) (λ i. omega arith)

initialize_region_example :
    (t : Pmm) × (initialize_region (0 * block_size) 12300 sample ≡ done tt t)
    × ((g : ℕ) → taken t g ≡ (not (in_run 0 3 g) && taken sample g))
    × IsValid t
initialize_region_example =
    initialize_region_lem {s = sample} 0 12300 sample-IsValid (omega arith) low_taken

allocate_blocks_example :
    (r : ℕ) × (t : Pmm) × (allocate_blocks 2 sample ≡ done (r * block_size) t)
    × AllFree (sample).frames r 2
    × ((g : ℕ) → g < r → ¬ AllFree (sample).frames g 2)
    × ((g : ℕ) → taken t g ≡ (in_run r 2 g || taken sample g))
    × (r + 2 ≤ 64 → IsValid t)
allocate_blocks_example =
    allocate_blocks_lem {s = sample} 2 4 sample-IsValid (omega arith) (omega arith) (omega arith)
      pair_free

free_blocks_example :
    (t : Pmm) × (free_blocks (0 * block_size) 3 sample ≡ done tt t)
    × ((g : ℕ) → taken t g ≡ (not (in_run 0 3 g) && taken sample g))
    × IsValid t
free_blocks_example = free_blocks_lem {s = sample} 3 0 sample-IsValid (omega arith) low_taken

-- The first block handed out is the first free one.
first_block : (t : Pmm) × (allocate_block sample ≡ done (3 * 4096) t)
unfolding allocate_block find_first
first_block = (_, refl)
