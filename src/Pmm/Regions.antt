-- ===== src/Pmm/Regions.antt =====
-- `pmm_initializeRegion`: a region that was in use becomes available.
use hexahedron.Base.{
  ℕ, zero, suc, ◌+◌, ◌-◌, ◌*◌, ◌/◌, ◌^◌, ◌≤◌, ◌<◌, ◌≡◌, refl, true, false, not, ◌&&◌, ◌||◌, arith,
  ◌==◌, Bool-cases, inl, inr,
}
use hexahedron.Base.Count.{count, count-le, count_add, in_run}
use hexahedron.Base.Outcome.{done}
use hexahedron.Bitmap
use hexahedron.Bitmap.{IsWords, u32}
use hexahedron.Bitmap.Frames.{is_taken-clear, is_taken-set, clear_frame-IsWords, set_frame-IsWords}
use hexahedron.Pmm.{
  Pmm, block_size, clear_region, set_region, initialize_region, deinitialize_region,
}
use hexahedron.Pmm.Invariant.{taken, IsValid}

-- Bitmap and counters agree while the lock is held.
pub record IsHeld (s : Pmm) : Type 0 where
  pub words : IsWords s.frames
  pub sized : s.nframes ≡ s.max_blocks
  pub small : s.max_blocks ≤ 2 ^ 20
  pub counted : s.used_blocks ≡ count (taken s) s.max_blocks

-- What a loop over a region leaves alone.
pub record SameSizes (s t : Pmm) : Type 0 where
  pub nframes : t.nframes ≡ s.nframes
  pub max_blocks : t.max_blocks ≡ s.max_blocks
  pub memory_size : t.memory_size ≡ s.memory_size
  pub frame_lock : t.frame_lock ≡ s.frame_lock

abbrev cleared_one : ℕ → Pmm → Pmm
cleared_one a s = record s {
  frames = Bitmap.clear_frame s.frames a;
  used_blocks = u32 (s.used_blocks + 2 ^ 32 - 1);
}

abbrev set_one : ℕ → Pmm → Pmm
set_one a s = record s {
  frames = Bitmap.set_frame s.frames a;
  used_blocks = u32 (s.used_blocks + 1);
}

cleared_one-IsHeld :
    {s : Pmm} (a : ℕ) → IsHeld s → a < s.max_blocks → taken s a ≡ true → IsHeld (cleared_one a s)
cleared_one-IsHeld {s} a v l e =
    let after = is_taken-clear s.frames v.words a in
    let bound = count-le (taken s) s.max_blocks in
    let less =
      count_add (taken (cleared_one a s)) (taken s) a s.max_blocks (λ g. ground (arith, after g, e))
        (ground (arith, after a)) l in
    record {
      words = clear_frame-IsWords s.frames v.words a;
      sized = v.sized;
      small = v.small;
      counted = omega (arith, v.counted, v.small, bound, less);
    }

cleared_one-used :
    {s : Pmm} (a : ℕ)
    → IsHeld s
    → a < s.max_blocks
    → taken s a ≡ true
    → s.used_blocks ≡ (cleared_one a s).used_blocks + 1
cleared_one-used {s} a v l e =
    let after = is_taken-clear s.frames v.words a in
    let less =
      count_add (taken (cleared_one a s)) (taken s) a s.max_blocks (λ g. ground (arith, after g, e))
        (ground (arith, after a)) l in
    omega (arith, v.counted, v.small, count-le (taken s) s.max_blocks, less)

clear_region_loop :
    (n a : ℕ) {s : Pmm}
    → IsHeld s
    → a + n ≤ s.max_blocks
    → ((g : ℕ) → in_run a n g ≡ true → taken s g ≡ true)
    → IsHeld (clear_region n a s)
      × SameSizes s (clear_region n a s)
      × ((g : ℕ) → taken (clear_region n a s) g ≡ (not (in_run a n g) && taken s g))
      × (s.used_blocks ≡ (clear_region n a s).used_blocks + n)
unfolding clear_region
clear_region_loop zero a v l h = (v, ground arith, λ g. ground arith, omega arith)
clear_region_loop (suc n) a {s} v l h =
    let hit = h a (ground arith) in
    let after = is_taken-clear s.frames v.words a in
    let (held, same, bits, used) =
      clear_region_loop n (a + 1) {s = cleared_one a s} (cleared_one-IsHeld a v (omega arith) hit)
        (omega arith) (λ g e. ground (arith, after g, h g)) in
    (
      held,
      record {
        nframes = same.nframes;
        max_blocks = same.max_blocks;
        memory_size = same.memory_size;
        frame_lock = same.frame_lock;
      },
      λ g. ground (arith, bits g, after g),
      omega (arith, used, cleared_one-used a v (omega arith) hit),
    )

set_one-used :
    {s : Pmm} (a : ℕ)
    → IsHeld s
    → a < s.max_blocks
    → taken s a ≡ false
    → (set_one a s).used_blocks ≡ s.used_blocks + 1
set_one-used {s} a v l e = omega (arith, v.counted, v.small, count-le (taken s) s.max_blocks)

set_one-IsHeld :
    {s : Pmm} (a : ℕ) → IsHeld s → a < s.max_blocks → taken s a ≡ false → IsHeld (set_one a s)
set_one-IsHeld {s} a v l e = record {
  words = set_frame-IsWords s.frames v.words a;
  sized = v.sized;
  small = v.small;
  counted = omega (
    arith,
    v.counted,
    set_one-used a v l e,
    count_add (taken s) (taken (set_one a s)) a s.max_blocks (is_taken-set s.frames v.words a) e l,
  );
}

set_region_loop :
    (n a : ℕ) {s : Pmm}
    → IsHeld s
    → a + n ≤ s.max_blocks
    → ((g : ℕ) → in_run a n g ≡ true → taken s g ≡ false)
    → IsHeld (set_region n a s)
      × SameSizes s (set_region n a s)
      × ((g : ℕ) → taken (set_region n a s) g ≡ (in_run a n g || taken s g))
      × ((set_region n a s).used_blocks ≡ s.used_blocks + n)
unfolding set_region
set_region_loop zero a v l h = (v, ground arith, λ g. ground arith, omega arith)
set_region_loop (suc n) a {s} v l h =
    let hit = h a (ground arith) in
    let after = is_taken-set s.frames v.words a in
    let (held, same, bits, used) =
      set_region_loop n (a + 1) {s = set_one a s} (set_one-IsHeld a v (omega arith) hit)
        (omega arith) (λ g e. ground (arith, after g, h g)) in
    (
      held,
      record {
        nframes = same.nframes;
        max_blocks = same.max_blocks;
        memory_size = same.memory_size;
        frame_lock = same.frame_lock;
      },
      λ g. ground (arith, bits g, after g),
      omega (arith, used, set_one-used a v (omega arith) hit),
    )

-- the same state with the lock taken
abbrev locked : Pmm → Pmm
locked s = record s { frame_lock = true }

locked-IsHeld : {s : Pmm} → IsValid s → IsHeld (locked s)
locked-IsHeld v = record { words = v.words; sized = v.sized; small = v.small; counted = v.counted }

unlocked-IsValid : {s : Pmm} → IsHeld s → IsValid (record s { frame_lock = false })
unlocked-IsValid v = record {
  words = v.words;
  sized = v.sized;
  small = v.small;
  counted = v.counted;
  unlocked = refl;
}

-- `pmm_initializeRegion` over blocks that are all in use makes exactly those available, and keeps
-- bitmap and counters in agreement; part of a block at the end of the region is left in use.
pub initialize_region_lem :
    {s : Pmm} (a size : ℕ)
    → IsValid s
    → a + size / block_size ≤ s.max_blocks
    → ((g : ℕ) → in_run a (size / block_size) g ≡ true → taken s g ≡ true)
    → (t : Pmm) × (initialize_region (a * block_size) size s ≡ done tt t)
      × ((g : ℕ) → taken t g ≡ (not (in_run a (size / block_size) g) && taken s g))
      × IsValid t
unfolding initialize_region
initialize_region_lem {s} a size v l h = elim (Bool-cases (size == 0)) [
  | inl z ↦ let e : size ≡ 0 = ground arith in rw e (s, ground arith, λ g. ground arith, v)
  | inr z ↦
      let (held, same, bits, used) =
        clear_region_loop (size / block_size) a {s = locked s} (locked-IsHeld v) l h in
      let q : a * 4096 / 4096 ≡ a = omega arith in
      (
        record (clear_region (size / block_size) a (locked s)) { frame_lock = false },
        rw (z, q, v.unlocked) refl,
        bits,
        unlocked-IsValid held,
      )
]

-- `pmm_deinitializeRegion` over blocks that are all available takes exactly those, and keeps bitmap
-- and counters in agreement; part of a block at the end of the region is left available.
pub deinitialize_region_lem :
    {s : Pmm} (a size : ℕ)
    → IsValid s
    → a + size / block_size ≤ s.max_blocks
    → ((g : ℕ) → in_run a (size / block_size) g ≡ true → taken s g ≡ false)
    → (t : Pmm) × (deinitialize_region (a * block_size) size s ≡ done tt t)
      × ((g : ℕ) → taken t g ≡ (in_run a (size / block_size) g || taken s g))
      × IsValid t
unfolding deinitialize_region
deinitialize_region_lem {s} a size v l h = elim (Bool-cases (size == 0)) [
  | inl z ↦ let e : size ≡ 0 = ground arith in rw e (s, ground arith, λ g. ground arith, v)
  | inr z ↦
      let (held, same, bits, used) =
        set_region_loop (size / block_size) a {s = locked s} (locked-IsHeld v) l h in
      let q : a * 4096 / 4096 ≡ a = omega arith in
      (
        record (set_region (size / block_size) a (locked s)) { frame_lock = false },
        rw (z, q, v.unlocked) refl,
        bits,
        unlocked-IsValid held,
      )
]
