-- ===== src/Pmm/Single.antt =====
-- `pmm_allocateBlock` and `pmm_freeBlock`.
use hexahedron.Base.{
  ℕ, ◌+◌, ◌-◌, ◌*◌, ◌/◌, ◌%◌, ◌≤◌, ◌<◌, ◌≡◌, refl, inl, inr, true, false, ◌||◌, arith, ◌==◌,
  Bool-cases, leb,
}
use hexahedron.Base.Count.{count-le, count_add}
use hexahedron.Base.Outcome.{done, panic}
use hexahedron.Bitmap
use hexahedron.Bitmap.{IsWords, u32, neg_enomem, is_taken}
use hexahedron.Bitmap.Frames.{is_taken-set, is_taken-clear, set_frame-IsWords, clear_frame-IsWords}
use hexahedron.Bitmap.Runs.{AllFree}
use hexahedron.Bitmap.Search.{FirstRun, no_run, run, find_first_lem}
use hexahedron.Pmm.{Pmm, block_size, allocate_block, free_block, find_first_frame}
use hexahedron.Pmm.Invariant.{taken, IsValid, used-lt}

-- the state after frame `f` has been handed out
abbrev pub with_frame : ℕ → Pmm → Pmm
with_frame f s = record s {
  frames = Bitmap.set_frame s.frames f;
  used_blocks = s.used_blocks + 1;
  frame_lock = false;
}

abbrev pub without_frame : ℕ → Pmm → Pmm
without_frame f s = record s {
  frames = Bitmap.clear_frame s.frames f;
  used_blocks = s.used_blocks - 1;
  frame_lock = false;
}

-- the frames that the search looks at: those of whole words
abbrev pub scanned : Pmm → ℕ
scanned s = s.nframes / 32 * 32

with_frame-IsValid :
    {s : Pmm} (f : ℕ) → IsValid s → f < s.max_blocks → taken s f ≡ false → IsValid (with_frame f s)
with_frame-IsValid {s} f v l e = record {
  words = set_frame-IsWords s.frames v.words f;
  sized = v.sized;
  small = v.small;
  counted = omega (
    arith,
    v.counted,
    count_add (taken s) (taken (with_frame f s)) f s.max_blocks (is_taken-set s.frames v.words f) e
        l,
  );
  unlocked = refl;
}

one_free : (s : Pmm) (r : ℕ) → AllFree s.frames r 1 → taken s r ≡ false
one_free s r a = let z : r + 0 ≡ r = omega arith in rw z at (a 0 (omega arith))

free_one : (s : Pmm) (r : ℕ) → taken s r ≡ false → AllFree s.frames r 1
free_one s r e k l = let z : r + k ≡ r = omega arith in rw z e

module _ {s : Pmm} (v : IsValid s) where
  searched : FirstRun s.frames 1 (scanned s) (find_first_frame s)
  unfolding find_first_frame
  searched = find_first_lem s.frames (s.nframes / 32) v.words (omega (arith, v.small, v.sized))

  served :
      (r : ℕ)
      → r < scanned s
      → taken s r ≡ false
      → find_first_frame s ≡ r
      → allocate_block s ≡ done (r * block_size) (with_frame r s)
  unfolding allocate_block
  served r l e h =
      let room = used-lt r v (omega (arith, v.sized)) e in
      let h' : Bitmap.find_first (s.nframes / 32) s.frames ≡ r = unfold find_first_frame in h in
      ground (arith, h', room, v.small, v.sized, v.unlocked)

  exhausted : find_first_frame s ≡ neg_enomem → (t : Pmm) × (allocate_block s ≡ panic t)
  unfolding allocate_block
  exhausted h =
      let h' : Bitmap.find_first (s.nframes / 32) s.frames ≡ neg_enomem =
        unfold find_first_frame in h in
      (record s { frame_lock = false }, ground (arith, h', v.unlocked))

-- The least free frame is handed out.
pub allocated :
    {s : Pmm} (f : ℕ)
    → IsValid s
    → f < scanned s
    → taken s f ≡ false
    → (r : ℕ) × (allocate_block s ≡ done (r * block_size) (with_frame r s))
      × (r ≤ f)
      × (taken s r ≡ false)
      × IsValid (with_frame r s)
allocated {s} f v l e = elim (searched v) [
  | no_run h none_free ↦ absurd (none_free f l (free_one s f e))
  | run less free least ↦ (
    find_first_frame s,
    served v (find_first_frame s) less (one_free s _ free) refl,
    at_most (find_first_frame s) least,
    one_free s _ free,
    with_frame-IsValid (find_first_frame s) v (omega (arith, v.sized)) (one_free s _ free),
  )
]
  where
    at_most : (r : ℕ) → ((g : ℕ) → g < r → ¬ AllFree s.frames g 1) → r ≤ f
    at_most r least = elim (Bool-cases (leb r f)) [
      | inl y ↦ ground arith
      | inr n ↦ absurd (least f (ground arith) (free_one s f e))
    ]

-- While a frame of the searched words is free, `pmm_allocateBlock` returns the address of a free
-- frame at or below it, takes that frame and no other, and keeps bitmap and counters in agreement.
pub allocate_block_lem :
    {s : Pmm} (f : ℕ)
    → IsValid s
    → f < scanned s
    → taken s f ≡ false
    → (r : ℕ) × (t : Pmm) × (allocate_block s ≡ done (r * block_size) t)
      × (r ≤ f)
      × (taken s r ≡ false)
      × ((g : ℕ) → taken t g ≡ ((r == g) || taken s g))
      × (t.used_blocks ≡ s.used_blocks + 1)
      × IsValid t
allocate_block_lem {s} f v l e =
    let (r, called, least, free, valid) = allocated f v l e in
    (r, with_frame r s, called, least, free, is_taken-set s.frames v.words r, refl, valid)

-- When every frame of the searched words is taken, `pmm_allocateBlock` panics.
pub allocate_block_exhausted :
    {s : Pmm}
    → IsValid s
    → ((f : ℕ) → f < scanned s → taken s f ≡ true)
    → (t : Pmm) × (allocate_block s ≡ panic t)
allocate_block_exhausted {s} v full = elim (searched v) [
  | no_run h none_free ↦ exhausted v h
  | run less free least ↦ cc (full _ less, one_free s _ free)
]

pub without_frame-IsValid :
    {s : Pmm} (f : ℕ)
    → IsValid s
    → f < s.max_blocks
    → taken s f ≡ true
    → IsValid (without_frame f s)
without_frame-IsValid {s} f v l e = record {
  words = clear_frame-IsWords s.frames v.words f;
  sized = v.sized;
  small = v.small;
  counted = omega (
    arith,
    v.counted,
    count_add (taken (without_frame f s)) (taken s) f s.max_blocks
        (λ g. ground (arith, is_taken-clear s.frames v.words f g, e))
        (ground (arith, is_taken-clear s.frames v.words f f)) l,
  );
  unlocked = refl;
}

pub freed :
    {s : Pmm} (f : ℕ)
    → IsValid s
    → f < s.max_blocks
    → 0 < s.used_blocks
    → free_block (f * block_size) s ≡ done tt (without_frame f s)
unfolding free_block
freed {s} f v l room =
    let used = count-le (taken s) s.max_blocks in
    let q : f * 4096 / 4096 ≡ f = omega arith in
    let z : f * 4096 % 4096 ≡ 0 = omega arith in
    rw (q, z, v.unlocked) (ground (arith, v.counted, used, v.small))
