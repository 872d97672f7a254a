-- ===== src/Pmm/Multiple.antt =====
-- `pmm_allocateBlocks` and `pmm_freeBlocks`.
use hexahedron.Base.{
  ℕ, zero, suc, ◌+◌, ◌-◌, ◌*◌, ◌/◌, ◌^◌, ◌≤◌, ◌<◌, ◌≡◌, refl, true, false, not, ◌&&◌, ◌||◌, arith,
  ◌==◌, Bool-cases, inl, inr, leb, ap, ◌⊎◌,
}
use hexahedron.Base.Count.{count-le, count_run, in_run}
use hexahedron.Base.Outcome.{done, panic}
use hexahedron.Bitmap
use hexahedron.Bitmap.{IsWords, u32, neg_enomem}
use hexahedron.Bitmap.Frames.{is_taken-clear, is_taken-set, clear_frame-IsWords, set_frame-IsWords}
use hexahedron.Bitmap.Runs.{AllFree}
use hexahedron.Bitmap.Search.{FirstRun, no_run, run, find_first_run_lem}
use hexahedron.Pmm.{
  Pmm, block_size, set_frames, clear_frames, allocate_blocks, free_blocks, find_first_frames,
  set_frame, clear_frame,
}
use hexahedron.Pmm.Invariant.{taken, IsValid}
use hexahedron.Pmm.Single.{scanned}

-- What the loops over several frames leave alone.
record SameCounters (s t : Pmm) : Type 0 where
  nframes : t.nframes ≡ s.nframes
  max_blocks : t.max_blocks ≡ s.max_blocks
  used_blocks : t.used_blocks ≡ s.used_blocks
  frame_lock : t.frame_lock ≡ s.frame_lock

set_frames_step :
    (n frame i : ℕ) (s : Pmm)
    → frame + i < 2 ^ 32
    → set_frames (suc n) frame i s
      ≡ set_frames n frame (i + 1) (record s { frames = Bitmap.set_frame s.frames (frame + i) })
unfolding set_frames set_frame
set_frames_step n frame i s l =
    let e : u32 (frame + i) ≡ frame + i = omega arith in
    ap (λ f. set_frames n frame (i + 1) (record s { frames = Bitmap.set_frame s.frames f })) e

set_frames_loop :
    (n frame i : ℕ) {s : Pmm}
    → IsWords s.frames
    → frame + i + n ≤ 2 ^ 32
    → IsWords (set_frames n frame i s).frames
      × SameCounters s (set_frames n frame i s)
      × ((g : ℕ) → taken (set_frames n frame i s) g ≡ (in_run (frame + i) n g || taken s g))
set_frames_loop zero frame i v l = unfold set_frames in (v, ground arith, λ g. ground arith)
set_frames_loop (suc n) frame i {s} v l =
    let (words, same, bits) =
      set_frames_loop n frame (i + 1)
        {s = record s { frames = Bitmap.set_frame s.frames (frame + i) }}
        (set_frame-IsWords s.frames v (frame + i)) (omega arith) in
    rw (set_frames_step n frame i s (omega arith)) (
      words,
      record {
        nframes = same.nframes;
        max_blocks = same.max_blocks;
        used_blocks = same.used_blocks;
        frame_lock = same.frame_lock;
      },
      λ g. ground (arith, bits g, is_taken-set s.frames v (frame + i) g),
    )

clear_frames_step :
    (n frame i : ℕ) (s : Pmm)
    → frame + i < 2 ^ 32
    → clear_frames (suc n) frame i s
      ≡ clear_frames n frame (i + 1) (record s { frames = Bitmap.clear_frame s.frames (frame + i) })
unfolding clear_frames clear_frame
clear_frames_step n frame i s l =
    let e : u32 (frame + i) ≡ frame + i = omega arith in
    ap (λ f. clear_frames n frame (i + 1) (record s { frames = Bitmap.clear_frame s.frames f })) e

clear_frames_loop :
    (n frame i : ℕ) {s : Pmm}
    → IsWords s.frames
    → frame + i + n ≤ 2 ^ 32
    → IsWords (clear_frames n frame i s).frames
      × SameCounters s (clear_frames n frame i s)
      × ((g : ℕ) → taken (clear_frames n frame i s) g ≡ (not (in_run (frame + i) n g) && taken s g))
clear_frames_loop zero frame i v l = unfold clear_frames in (v, ground arith, λ g. ground arith)
clear_frames_loop (suc n) frame i {s} v l =
    let (words, same, bits) =
      clear_frames_loop n frame (i + 1)
        {s = record s { frames = Bitmap.clear_frame s.frames (frame + i) }}
        (clear_frame-IsWords s.frames v (frame + i)) (omega arith) in
    rw (clear_frames_step n frame i s (omega arith)) (
      words,
      record {
        nframes = same.nframes;
        max_blocks = same.max_blocks;
        used_blocks = same.used_blocks;
        frame_lock = same.frame_lock;
      },
      λ g. ground (arith, bits g, is_taken-clear s.frames v (frame + i) g),
    )

-- the state after `n` frames from `frame` on have been handed out
abbrev with_frames : ℕ → ℕ → Pmm → Pmm
with_frames n frame s = record (set_frames n frame 0 (record s { frame_lock = true })) {
  used_blocks = u32 (s.used_blocks + n);
  frame_lock = false;
}

module _ {s : Pmm} (v : IsValid s) (n : ℕ) (positive : 0 < n)
    (room : s.used_blocks + n < s.max_blocks) where
  searched : FirstRun s.frames n (scanned s) (find_first_frames n s)
  unfolding find_first_frames
  searched =
      find_first_run_lem s.frames (s.nframes / 32) n v.words positive
        (omega (arith, v.small, v.sized))

  served :
      (r : ℕ)
      → r < scanned s
      → find_first_frames n s ≡ r
      → allocate_blocks n s ≡ done (r * block_size) (with_frames n r s)
  unfolding allocate_blocks
  served r l h =
      let h' : find_first_frames n (record s { frame_lock = true }) ≡ r =
        unfold find_first_frames in h in
      let some_blocks : (n == 0) ≡ false = ground arith in
      let enough : leb (u32 (s.max_blocks + 2 ^ 32 - s.used_blocks)) n ≡ false =
        ground (arith, v.small) in
      let valid : (r == neg_enomem) ≡ false = ground (arith, v.small, v.sized) in
      let address : u32 (r * block_size) ≡ r * block_size = omega (arith, v.small, v.sized) in
      rw (some_blocks, enough, v.unlocked, h', valid, address) refl

-- A run of free frames within memory is handed out, and the counters follow.
with_frames_lem :
    {s : Pmm} (n r : ℕ)
    → IsValid s
    → r + n ≤ 2 ^ 32
    → AllFree s.frames r n
    → ((g : ℕ) → taken (with_frames n r s) g ≡ (in_run r n g || taken s g))
      × (r + n ≤ s.max_blocks → IsValid (with_frames n r s))
with_frames_lem {s} n r v l free =
    let z : r + 0 ≡ r = omega arith in
    let (words, same, bits) =
      set_frames_loop n r 0 {s = record s { frame_lock = true }} v.words (omega arith) in
    let after : (g : ℕ) → taken (with_frames n r s) g ≡ (in_run r n g || taken s g) =
      rw z at bits in
    let clear : (g : ℕ) → in_run r n g ≡ true → taken s g ≡ false =
      λ g e. let at : r + (g - r) ≡ g = ground arith in rw at at (free (g - r) (ground arith)) in
    (
      after,
      λ fits.
          let total =
            count_run n r (taken s) (taken (with_frames n r s)) s.max_blocks after clear fits in
          let bound = count-le (taken (with_frames n r s)) s.max_blocks in
          let keep : (with_frames n r s).max_blocks ≡ s.max_blocks = same.max_blocks in
          record {
            words = words;
            sized = omega (arith, same.nframes, keep, v.sized);
            small = omega (arith, keep, v.small);
            counted = rw keep (omega (arith, v.counted, v.small, total, bound));
            unlocked = refl;
          },
    )

-- While the counters leave more than `n` blocks and the searched words have `n` adjacent free frames,
-- `pmm_allocateBlocks` returns the address of the lowest such run, takes the frames of the run and
-- no other, and, if the run ends within memory, keeps bitmap and counters in agreement.
pub allocate_blocks_lem :
    {s : Pmm} (n f : ℕ)
    → IsValid s
    → 0 < n
    → s.used_blocks + n < s.max_blocks
    → f < scanned s
    → AllFree s.frames f n
    → (r : ℕ) × (t : Pmm) × (allocate_blocks n s ≡ done (r * block_size) t)
      × AllFree s.frames r n
      × ((g : ℕ) → g < r → ¬ AllFree s.frames g n)
      × ((g : ℕ) → taken t g ≡ (in_run r n g || taken s g))
      × (r + n ≤ s.max_blocks → IsValid t)
allocate_blocks_lem {s} n f v positive room l free = elim (searched v n positive room) [
  | no_run h none_free ↦ absurd (none_free f l free)
  | run less open' least ↦
      let at = find_first_frames n s in
      let (after, valid) = with_frames_lem n at v (omega (arith, v.small, v.sized)) open' in
      (at, with_frames n at s, served v n positive room at less refl, open', least, after, valid)
]

-- When no run of `n` frames starts in the searched words, or the counters leave no more than `n`
-- blocks, `pmm_allocateBlocks` panics.
pub allocate_blocks_exhausted :
    {s : Pmm} (n : ℕ)
    → IsValid s
    → 0 < n
    → ((f : ℕ) → f < scanned s → ¬ AllFree s.frames f n) ⊎ (s.max_blocks ≤ s.used_blocks + n)
    → (t : Pmm) × (allocate_blocks n s ≡ panic t)
allocate_blocks_exhausted {s} n v positive (inr few) =
    let some_blocks : (n == 0) ≡ false = ground arith in
    let bound = count-le (taken s) s.max_blocks in
    let short : leb (u32 (s.max_blocks + 2 ^ 32 - s.used_blocks)) n ≡ true =
      ground (arith, v.small, v.counted, bound) in
    (s, unfold allocate_blocks in rw (some_blocks, short) refl)
allocate_blocks_exhausted {s} n v positive (inl never) =
    elim (Bool-cases (leb (u32 (s.max_blocks + 2 ^ 32 - s.used_blocks)) n)) [
      | inl short ↦
          let some_blocks : (n == 0) ≡ false = ground arith in
          (s, unfold allocate_blocks in rw (some_blocks, short) refl)
      | inr enough ↦
          let bound = count-le (taken s) s.max_blocks in
          elim (searched v n positive (ground (arith, v.counted, v.small, bound))) [
            | no_run h none_free ↦
                let some_blocks : (n == 0) ≡ false = ground arith in
                let h' : find_first_frames n (record s { frame_lock = true }) ≡ neg_enomem =
                  unfold find_first_frames in h in
                (
                  record s { frame_lock = true },
                  unfold allocate_blocks in rw (some_blocks, enough, v.unlocked, h') refl,
                )
            | run less open' least ↦ absurd (never _ less open')
          ]
    ]

-- `pmm_freeBlocks` of blocks that are all in use frees exactly those, and keeps bitmap and counters
-- in agreement.
pub free_blocks_lem :
    {s : Pmm} (n r : ℕ)
    → IsValid s
    → r + n ≤ s.max_blocks
    → ((g : ℕ) → in_run r n g ≡ true → taken s g ≡ true)
    → (t : Pmm) × (free_blocks (r * block_size) n s ≡ done tt t)
      × ((g : ℕ) → taken t g ≡ (not (in_run r n g) && taken s g))
      × IsValid t
unfolding free_blocks
free_blocks_lem {s} n r v l h = elim (Bool-cases (n == 0)) [
  | inl none' ↦ let e : n ≡ 0 = ground arith in rw e (s, refl, λ g. ground arith, v)
  | inr many ↦
      let z : r + 0 ≡ r = omega arith in
      let q : r * 4096 / 4096 ≡ r = omega arith in
      let s' : Pmm = record s { frame_lock = true } in
      let (words, same, bits) = clear_frames_loop n r 0 {s = s'} v.words (omega (arith, v.small)) in
      let t : Pmm = record (clear_frames n r 0 s') {
        used_blocks = u32 (s.used_blocks + 2 ^ 32 - n);
        frame_lock = false;
      } in
      let after : (g : ℕ) → taken t g ≡ (not (in_run r n g) && taken s g) = rw z at bits in
      let total =
        count_run n r (taken t) (taken s) s.max_blocks (λ g. ground (arith, after g, h g))
          (λ g e. ground (arith, after g)) l in
      let bound = count-le (taken s) s.max_blocks in
      let keep : t.max_blocks ≡ s.max_blocks = same.max_blocks in
      (
        t,
        rw (many, q, v.unlocked) refl,
        after,
        record {
          words = words;
          sized = omega (arith, same.nframes, keep, v.sized);
          small = omega (arith, keep, v.small);
          counted = rw keep (omega (arith, v.counted, v.small, total, bound));
          unlocked = refl;
        },
      )
]
