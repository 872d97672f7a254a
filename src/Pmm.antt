-- ===== src/Pmm.antt =====
-- The physical memory manager, hexahedron/mem/pmm.c: a bitmap of the frames of memory, with the
-- counters beside it and the lock `frame_lock`. The numbers are those of a 32-bit `uintptr_t`.
pub mod Invariant
pub mod Single
pub mod Release
pub mod Boot
pub mod Regions
pub mod Multiple
mod Examples
use hexahedron.Base.{
  ℕ, zero, suc, ◌+◌, ◌-◌, ◌*◌, ◌/◌, ◌%◌, ◌^◌, Bool, true, false, ◌||◌, ◌==◌, ltb, leb,
  if◌then◌else◌,
}
use hexahedron.Bitmap
use hexahedron.Bitmap.{Words, u32, neg_enomem}
use hexahedron.Base.Outcome.{Outcome, done, panic, hang, Op, ◌>>=◌, ◌>>◌, pure}

abbrev pub block_size : ℕ
block_size = 4096

pub record Pmm : Type 0 where
  pub frames : Words
  pub nframes : ℕ
  pub memory_size : ℕ
  pub used_blocks : ℕ
  pub max_blocks : ℕ
  pub frame_lock : Bool

abbrev pub PmmOp : Type 0 → Type 0
PmmOp A = Op Pmm A

-- `spinlock_acquire` on a lock that is held spins for ever.
unfoldable pub acquire : PmmOp (Unit {0})
acquire s = if s.frame_lock then hang else done tt (record s { frame_lock = true })

unfoldable pub release : PmmOp (Unit {0})
release s = done tt (record s { frame_lock = false })

-- Word `i` of a bitmap after `memset` of its first `n` bytes with 0x0F.
unfoldable pub memset_word : ℕ → Words → Words
memset_word n w i =
    if ltb i (n / 4)
    then 0x0F0F0F0F
    else if i == n / 4
    then w i / 2 ^ (8 * (n % 4)) * 2 ^ (8 * (n % 4)) + 0x0F0F0F0F % 2 ^ (8 * (n % 4))
    else w i

-- `bitmap` is the address of the words, 0 if there is none, and `words` what stands there.
unfoldable pub init : ℕ → ℕ → Words → PmmOp ℕ
unfolding memset_word
init memsize bitmap words s =
    if memsize == 0 || bitmap == 0
    then panic s
    else done 0 (record s {
      memory_size = memsize;
      max_blocks = memsize / block_size;
      used_blocks = memsize / block_size;
      nframes = memsize / block_size;
      frames = memset_word (memsize / block_size / 8) words;
    })

unfoldable pub set_frame : ℕ → Pmm → Pmm
set_frame f s = record s { frames = Bitmap.set_frame s.frames f }

unfoldable pub clear_frame : ℕ → Pmm → Pmm
clear_frame f s = record s { frames = Bitmap.clear_frame s.frames f }

unfoldable pub test_frame : ℕ → Pmm → ℕ
test_frame f s = Bitmap.test_frame s.frames f

unfoldable pub find_first_frame : Pmm → ℕ
find_first_frame s = Bitmap.find_first (s.nframes / 32) s.frames

unfoldable pub find_first_frames : ℕ → Pmm → ℕ
find_first_frames n s = Bitmap.find_first_run (s.nframes / 32) s.frames n

-- The loops of `pmm_initializeRegion` and `pmm_deinitializeRegion`, with the blocks left.
unfoldable pub clear_region : ℕ → ℕ → Pmm → Pmm
unfolding clear_frame
clear_region zero align s = s
clear_region (suc blocks) align s =
    clear_region blocks (align + 1)
      (record (clear_frame align s) { used_blocks = u32 (s.used_blocks + 2 ^ 32 - 1) })

unfoldable pub set_region : ℕ → ℕ → Pmm → Pmm
unfolding set_frame
set_region zero align s = s
set_region (suc blocks) align s =
    set_region blocks (align + 1)
      (record (set_frame align s) { used_blocks = u32 (s.used_blocks + 1) })

unfoldable pub initialize_region : ℕ → ℕ → PmmOp (Unit {0})
unfolding acquire release clear_region
initialize_region base size s =
    if size == 0
    then done tt s
    else (acquire
          >> (λ t. done tt (clear_region (size / block_size) (base / block_size) t))
          >> release)
        s

unfoldable pub deinitialize_region : ℕ → ℕ → PmmOp (Unit {0})
unfolding acquire release set_region
deinitialize_region base size s =
    if size == 0
    then done tt s
    else (acquire
          >> (λ t. done tt (set_region (size / block_size) (base / block_size) t))
          >> release)
        s

-- The jump to `_oom`: the lock is released, whoever holds it, and the kernel panics.
unfoldable pub out_of_memory : PmmOp ℕ
unfolding release
out_of_memory = release >> panic

-- What `pmm_allocateBlock` does with the frame found, the lock being held.
unfoldable pub take_block : ℕ → PmmOp ℕ
unfolding out_of_memory set_frame release
take_block frame s =
    if frame == neg_enomem
    then out_of_memory s
    else (do
      (λ t. done tt (record (set_frame frame t) { used_blocks = u32 (t.used_blocks + 1) }))
      release
      pure (u32 (frame * block_size)))
        s

unfoldable pub allocate_block : PmmOp ℕ
unfolding take_block acquire find_first_frame
allocate_block s =
    if u32 (s.max_blocks + 2 ^ 32 - s.used_blocks) == 0
    then out_of_memory s
    else (acquire >> (λ t. take_block (find_first_frame t) t)) s

unfoldable pub free_block : ℕ → PmmOp (Unit {0})
unfolding acquire release clear_frame
free_block block s =
    if block % block_size == 0
    then (do
      acquire
      (λ t. done tt (record (clear_frame (block / block_size) t) {
        used_blocks = u32 (t.used_blocks + 2 ^ 32 - 1);
      }))
      release)
        s
    else done tt s

-- The loops of `pmm_allocateBlocks` and `pmm_freeBlocks`, with the rounds left.
unfoldable pub set_frames : ℕ → ℕ → ℕ → Pmm → Pmm
unfolding set_frame
set_frames zero frame i s = s
set_frames (suc n) frame i s = set_frames n frame (i + 1) (set_frame (u32 (frame + i)) s)

unfoldable pub clear_frames : ℕ → ℕ → ℕ → Pmm → Pmm
unfolding clear_frame
clear_frames zero frame i s = s
clear_frames (suc n) frame i s = clear_frames n frame (i + 1) (clear_frame (u32 (frame + i)) s)

-- What `pmm_allocateBlocks` does with the first frame found, the lock being held.
unfoldable pub take_blocks : ℕ → ℕ → PmmOp ℕ
unfolding set_frames release
take_blocks blocks frame s =
    if frame == neg_enomem
    then panic s
    else (do
      (λ t.
          done tt
            (record (set_frames blocks frame 0 t) { used_blocks = u32 (t.used_blocks + blocks) }))
      release
      pure (u32 (frame * block_size)))
        s

unfoldable pub allocate_blocks : ℕ → PmmOp ℕ
unfolding take_blocks acquire find_first_frames
allocate_blocks blocks s =
    if blocks == 0
    then panic s
    else if leb (u32 (s.max_blocks + 2 ^ 32 - s.used_blocks)) blocks
    then panic s
    else (acquire >> (λ t. take_blocks blocks (find_first_frames blocks t) t)) s

unfoldable pub free_blocks : ℕ → ℕ → PmmOp (Unit {0})
unfolding acquire release clear_frames
free_blocks base blocks s =
    if blocks == 0
    then done tt s
    else (do
      acquire
      (λ t. done tt (record (clear_frames blocks (base / block_size) 0 t) {
        used_blocks = u32 (t.used_blocks + 2 ^ 32 - blocks);
      }))
      release)
        s

unfoldable pub get_free_blocks : Pmm → ℕ
get_free_blocks s = u32 (s.max_blocks + 2 ^ 32 - s.used_blocks)
