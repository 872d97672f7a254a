-- ===== src/Pool.antt =====
-- The pools of hexahedron/misc/pool.c: chunks of one size, with a bitmap of the chunks in use and a lock.
-- The numbers are those of a 32-bit `uintptr_t`.
pub mod Chunks
pub mod Release
mod Examples
use hexahedron.Base.{
  ℕ, zero, suc, ◌+◌, ◌-◌, ◌*◌, ◌/◌, ◌%◌, ◌^◌, Bool, true, false, not, ◌||◌, Option, none, some,
  ◌==◌, ltb, leb, if◌then◌else◌,
}
use hexahedron.Bitmap
use hexahedron.Bitmap.{Words, u32, neg_enomem}
use hexahedron.Base.Outcome.{Outcome, done, panic, hang, fault, Op, ◌>>=◌, ◌>>◌, pure}

-- `lock` is none where the pointer was never set.
pub record Pool : Type 0 where
  pub lock : Option Bool
  pub bitmap : Words
  pub chunk_size : ℕ
  pub starting_addr : ℕ
  pub allocated : ℕ
  pub used : ℕ

abbrev pub PoolOp : Type 0 → Type 0
PoolOp A = Op Pool A

unfoldable pub acquire : PoolOp (Unit {0})
acquire p = elim p.lock [
  | none ↦ fault
  | some held ↦ if held then hang else done tt (record p { lock = some true })
]

unfoldable pub release : PoolOp (Unit {0})
release p = elim p.lock [ none ↦ fault | some held ↦ done tt (record p { lock = some false }) ]

-- Word `i` of a bitmap after `memset` of its first `n` bytes with 0.
unfoldable pub cleared : ℕ → Words → Words
cleared n w i =
    if ltb i (n / 4)
    then 0
    else if i == n / 4
    then w i / 2 ^ (8 * (n % 4)) * 2 ^ (8 * (n % 4))
    else w i

-- What is asked of `mem_allocateDMA` and `mem_sbrk`.
abbrev pub pages : ℕ → ℕ
pages size = if size % 4096 == 0 then size else u32 (size + 4096) / 4096 * 4096

-- `dma` and `sbrk` give the address of the memory asked for; `words` stands where the bitmap is put.
unfoldable pub create : (dma sbrk : ℕ → ℕ) → Words → ℕ → ℕ → ℕ → ℕ → Outcome (Unit {0}) Pool
unfolding cleared
create dma sbrk words chunk_size size addr flags =
    if chunk_size == 0
    then fault
    else if not (size % chunk_size == 0)
    then panic tt
    else done
        (record {
          lock = if flags / 2 % 2 == 0 then some false else none;
          bitmap = cleared (size / chunk_size) words;
          chunk_size = chunk_size;
          starting_addr =
              if not (addr == 0)
              then addr
              else if flags % 2 == 1
              then dma (pages size)
              else sbrk (pages size);
          allocated = size;
          used = 0;
        })
        tt

unfoldable pub set_frame : ℕ → Pool → Pool
set_frame f p = record p { bitmap = Bitmap.set_frame p.bitmap f }

unfoldable pub clear_frame : ℕ → Pool → Pool
clear_frame f p = record p { bitmap = Bitmap.clear_frame p.bitmap f }

unfoldable pub find_first_frame : Pool → ℕ
find_first_frame p = Bitmap.find_first (p.allocated / p.chunk_size / 32) p.bitmap

unfoldable pub find_first_frames : ℕ → Pool → ℕ
find_first_frames n p = Bitmap.find_first_run (p.allocated / p.chunk_size / 32) p.bitmap n

-- the jump to `_oom`
unfoldable pub out_of_memory : PoolOp ℕ
unfolding release
out_of_memory = release >> pure 0

-- the address of a frame
abbrev pub address : ℕ → Pool → ℕ
address frame p = u32 (frame * p.chunk_size + p.starting_addr)

unfoldable pub take_chunk : ℕ → PoolOp ℕ
unfolding out_of_memory set_frame release
take_chunk frame p =
    if frame == neg_enomem
    then out_of_memory p
    else (do
      (λ t. done tt (record (set_frame frame t) { used = u32 (t.used + t.chunk_size) }))
      release
      pure (address frame p))
        p

unfoldable pub allocate_chunk : PoolOp ℕ
unfolding acquire take_chunk find_first_frame out_of_memory
allocate_chunk = acquire >> (λ p.
    if ltb (u32 (p.allocated + 2 ^ 32 - p.used)) p.chunk_size
    then out_of_memory p
    else take_chunk (find_first_frame p) p)

-- the tests of `pool_freeChunk` and `pool_freeChunks`
unfoldable pub bad_chunk : ℕ → Pool → Bool
bad_chunk chunk p =
    ltb chunk p.starting_addr
    || ltb (u32 (p.allocated + p.starting_addr)) chunk
    || not ((chunk - p.starting_addr) % p.chunk_size == 0)

unfoldable pub free_chunk : ℕ → PoolOp (Unit {0})
unfolding acquire release clear_frame bad_chunk
free_chunk chunk = acquire >> (λ p.
    if bad_chunk chunk p
    then release p
    else release (record (clear_frame ((chunk - p.starting_addr) / p.chunk_size) p) {
      used = u32 (p.used + 2 ^ 32 - p.chunk_size);
    }))

-- The loops of `pool_allocateChunks` and `pool_freeChunks`, with the rounds left.
unfoldable pub set_frames : ℕ → ℕ → ℕ → Pool → Pool
unfolding set_frame
set_frames zero frame i p = p
set_frames (suc n) frame i p = set_frames n frame (i + 1) (set_frame (u32 (frame + i)) p)

unfoldable pub clear_frames : ℕ → ℕ → ℕ → Pool → Pool
unfolding clear_frame
clear_frames zero frame i p = p
clear_frames (suc n) frame i p = clear_frames n frame (i + 1) (clear_frame (u32 (frame + i)) p)

unfoldable pub take_chunks : ℕ → ℕ → PoolOp ℕ
unfolding out_of_memory set_frames release
take_chunks chunks frame p =
    if frame == neg_enomem
    then out_of_memory p
    else (do
      (λ t.
          done tt
            (record (set_frames chunks frame 0 t) { used = u32 (t.used + t.chunk_size * chunks) }))
      release
      pure (address frame p))
        p

unfoldable pub allocate_chunks : ℕ → PoolOp ℕ
unfolding acquire take_chunks find_first_frames out_of_memory allocate_chunk
allocate_chunks chunks =
    if chunks == 0
    then pure 0
    else if chunks == 1
    then allocate_chunk
    else acquire >> (λ p.
      if ltb (u32 (p.allocated + 2 ^ 32 - p.used)) (u32 (p.chunk_size * chunks))
      then out_of_memory p
      else take_chunks chunks (find_first_frames chunks p) p)

unfoldable pub free_chunks : ℕ → ℕ → PoolOp (Unit {0})
unfolding acquire release clear_frames bad_chunk
free_chunks chunk_start chunks = acquire >> (λ p.
    if bad_chunk chunk_start p
    then release p
    else release
        (record (clear_frames chunks ((chunk_start - p.starting_addr) / p.chunk_size) 0 p) {
          used = u32 (p.used + 2 ^ 32 - u32 (chunks * p.chunk_size));
        }))
