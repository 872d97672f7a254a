-- ===== src/Pool/Release.antt =====
-- `pool_freeChunk` of a chunk in use.
use native.Mathlib.Nat.{mul-div_cancel, mul-mod_left}
use hexahedron.Base.{
  ℕ, ◌+◌, ◌-◌, ◌*◌, ◌/◌, ◌%◌, ◌≤◌, ◌<◌, ◌≡◌, refl, true, false, not, ◌&&◌, arith, ap, ◌∙◌, ◌==◌,
  some,
}
use hexahedron.Base.Count.{count, count-le, count_add}
use hexahedron.Base.Outcome.{done}
use hexahedron.Bitmap
use hexahedron.Bitmap.{IsWords, u32, neg_enomem, is_taken}
use hexahedron.Bitmap.Frames.{is_taken-clear, clear_frame-IsWords}
use hexahedron.Pool.{Pool, free_chunk}
use hexahedron.Pool.Chunks.{taken, IsValid, mul_le, part_le}

abbrev pub without_frame : ℕ → Pool → Pool
without_frame f p = record p {
  bitmap = Bitmap.clear_frame p.bitmap f;
  used = p.used - p.chunk_size;
  lock = some false;
}

without_frame-IsValid :
    {n : ℕ} {p : Pool} (f : ℕ)
    → IsValid n p
    → f < n
    → taken p f ≡ true
    → IsValid n (without_frame f p) × (p.chunk_size ≤ p.used)
without_frame-IsValid {n} {p} f v l e =
    let one =
      count_add (taken (without_frame f p)) (taken p) f n
        (λ g. ground (arith, is_taken-clear p.bitmap v.words f g, e))
        (ground (arith, is_taken-clear p.bitmap v.words f f)) l in
    let total : count (taken p) n * p.chunk_size
        ≡ count (taken (without_frame f p)) n * p.chunk_size + p.chunk_size =
      ap (λ t. t * p.chunk_size) one ∙ grind arith in
    (
      record {
        words = clear_frame-IsWords p.bitmap v.words f;
        sized = v.sized;
        positive = v.positive;
        small = v.small;
        counted = omega (arith, v.counted, total);
        unlocked = refl;
      },
      omega (arith, v.counted, total),
    )

freed :
    {n : ℕ} {p : Pool} (f : ℕ)
    → IsValid n p
    → f < n
    → p.chunk_size ≤ p.used
    → free_chunk (p.starting_addr + f * p.chunk_size) p ≡ done tt (without_frame f p)
unfolding free_chunk
freed {n} {p} f v l room' =
    let part = part_le f n p.chunk_size l in
    let chunk = p.starting_addr + f * p.chunk_size in
    let off : chunk - p.starting_addr ≡ f * p.chunk_size = omega arith in
    let q : f * p.chunk_size / p.chunk_size ≡ f = mul-div_cancel f v.positive in
    let z : f * p.chunk_size % p.chunk_size ≡ 0 = mul-mod_left f p.chunk_size in
    let used = mul_le (count (taken p) n) n p.chunk_size (count-le (taken p) n) in
    let q' : (chunk - p.starting_addr) / p.chunk_size ≡ f = ap (λ t. t / p.chunk_size) off ∙ q in
    let z' : (chunk - p.starting_addr) % p.chunk_size ≡ 0 = ap (λ t. t % p.chunk_size) off ∙ z in
    ground (arith, v.unlocked, v.sized, v.small, v.counted, used, q', z', part)

-- `pool_freeChunk` of a chunk in use frees that chunk and no other, and keeps bitmap and counter in
-- agreement.
pub free_chunk_lem :
    {n : ℕ} {p : Pool} (f : ℕ)
    → IsValid n p
    → f < n
    → taken p f ≡ true
    → (t : Pool) × (free_chunk (p.starting_addr + f * p.chunk_size) p ≡ done tt t)
      × ((g : ℕ) → taken t g ≡ (not (f == g) && taken p g))
      × (p.used ≡ t.used + p.chunk_size)
      × IsValid n t
free_chunk_lem {p = p} f v l e =
    let (valid, space) = without_frame-IsValid f v l e in
    (
      without_frame f p,
      freed f v l space,
      is_taken-clear p.bitmap v.words f,
      omega (arith, space),
      valid,
    )
