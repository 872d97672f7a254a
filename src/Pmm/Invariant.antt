-- ===== src/Pmm/Invariant.antt =====
-- When the bitmap and the counters of the frame allocator of hexahedron/mem/pmm.c agree.
use hexahedron.Base.{ℕ, suc, ◌^◌, ◌≤◌, ◌<◌, ◌≡◌, Bool, false, ◌||◌, arith, ◌==◌}
use hexahedron.Base.Count.{count, count-le, count_full, count_add}
use hexahedron.Bitmap.{IsWords, is_taken}
use hexahedron.Pmm.{Pmm}

abbrev pub taken : Pmm → ℕ → Bool
taken s = is_taken s.frames

pub record IsValid (s : Pmm) : Type 0 where
  pub words : IsWords s.frames
  pub sized : s.nframes ≡ s.max_blocks
  pub small : s.max_blocks ≤ 2 ^ 20
  pub counted : s.used_blocks ≡ count (taken s) s.max_blocks
  pub unlocked : s.frame_lock ≡ false

-- A free frame below the bound leaves room in the counters.
pub used-lt :
    {s : Pmm} (f : ℕ)
    → IsValid s
    → f < s.max_blocks
    → taken s f ≡ false
    → s.used_blocks < s.max_blocks
used-lt {s} f v l e =
    let bound = count-le (taken s) s.max_blocks in
    let full = count_full (taken s) s.max_blocks f in ground (arith, v.counted, bound, full)

-- A taken frame below the bound is counted.
pub used-pos :
    {s : Pmm} (f : ℕ) (p : ℕ → Bool)
    → IsValid s
    → f < s.max_blocks
    → ((g : ℕ) → taken s g ≡ ((f == g) || p g))
    → p f ≡ false
    → s.used_blocks ≡ suc (count p s.max_blocks)
used-pos {s} f p v l h e = omega (arith, v.counted, count_add p (taken s) f s.max_blocks h e l)
