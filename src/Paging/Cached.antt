-- ===== src/Paging/Cached.antt =====
-- Frames of the cache of physical memory in hexahedron/arch/i386/mem.c: `mem_remapPhys` gives their
-- address in it, and neither it nor `mem_unmapPhys` has anything to do.
use hexahedron.Base.{ℕ, suc, ◌+◌, ◌*◌, ◌^◌, ◌<◌, ◌≤◌, bit_or, ◌≡◌, arith}
use hexahedron.Base.Bits.{bit_or_add}
use hexahedron.Base.Outcome.{done}
use hexahedron.Bitmap.{Words}
use hexahedron.Paging.{Vmm, unmap_phys, page_size, mem_physmem_cache_region}
use hexahedron.Paging.Tables.{remap_phys}

abbrev pub window : ℕ → ℕ
window frame = frame * page_size + mem_physmem_cache_region

module _ {s : Vmm} (frame : ℕ) (c : s.cache_size ≤ 2 ^ 28)
    (l : (frame + 1) * page_size < s.cache_size) where
  pub remapped :
      (words : Words) (fuel : ℕ)
      → remap_phys words (suc fuel) (frame * page_size) page_size s ≡ done (window frame) s
  unfolding remap_phys
  remapped words fuel =
      let b : bit_or (frame * 4096) 0xB0000000 ≡ frame * 4096 + 0xB0000000 =
        bit_or_add 28 (frame * 4096) 11 (omega arith) in
      ground (arith, b)

  pub unmapped : unmap_phys (window frame) page_size s ≡ done tt s
  unfolding unmap_phys
  unmapped = ground arith
