-- ===== src/Paging/Sbrk.antt =====
-- `mem_sbrk` of hexahedron/arch/i386/mem.c where it grows the heap: the loop and the whole call.
use hexahedron.Base.{
  ℕ, zero, suc, ◌+◌, ◌-◌, ◌*◌, ◌/◌, ◌%◌, ◌^◌, ◌<◌, ◌≤◌, ◌≡◌, refl, arith, true, false, none, ◌==◌,
  Bool-cases, inl, inr, ap, sym, ◌∙◌,
}
use mathlib.Core.Path.{subst}
use hexahedron.Base.Int.{pos}
use hexahedron.Base.Outcome.{done, and_then}
use hexahedron.Bitmap.{Words, u32}
use hexahedron.Paging.{Vmm, read_page, page_size}
use hexahedron.Paging.Tables.{Remap, remap_phys}
use hexahedron.Paging.Regions.{for_pages, driver_page, grow_page, sbrk}
use hexahedron.Paging.Walk.{Grows, slot, HasRoom, Same, pde_at, place, IsValid, found}
use hexahedron.Paging.Globals.{elsewhere-IsValid, elsewhere-HasRoom}
use hexahedron.Paging.Heap.{driver_page_lem}
use hexahedron.Paging.Growth.{IsUnused, Grown, Grown-cons, no_table}

sbrk_ends :
    (remap : Remap) (s t : Vmm) (n : ℕ)
    → 0 < n
    → 0 < s.kernel_heap
    → s.kernel_heap + n * page_size < 2 ^ 32
    → s.heap_lock ≡ false
    → for_pages (grow_page remap) n s.kernel_heap (record s { heap_lock = true }) ≡ done tt t
    → sbrk remap (pos (n * page_size)) s
      ≡ done s.kernel_heap
          (record t { kernel_heap = u32 (t.kernel_heap + n * page_size); heap_lock = false })
unfolding sbrk
sbrk_ends remap s t n ln lh l free called =
    let z : n * 4096 % 4096 ≡ 0 = omega arith in
    let h : (s.kernel_heap == 0) ≡ false = ground arith in
    let b : (n * 4096 == 0) ≡ false = ground arith in
    let c : (u32 (s.kernel_heap + n * 4096) - s.kernel_heap + 4095) / 4096 ≡ n = omega arith in
    simp (h, b, z, free, c, called) refl

module _ (words : Words) (fuel : ℕ) {dir : ℕ} where
  -- A page of the heap that maps nothing is treated like one of a driver.
  grow_unused :
      (s : Vmm) (v : ℕ)
      → IsValid dir s
      → s.current_dir ≡ dir
      → v < 2 ^ 20
      → (slot dir s v).present ≡ false
      → grow_page (remap_phys words (suc fuel)) (v * page_size) s
        ≡ driver_page (remap_phys words (suc fuel)) (v * page_size) s
  unfolding grow_page
  grow_unused s v w e l z = elim (Bool-cases (pde_at dir s v).present) [
    | inl p ↦
        let f = found words fuel {s = s} none v 0 w e l p in
        let a : (read_page (place dir s v) s).present ≡ false = ground (arith, z, p) in
        rw (f, a) refl
    | inr p ↦ rw (no_table (remap_phys words (suc fuel)) s none v e l p) refl
  ]

  grow_pages_lem :
      (n : ℕ) (s : Vmm) (a m : ℕ)
      → IsValid dir s
      → s.current_dir ≡ dir
      → a + n ≤ 2 ^ 20
      → ((g : ℕ) → a ≤ g → g < a + n → IsUnused (slot dir s g))
      → HasRoom (n + n + m) s
      → (t : Vmm) × (for_pages (grow_page (remap_phys words (suc fuel))) n (a * page_size) s
          ≡ done tt t)
        × Grown dir a n s t
        × IsValid dir t
        × HasRoom m t
        × Same s t
        × Grows s t
  unfolding for_pages
  grow_pages_lem zero s a m w e l unused room =
      let z : 0 + 0 + m ≡ m = omega arith in
      (
        s,
        refl,
        record {
          inside = λ g x y. absurd (omega arith);
          distinct = λ g h p q x y. absurd (omega arith);
          outside = λ g h o. refl;
        },
        w,
        rw z at room,
        refl,
        λ g x. x,
      )
  grow_pages_lem (suc n) s a m w e l unused room =
      let remap = remap_phys words (suc fuel) in
      let z : suc n + suc n + m ≡ suc (suc (n + n + m)) = omega arith in
      let free = unused a (omega arith) (omega arith) in
      let (t, q, called, fresh, maps, w', room', kept, grows) =
        driver_page_lem words fuel s a (n + n + m) w e (omega arith) free.no_frame (rw z at room) in
      let here = ap (λ (y : Vmm). y.current_dir) kept ∙ e in
      let still = λ (g : ℕ) (lo : a + 1 ≤ g) (hi : g < a + 1 + n).
        subst IsUnused (sym (maps g (omega arith) ∙ ground arith))
          (unused g (omega arith) (omega arith)) in
      let (u, rest, grown, w'', room'', kept', grows') =
        grow_pages_lem n t (a + 1) m w' here (omega arith) still room' in
      let x : a * 4096 + 4096 ≡ (a + 1) * 4096 = omega arith in
      (
        u,
        ap (λ o. and_then o (λ _. for_pages (grow_page remap) n (a * page_size + page_size)))
              (grow_unused s a w e (omega arith) free.absent ∙ called)
            ∙ rw x rest,
        Grown-cons a n q (omega arith) fresh maps grows grows' grown,
        w'',
        room'',
        kept' ∙ ap (λ (y : Vmm). record y { pmm = u.pmm; memory = u.memory }) kept,
        λ g y. grows' g (grows g y),
      )

  -- `mem_sbrk` of `n` pages, more than none, where the tables are in order, the lock is free, the heap ends at a
  -- page, the pages behind it map nothing, have no frame and end below the last page, and the cache has
  -- `n + n + m` free frames: it gives the old end of the heap and moves it by the pages, each of which is
  -- mapped, writable and for the kernel only, to a frame that was free and now is not, no two to the same;
  -- every other page is mapped as before, the tables are in order, `m` frames are free, and so is the lock.
  pub sbrk_lem :
      (s : Vmm) (a n m : ℕ)
      → IsValid dir s
      → s.current_dir ≡ dir
      → s.heap_lock ≡ false
      → s.kernel_heap ≡ a * page_size
      → 0 < a
      → 0 < n
      → a + n < 2 ^ 20
      → ((g : ℕ) → a ≤ g → g < a + n → IsUnused (slot dir s g))
      → HasRoom (n + n + m) s
      → (t : Vmm) × (sbrk (remap_phys words (suc fuel)) (pos (n * page_size)) s
          ≡ done s.kernel_heap t)
        × (t.kernel_heap ≡ (a + n) * page_size)
        × Grown dir a n s t
        × (t.heap_lock ≡ false)
        × IsValid dir t
        × HasRoom m t
  sbrk_lem s a n m w e free heap la ln l unused room =
      let remap = remap_phys words (suc fuel) in
      let locked = record s { heap_lock = true } in
      let w' =
        elsewhere-IsValid s s.kernel_heap s.mmio_region s.driver_region s.dma_region true
          s.mmio_lock s.driver_lock s.dma_lock w in
      let room' =
        elsewhere-HasRoom s s.kernel_heap s.mmio_region s.driver_region s.dma_region true
          s.mmio_lock s.driver_lock s.dma_lock room in
      let (t, called, grown, ok, left, kept, _) =
        grow_pages_lem n locked a m w' e (omega arith) unused room' in
      let r = ap (λ (y : Vmm). y.kernel_heap) kept ∙ heap in
      let after = u32 (t.kernel_heap + n * page_size) in
      (
        record t { kernel_heap = after; heap_lock = false },
        sbrk_ends remap s t n ln (omega arith) (omega arith) free (
            subst (λ (x : ℕ). for_pages (grow_page remap) n x locked ≡ done tt t) (sym heap)
              called),
        omega (arith, r),
        record {
          inside = λ g lo hi.
              let (p, x, f) = grown.inside g lo hi in
              (
                p,
                x,
                record {
                  present = f.present;
                  kernel = f.kernel;
                  writable = f.writable;
                  was_free = f.was_free;
                  in_use = f.in_use;
                },
              );
          distinct = grown.distinct;
          outside = grown.outside;
        },
        refl,
        elsewhere-IsValid t after t.mmio_region t.driver_region t.dma_region false t.mmio_lock
            t.driver_lock t.dma_lock ok,
        elsewhere-HasRoom t after t.mmio_region t.driver_region t.dma_region false t.mmio_lock
            t.driver_lock t.dma_lock left,
      )
