-- ===== src/Paging/Mmio.antt =====
-- `mem_mapMMIO` of hexahedron/arch/i386/mem.c.
use hexahedron.Base.{
  ℕ, zero, suc, ◌+◌, ◌-◌, ◌*◌, ◌/◌, ◌%◌, ◌^◌, ◌<◌, ◌≤◌, ◌≡◌, refl, arith, true, false, none, some,
  ◌==◌, ltb, if◌then◌else◌, Bool-cases, inl, inr, ap, sym, ◌∙◌, ◌⊎◌,
}
use mathlib.Core.Path.{subst}
use hexahedron.Base.Outcome.{done, and_then}
use hexahedron.Bitmap.{Words, u32}
use hexahedron.Paging.{
  Page, PagePtr, Vmm, read_page, write_page, page_size, set_frame, mem_create, mem_noalloc,
  mem_kernel, mem_writethrough, mem_not_cacheable, configured, allocate_page, mem_mmio_region,
  region_size,
}
use hexahedron.Paging.Tables.{Remap, remap_phys, get_page}
use hexahedron.Paging.Regions.{for_pages, mmio_page, map_mmio}
use hexahedron.Paging.Walk.{mapped_if, slot, HasRoom, Same, place, translate, IsValid}
use hexahedron.Paging.Globals.{elsewhere-IsValid, elsewhere-HasRoom}
use hexahedron.Paging.Obtained.{got}
use hexahedron.Paging.Writes.{end, new, end_lem, moved_room}

-- a page of device memory, mapped to frame `p`
pub record IsMmio (p : ℕ) (page : Page) : Type 0 where
  pub address : page.address ≡ p
  pub present : page.present ≡ true
  pub kernel : page.usermode ≡ false
  pub writable : page.rw_bit ≡ true
  pub writethrough : page.writethrough ≡ true
  pub uncached : page.cache_disable ≡ true

abbrev mmio_flags : ℕ
mmio_flags = mem_kernel + mem_writethrough + mem_not_cacheable + mem_noalloc

mmio_entry :
    (remap : Remap) (s t : Vmm) (q : PagePtr) (address phys i : ℕ)
    → get_page remap none (u32 (address + i)) mem_create s ≡ done (some q) t
    → let u = write_page q (set_frame (read_page q t) (u32 (phys + i))) t in
      mmio_page remap address phys i s
      ≡ done tt (write_page q (configured mmio_flags (read_page q u)) u)
unfolding mmio_page allocate_page
mmio_entry remap s t q address phys i h = rw h (ground arith)

module _ (words : Words) (fuel : ℕ) {dir : ℕ} where
  mmio_page_lem :
      (s : Vmm) (a p i n : ℕ)
      → IsValid dir s
      → s.current_dir ≡ dir
      → a + i < 2 ^ 20
      → p + i < 2 ^ 20
      → HasRoom (suc n) s
      → (t : Vmm) × (page : Page) × (mmio_page
            (remap_phys words (suc fuel))
            (a * page_size)
            (p * page_size)
            (i * page_size)
            s
          ≡ done tt t)
        × IsMmio (p + i) page
        × ((g : ℕ)
            → g < 2 ^ 20
            → translate dir t g ≡ (if g == a + i then some page else translate dir s g))
        × IsValid dir t
        × HasRoom n t
        × Same s t
  mmio_page_lem s a p i n w e la lp room =
      let (t, called, ok, h, same, kept, left, _) =
        got words fuel {s = s} none (a + i) mem_create n w e la (omega arith) room in
      let x : u32 (a * 4096 + i * 4096) ≡ (a + i) * 4096 = omega arith in
      let one = λ (page : Page). set_frame page (u32 (p * page_size + i * page_size)) in
      let (valid, maps) = end_lem {t = t} (a + i) one (configured mmio_flags) ok la h in
      let u = end {t = t} (a + i) one (configured mmio_flags) ok la h in
      let q = new {t = t} (a + i) one (configured mmio_flags) ok la h in
      (
        u,
        q,
        mmio_entry (remap_phys words (suc fuel)) s t (place dir t (a + i)) (a * page_size)
            (p * page_size) (i * page_size) (rw x called),
        record {
          address = omega arith;
          present = refl;
          kernel = refl;
          writable = refl;
          writethrough = refl;
          uncached = refl;
        },
        λ g hg.
            mapped_if (a + i) g q (slot dir s g) (slot dir u g) refl
              (maps g hg ∙ ap (λ y. if g == a + i then q else y) (same g hg)),
        valid,
        moved_room left,
        ap (λ (y : Vmm). record y { pmm = t.pmm; memory = u.memory }) kept,
      )

-- The `n` pages from page `a + k` on are mapped to the frames from `p + k` on, and no other is mapped
-- otherwise than before.
pub record Mapped (dir a p k n : ℕ) (s t : Vmm) : Type 0 where
  pub inside :
      (j : ℕ)
      → k ≤ j
      → j < k + n
      → (page : Page) × (translate dir t (a + j) ≡ some page) × IsMmio (p + j) page
  pub outside :
      (g : ℕ) → g < 2 ^ 20 → (g < a + k) ⊎ (a + k + n ≤ g) → translate dir t g ≡ translate dir s g

Mapped-cons :
    {dir : ℕ} {s t u : Vmm} (a p k n : ℕ) (q : Page)
    → a + k < 2 ^ 20
    → IsMmio (p + k) q
    → ((g : ℕ)
        → g < 2 ^ 20
        → translate dir t g ≡ (if g == a + k then some q else translate dir s g))
    → Mapped dir a p (k + 1) n t u
    → Mapped dir a p k (suc n) s u
Mapped-cons {dir} {s} {t} {u} a p k n q l ok maps rest = record {
  inside = λ j lo hi. elim (Bool-cases (k == j)) [
    | inl y ↦
        let first = rest.outside (a + k) l (inl (omega arith)) ∙ maps (a + k) l ∙ ground arith in
        subst
          (λ (x : ℕ). (page : Page) × (translate dir u (a + x) ≡ some page) × IsMmio (p + x) page)
          (ground arith) (q, first, ok)
    | inr y ↦ rest.inside j (ground arith) (omega arith)
  ];
  outside = λ g hg o. rest.outside g hg (ground (arith, o)) ∙ maps g hg ∙ ground (arith, o);
}

mmio_ends :
    (remap : Remap) (s t : Vmm) (phys n : ℕ)
    → n < 2 ^ 20
    → s.mmio_lock ≡ false
    → s.mmio_region + n * page_size ≤ mem_mmio_region + region_size
    → for_pages (mmio_page remap s.mmio_region phys) n 0 (record s { mmio_lock = true }) ≡ done tt t
    → map_mmio remap phys (n * page_size) s
      ≡ done s.mmio_region
          (record t { mmio_region = u32 (t.mmio_region + n * page_size); mmio_lock = false })
unfolding map_mmio
mmio_ends remap s t phys n l free room called =
    let z : n * 4096 % 4096 ≡ 0 = omega arith in
    let c : (n * 4096 - 0 + 4095) / 4096 ≡ n = omega arith in
    let b : ltb (mem_mmio_region + region_size) (u32 (s.mmio_region + n * 4096)) ≡ false =
      ground arith in
    simp (z, b, free, c, called) refl

module _ (words : Words) (fuel : ℕ) {dir : ℕ} where
  mmio_pages_lem :
      (n : ℕ) (s : Vmm) (a p k m : ℕ)
      → IsValid dir s
      → s.current_dir ≡ dir
      → a + k + n ≤ 2 ^ 20
      → p + k + n ≤ 2 ^ 20
      → HasRoom (n + m) s
      → (t : Vmm) × (for_pages
            (mmio_page (remap_phys words (suc fuel)) (a * page_size) (p * page_size))
            n
            (k * page_size)
            s
          ≡ done tt t)
        × Mapped dir a p k n s t
        × IsValid dir t
        × HasRoom m t
        × Same s t
  unfolding for_pages
  mmio_pages_lem zero s a p k m w e la lp room =
      let z : 0 + m ≡ m = omega arith in
      (
        s,
        refl,
        record { inside = λ j x y. absurd (omega arith); outside = λ g h o. refl },
        w,
        rw z at room,
        refl,
      )
  mmio_pages_lem (suc n) s a p k m w e la lp room =
      let z : suc n + m ≡ suc (n + m) = omega arith in
      let (t, q, called, ok, maps, w', room', kept) =
        mmio_page_lem words fuel s a p k (n + m) w e (omega arith) (omega arith) (rw z at room) in
      let here = ap (λ (y : Vmm). y.current_dir) kept ∙ e in
      let (u, rest, mapped, w'', room'', kept') =
        mmio_pages_lem n t a p (k + 1) m w' here (omega arith) (omega arith) room' in
      let x : k * 4096 + 4096 ≡ (k + 1) * 4096 = omega arith in
      (
        u,
        ap
              (λ o. and_then o (λ _.
                for_pages (mmio_page (remap_phys words (suc fuel)) (a * page_size) (p * page_size))
                  n (k * page_size + page_size)))
              called
            ∙ rw x rest,
        Mapped-cons a p k n q (omega arith) ok maps mapped,
        w'',
        room'',
        kept' ∙ ap (λ (y : Vmm). record y { pmm = u.pmm; memory = u.memory }) kept,
      )

  -- `mem_mapMMIO` of `n` whole pages of physical memory, where the tables are in order, the lock is free, the
  -- region has the room and the cache has `n + m` free frames, gives the start of the region left, moves
  -- that start by the size, maps each page to the page of physical memory asked for, uncached and for the
  -- kernel only, maps every other page as before, keeps the tables in order, leaves `m` frames free, and
  -- releases its lock.
  pub map_mmio_lem :
      (s : Vmm) (a p n m : ℕ)
      → IsValid dir s
      → s.current_dir ≡ dir
      → s.mmio_lock ≡ false
      → s.mmio_region ≡ a * page_size
      → (a + n) * page_size ≤ mem_mmio_region + region_size
      → p + n ≤ 2 ^ 20
      → HasRoom (n + m) s
      → (t : Vmm) × (map_mmio (remap_phys words (suc fuel)) (p * page_size) (n * page_size) s
          ≡ done s.mmio_region t)
        × Mapped dir a p 0 n s t
        × (t.mmio_region ≡ (a + n) * page_size)
        × (t.mmio_lock ≡ false)
        × IsValid dir t
        × HasRoom m t
  map_mmio_lem s a p n m w e free region la lp room =
      let locked = record s { mmio_lock = true } in
      let w' =
        elsewhere-IsValid s s.kernel_heap s.mmio_region s.driver_region s.dma_region s.heap_lock
          true s.driver_lock s.dma_lock w in
      let room' =
        elsewhere-HasRoom s s.kernel_heap s.mmio_region s.driver_region s.dma_region s.heap_lock
          true s.driver_lock s.dma_lock room in
      let (t, called, mapped, ok, left, kept) =
        mmio_pages_lem n locked a p 0 m w' e (omega arith) (omega arith) room' in
      let remap = remap_phys words (suc fuel) in
      let r = ap (λ (y : Vmm). y.mmio_region) kept ∙ region in
      let after = u32 (t.mmio_region + n * page_size) in
      (
        record t { mmio_region = after; mmio_lock = false },
        mmio_ends remap s t (p * page_size) n (omega arith) free (omega arith) (
            subst (λ (x : ℕ). for_pages (mmio_page remap x (p * page_size)) n 0 locked ≡ done tt t)
              (sym region) called),
        record { inside = mapped.inside; outside = mapped.outside },
        omega (arith, r),
        refl,
        elsewhere-IsValid t t.kernel_heap after t.driver_region t.dma_region t.heap_lock false
            t.driver_lock t.dma_lock ok,
        elsewhere-HasRoom t t.kernel_heap after t.driver_region t.dma_region t.heap_lock false
            t.driver_lock t.dma_lock left,
      )
