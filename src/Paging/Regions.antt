-- ===== src/Paging/Regions.antt =====
-- The regions of the kernel's address space in hexahedron/arch/i386/mem.c: memory-mapped I/O, DMA,
-- drivers and the heap, with their locks.
use hexahedron.Base.{
  ℕ, zero, suc, ◌+◌, ◌-◌, ◌/◌, ◌%◌, ◌^◌, Bool, true, false, not, ◌||◌, Option, none, some, ◌==◌,
  ltb, leb, if◌then◌else◌,
}
use hexahedron.Base.Int.{ℤ, pos, negsuc}
use hexahedron.Base.Outcome.{done, panic, hang, ◌>>=◌, ◌>>◌, pure}
use hexahedron.Bitmap.{u32}
use hexahedron.Paging.{
  PagePtr, Vmm, VmmOp, read_page, write_page, update, free_page, allocate_page, set_frame,
  align_page, page_size, region_size, mem_create, mem_kernel, mem_writethrough, mem_not_cacheable,
  mem_noalloc, mem_dma_region, mem_mmio_region, mem_driver_region,
}
use hexahedron.Paging.Tables.{Remap, rounds, get_page, deref}

pub data Lock : Type 0 where
  heap_lock : Lock
  mmio_lock : Lock
  driver_lock : Lock
  dma_lock : Lock

abbrev pub is_held : Lock → Vmm → Bool
is_held heap_lock s = s.heap_lock
is_held mmio_lock s = s.mmio_lock
is_held driver_lock s = s.driver_lock
is_held dma_lock s = s.dma_lock

abbrev pub set_lock : Lock → Bool → Vmm → Vmm
set_lock heap_lock b s = record s { heap_lock = b }
set_lock mmio_lock b s = record s { mmio_lock = b }
set_lock driver_lock b s = record s { driver_lock = b }
set_lock dma_lock b s = record s { dma_lock = b }

-- `spinlock_acquire` of a lock that is held spins for ever.
abbrev pub acquire : Lock → VmmOp (Unit {0})
acquire lock s = if is_held lock s then hang else done tt (set_lock lock true s)

abbrev pub release : Lock → VmmOp (Unit {0})
release lock s = done tt (set_lock lock false s)

-- `mem_getKernelHeap`
unfoldable pub get_kernel_heap : VmmOp ℕ
get_kernel_heap s = done s.kernel_heap s

-- `mem_switchDirectory`
unfoldable pub switch_directory : Option ℕ → VmmOp ℕ
switch_directory none s = done 0 (record s { current_dir = s.kernel_directory })
switch_directory (some dir) s = done 0 (record s { current_dir = dir })

-- A size up to the next page where it is not a multiple of it already.
abbrev pub whole_pages : ℕ → ℕ
whole_pages size = if size % page_size == 0 then size else align_page size

-- What is done with the page that `mem_getPage` gives, unless it is NULL.
abbrev pub if_page : (PagePtr → VmmOp (Unit {0})) → Option PagePtr → VmmOp (Unit {0})
if_page f none s = done tt s
if_page f (some p) s = f p s

-- A loop over the `n` pages from an address on.
unfoldable pub for_pages : (ℕ → VmmOp (Unit {0})) → ℕ → ℕ → VmmOp (Unit {0})
for_pages body zero i s = done tt s
for_pages body (suc n) i s = (body i >> for_pages body n (i + page_size)) s

abbrev pub is_present : Option PagePtr → Vmm → Bool
is_present none s = false
is_present (some p) s = (read_page p s).present

abbrev pub shrink_fuel : ℕ → ℕ
shrink_fuel n = n / page_size + 2

-- The heap after a change by `b` bytes.
abbrev pub moved : ℕ → ℤ → ℕ
moved heap (pos n) = u32 (heap + n)
moved heap (negsuc n) = u32 (heap + 2 ^ 32 - suc n)

abbrev pub magnitude : ℤ → ℕ
magnitude (pos n) = n
magnitude (negsuc n) = suc n

module _ (remap : Remap) where
  -- one round of `mem_mapMMIO`
  unfoldable pub mmio_page : ℕ → ℕ → ℕ → VmmOp (Unit {0})
  unfolding get_page allocate_page
  mmio_page address phys i =
      get_page remap none (u32 (address + i)) mem_create
      >>= if_page (λ p.
        update (λ t. write_page p (set_frame (read_page p t) (u32 (phys + i))) t)
        >> allocate_page p (mem_kernel + mem_writethrough + mem_not_cacheable + mem_noalloc))

  unfoldable pub map_mmio : ℕ → ℕ → VmmOp ℕ
  unfolding for_pages mmio_page
  map_mmio phys size s =
      if not (size % page_size == 0)
      then panic s
      else if ltb (mem_mmio_region + region_size) (u32 (s.mmio_region + size))
      then panic s
      else (do
        acquire mmio_lock
        for_pages (mmio_page s.mmio_region phys) (rounds 0 size) 0
        update (λ t. record t { mmio_region = u32 (t.mmio_region + size) })
        release mmio_lock
        pure s.mmio_region)
          s

  unfoldable pub dma_page : ℕ → VmmOp (Unit {0})
  unfolding get_page allocate_page
  dma_page i =
      get_page remap none i mem_create
      >>= if_page (λ p. allocate_page p (mem_kernel + mem_not_cacheable))

  unfoldable pub allocate_dma : ℕ → VmmOp ℕ
  unfolding for_pages dma_page
  allocate_dma size s =
      let size' = whole_pages size in
      if ltb (mem_dma_region + region_size) (u32 (s.dma_region + size'))
      then panic s
      else (do
        acquire dma_lock
        for_pages dma_page (rounds s.dma_region (u32 (s.dma_region + size'))) s.dma_region
        update (λ t. record t { dma_region = u32 (t.dma_region + size') })
        release dma_lock
        (λ t. done (u32 (t.dma_region + 2 ^ 32 - size')) t))
          s

  unfoldable pub unmap_dma_page : ℕ → VmmOp (Unit {0})
  unfolding get_page free_page
  unmap_dma_page i = get_page remap none i 0 >>= if_page (λ p. free_page (some p))

  unfoldable pub free_dma : ℕ → ℕ → VmmOp (Unit {0})
  unfolding for_pages unmap_dma_page
  free_dma base size s =
      let size' = whole_pages size in
      let region = u32 (s.dma_region + 2 ^ 32 - size') in
      if base == 0 || size == 0
      then done tt s
      else if base == region
      then (do
        acquire dma_lock
        update (λ t. record t { dma_region = region })
        for_pages unmap_dma_page (rounds region (u32 (region + size'))) region
        release dma_lock)
          s
      else done tt s

  unfoldable pub driver_page : ℕ → VmmOp (Unit {0})
  unfolding get_page allocate_page
  driver_page i = get_page remap none i mem_create >>= deref (λ p. allocate_page p mem_kernel)

  unfoldable pub map_driver : ℕ → VmmOp ℕ
  unfolding for_pages driver_page
  map_driver size s =
      let size' = whole_pages size in
      if ltb (mem_driver_region + region_size) (u32 (s.driver_region + size))
      then panic s
      else (do
        acquire driver_lock
        for_pages driver_page (rounds s.driver_region (u32 (s.driver_region + size')))
            s.driver_region
        update (λ t. record t { driver_region = u32 (t.driver_region + size') })
        release driver_lock
        (λ t. done (u32 (t.driver_region + 2 ^ 32 - size')) t))
          s

  unfoldable pub unmap_driver_page : ℕ → VmmOp (Unit {0})
  unfolding get_page free_page
  unmap_driver_page i = get_page remap none i mem_create >>= free_page

  unfoldable pub unmap_driver : ℕ → ℕ → VmmOp (Unit {0})
  unfolding for_pages unmap_driver_page
  unmap_driver base size s =
      let size' = whole_pages size in
      let region = u32 (s.driver_region + 2 ^ 32 - size') in
      if base == region
      then (do
        acquire driver_lock
        update (λ t. record t { driver_region = region })
        for_pages unmap_driver_page (rounds region (u32 (region + size'))) region
        release driver_lock)
          s
      else done tt s

  -- One round of the first loop of `mem_sbrk`.
  unfoldable pub shrink_page : ℕ → VmmOp (Unit {0})
  unfolding get_page free_page
  shrink_page i = get_page remap none i 0 >>= free_page

  -- The first loop of `mem_sbrk`, down to `bound`. It ends when the counter is below the bound, which it
  -- never is below a bound of 0: with the fuel of `sbrk` used up it does not end.
  unfoldable pub shrink : ℕ → ℕ → ℕ → VmmOp (Unit {0})
  unfolding shrink_page
  shrink zero i bound s = hang
  shrink (suc fuel) i bound s = elim (leb bound i) [
    | true ↦ (shrink_page i >> shrink fuel (u32 (i + 2 ^ 32 - page_size)) bound) s
    | false ↦ done tt s
  ]

  -- One round of the second loop of `mem_sbrk`.
  unfoldable pub grow_page : ℕ → VmmOp (Unit {0})
  unfolding driver_page
  grow_page i = get_page remap none i 0 >>= λ pagechk t.
      if is_present pagechk t then done tt t else driver_page i t

  abbrev pub change_heap : ℤ → VmmOp (Unit {0})
  change_heap (pos n) s =
      for_pages grow_page (rounds s.kernel_heap (u32 (s.kernel_heap + n))) s.kernel_heap s
  change_heap (negsuc n) s =
      shrink (shrink_fuel (suc n)) s.kernel_heap (moved s.kernel_heap (negsuc n)) s

  unfoldable pub sbrk : ℤ → VmmOp ℕ
  unfolding for_pages grow_page shrink
  sbrk b s =
      if s.kernel_heap == 0
      then panic s
      else if magnitude b == 0
      then done s.kernel_heap s
      else if not (magnitude b % page_size == 0)
      then panic s
      else (do
        acquire heap_lock
        change_heap b
        update (λ t. record t { kernel_heap = moved t.kernel_heap b })
        release heap_lock
        pure s.kernel_heap)
          s
