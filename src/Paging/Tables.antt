-- ===== src/Paging/Tables.antt =====
-- The walk through the page tables: `mem_getPage`, `mem_mapAddress`, `mem_remapPhys` and
-- `mem_getPhysicalAddress` of hexahedron/arch/i386/mem.c. `mem_remapPhys` maps pages, which may remap
-- frames again: the first three take the remapping as an argument, and `remap_phys` ties the knot with
-- fuel, of which a frame in the cache of physical memory needs one.
use hexahedron.Base.{
  ℕ, zero, suc, ◌+◌, ◌-◌, ◌*◌, ◌/◌, ◌%◌, bit_or, true, false, Option, none, some, ◌==◌, ltb,
  if◌then◌else◌,
}
use hexahedron.Base.Outcome.{done, panic, hang, fault, ◌>>=◌, ◌>>◌, pure}
use hexahedron.Bitmap.{Words, u32}
use hexahedron.Pmm
use hexahedron.Pool
use hexahedron.Pool.{Pool}
use hexahedron.Paging.{
  PagePtr, VmmOp, with_pmm, with_pool, read_page, write_page, clear_table, update, directory,
  unmap_phys, allocate_page, set_frame, get_frame, align_page, pagedir_index, pagetbl_index,
  page_size, mem_create, mem_kernel, mem_noalloc, with_flag, mem_physmem_cache_region,
  mem_physmem_map_region, mem_physmem_map_size,
}

abbrev pub Remap : Type 0
Remap = ℕ → ℕ → VmmOp ℕ

-- How often a loop goes round that counts up from an address to another by the page.
abbrev pub rounds : ℕ → ℕ → ℕ
rounds from to = (to - from + 4095) / page_size

-- the entry of an address in a directory
abbrev pub pde_of : ℕ → ℕ → PagePtr
pde_of dir addr = record { table = dir; index = pagedir_index addr }

-- `mem_getPage` where the directory has no table for the address
unfoldable pub create_table : Remap → PagePtr → VmmOp (Unit {0})
unfolding unmap_phys
create_table remap pde = do
  block ← with_pmm Pmm.allocate_block
  block_remap ← remap block page_size
  update (clear_table (block / page_size))
  update (λ t.
      write_page pde
        (set_frame (record (read_page pde t) { present = true; rw_bit = true; usermode = true })
          block)
        t)
  unmap_phys block_remap page_size

-- `mem_getPage` once the directory has a table for the address
unfoldable pub table_entry : Remap → PagePtr → ℕ → VmmOp (Option PagePtr)
unfolding unmap_phys
table_entry remap pde addr s =
    let page = read_page pde s in
    (do
      table ← remap (get_frame page) page_size
      unmap_phys table page_size
      pure (some (record { table = page.address; index = pagetbl_index addr })))
      s

-- `mem_getPage`; `!flags & MEM_CREATE` is one only where no flag is set.
unfoldable pub get_page : Remap → Option ℕ → ℕ → ℕ → VmmOp (Option PagePtr)
unfolding create_table table_entry
get_page remap dir address flags s =
    let addr = if address % page_size == 0 then address else align_page address in
    let pde = pde_of (directory dir s) addr in
    if (read_page pde s).present
    then table_entry remap pde addr s
    else if flags == 0
    then done none s
    else (create_table remap pde >> table_entry remap pde addr) s

-- What is done with the page that `mem_getPage` gives, which may not be NULL.
abbrev pub deref : {A : Type 0} → (PagePtr → VmmOp A) → Option PagePtr → VmmOp A
deref f none s = fault
deref f (some p) s = f p s

-- `mem_mapAddress`
unfoldable pub map_address : Remap → Option ℕ → ℕ → ℕ → ℕ → VmmOp (Unit {0})
unfolding get_page allocate_page
map_address remap dir phys virt flags s =
    (get_page remap (some (directory dir s)) virt mem_create
        >>= deref (λ p.
          allocate_page p (with_flag flags mem_noalloc)
          >> update (λ t. write_page p (set_frame (read_page p t) phys) t)))
      s

-- The loop of `mem_remapPhys`, with the rounds left.
unfoldable pub map_pages : Remap → ℕ → ℕ → ℕ → VmmOp (Unit {0})
unfolding map_address
map_pages remap zero frame start s = done tt s
map_pages remap (suc n) frame start s =
    (map_address remap none frame start mem_kernel
        >> map_pages remap n (frame + page_size) (u32 (start + page_size)))
      s

-- The map pool, created where there is none; `words` stands where `pool_create` puts its bitmap.
unfoldable pub map_pool_ready : Words → VmmOp (Unit {0})
map_pool_ready words s = elim s.map_pool [
  | some p ↦ done tt s
  | none ↦
      elim (Pool.create (λ n. n) (λ n. n) words page_size mem_physmem_map_size
        mem_physmem_map_region 0) [
          | done p _ ↦ done tt (record s { map_pool = some p })
          | panic _ ↦ panic s
          | hang ↦ hang
          | fault ↦ fault
        ]
]

-- `mem_remapPhys` after the tests: `size` pages of the pool are mapped to `frame`.
unfoldable pub remap_pages : Remap → ℕ → ℕ → ℕ → VmmOp ℕ
unfolding map_pages
remap_pages remap frame size offset = do
  start ← with_pool (Pool.allocate_chunks (size / page_size))
  (λ s. if start == 0 then panic s else done tt s)
  map_pages remap (rounds frame (u32 (frame + size))) frame start
  pure (u32 (start + offset))

unfoldable pub remap_phys : Words → ℕ → Remap
unfolding map_pool_ready remap_pages
remap_phys words zero frame size s = fault
remap_phys words (suc fuel) frame size s = elim (ltb (u32 (frame + size)) s.cache_size) [
  | true ↦ done (bit_or frame mem_physmem_cache_region) s
  | false ↦
      let whole = if size % page_size == 0 then size else align_page size in
      (map_pool_ready words
          >> (if frame % page_size == 0
              then remap_pages (remap_phys words fuel) frame whole 0
              else remap_pages (remap_phys words fuel) (frame / page_size * page_size)
                  (u32 (whole + page_size)) (frame % page_size)))
        s
]

-- `mem_getPhysicalAddress`
unfoldable pub get_physical_address : Remap → Option ℕ → ℕ → VmmOp ℕ
unfolding unmap_phys
get_physical_address remap dir virtaddr s =
    let addr = virtaddr / page_size * page_size in
    let pde = read_page (pde_of (directory dir s) addr) s in
    let pte : PagePtr = record { table = pde.address; index = pagetbl_index addr } in
    if pde.present
    then (do
      table ← remap (get_frame pde) page_size
      unmap_phys table page_size
      (λ t. done (get_frame (read_page pte t) + virtaddr % page_size) t))
        s
    else done 0 s
