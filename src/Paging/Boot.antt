-- ===== src/Paging/Boot.antt =====
-- `mem_init` of hexahedron/arch/i386/mem.c: the first page directory, which maps the cache of physical
-- memory and the kernel. Paging is off: a frame is reached at its own address.
use hexahedron.Base.{ℕ, zero, suc, ◌+◌, ◌*◌, ◌/◌, true, false, some, ◌==◌, ltb, if◌then◌else◌}
use hexahedron.Base.Int.{pos}
use hexahedron.Base.Outcome.{done, panic, ◌>>=◌, ◌>>◌}
use hexahedron.Bitmap.{u32}
use hexahedron.Pmm
use hexahedron.Paging.{
  Page, PagePtr, Vmm, VmmOp, with_pmm, read_page, write_page, update, clear_table, set_frame, blank,
  align_page, page_size, region_size, mem_physmem_cache_region, pagetbl_index,
}
use hexahedron.Paging.Tables.{Remap, pde_of}
use hexahedron.Paging.Regions.{sbrk, switch_directory, whole_pages}

-- the entry that an identity mapping has for a frame
abbrev pub identity_page : ℕ → Page
identity_page frame = record (set_frame blank frame) { present = true; rw_bit = true }

-- The inner loops of `mem_init`, with the rounds left: the frames from `frame` on are put in a table
-- until `pages` in all are mapped. The result is the frame and the pages mapped where the loop ends.
unfoldable pub fill_table : ℕ → ℕ → ℕ → ℕ → ℕ → ℕ → Vmm → (ℕ × ℕ) × Vmm
fill_table zero table base pages frame mapped s = ((frame, mapped), s)
fill_table (suc n) table base pages frame mapped s =
    let p : PagePtr = record { table = table; index = pagetbl_index (u32 (frame + base)) } in
    let t = write_page p (identity_page frame) s in
    elim (mapped + 1 == pages) [
      | true ↦ ((frame, mapped + 1), t)
      | false ↦ fill_table n table base pages (u32 (frame + 0x1000)) (mapped + 1) t
    ]

-- the entry of the directory for a table that has been filled
abbrev pub put_table : ℕ → ℕ → ℕ → Vmm → Vmm
put_table dir table address s =
    let pde = pde_of dir address in
    write_page pde
      (set_frame (record (read_page pde s) { present = true; rw_bit = true }) (table * page_size)) s

-- The outer loops of `mem_init`, with the rounds left.
unfoldable pub map_tables : ℕ → ℕ → ℕ → ℕ → ℕ → ℕ → ℕ → VmmOp (Unit {0})
unfolding fill_table
map_tables zero dir base pages frame table_frame mapped s = done tt s
map_tables (suc n) dir base pages frame table_frame mapped s =
    (with_pmm Pmm.allocate_block >>= λ block t.
    let table = block / page_size in
    let ((frame', mapped'), u) =
      fill_table 1024 table base pages frame mapped (clear_table table t) in
    let v = put_table dir table (u32 (table_frame + base)) u in
    elim (mapped' == pages) [
      | true ↦ done tt v
      | false ↦ map_tables n dir base pages frame' (u32 (table_frame + 0x1000 * 1024)) mapped' v
    ])
      s

-- The bytes of physical memory that the cache maps.
abbrev pub cached_bytes : Vmm → ℕ
cached_bytes s =
    let frame_bytes = u32 (s.pmm.max_blocks * page_size) in
    if ltb region_size frame_bytes then region_size else frame_bytes

unfoldable pub init : Remap → ℕ → VmmOp (Unit {0})
unfolding map_tables switch_directory sbrk
init remap high_address s =
    if high_address == 0
    then panic s
    else (do
      update (λ t. record t { kernel_heap = align_page high_address })
      block ← with_pmm Pmm.allocate_block
      update (clear_table (block / page_size))
      (λ t.
          let bytes = cached_bytes t in
          let pages = bytes / page_size in
          (do
            update (λ u. record u { cache_size = bytes })
            map_tables ((pages + 1024) / 1024) (block / page_size) mem_physmem_cache_region pages 0
                0 0
            (λ u.
                let kernel_pages = u32 (u.kernel_heap + 0xFFF) / page_size in
                map_tables ((kernel_pages + 1024) / 1024) (block / page_size) 0 kernel_pages 0 0 0
                  u)
            update (λ u. record u { kernel_directory = block / page_size })
            _ ← switch_directory (some (block / page_size))
            _ ← sbrk remap (pos (whole_pages pages))
            update (λ u. record u { references = λ i. if ltb i pages then 0 else u.references i }))
            t))
        s
