-- ===== src/Paging.antt =====
-- hexahedron/arch/i386/mem.c: the page tables of the 32-bit build. A frame of physical memory is read as
-- 1024 entries, and a `page_t *` is a frame with an index; a page directory is its frame. The address
-- that `mem_remapPhys` gives a frame is only passed to `mem_unmapPhys`: what is read or written through
-- it is the frame.
pub mod Tables
pub mod Cached
pub mod Walk
pub mod Creation
pub mod Obtained
pub mod Writes
pub mod Globals
pub mod Mapping
pub mod Regions
pub mod Mmio
pub mod Heap
pub mod Growth
pub mod Sbrk
pub mod Unmapping
pub mod Clone
pub mod Cloning
pub mod Spaces
pub mod References
pub mod Boot
mod Examples
use hexahedron.Base.{
  ℕ, zero, suc, ◌+◌, ◌-◌, ◌*◌, ◌/◌, ◌%◌, ◌^◌, bit_or, Bool, true, false, not, ◌&&◌, Option, none,
  some, ◌==◌, ltb, if◌then◌else◌,
}
use hexahedron.Base.Outcome.{Outcome, done, panic, hang, fault, Op, ◌>>=◌, ◌>>◌, pure, and_then}
use hexahedron.Bitmap.{Words, u32}
use hexahedron.Pmm
use hexahedron.Pmm.{Pmm, PmmOp}
use hexahedron.Pool
use hexahedron.Pool.{Pool, PoolOp}

abbrev pub page_size : ℕ
page_size = 4096

abbrev pub mem_dma_region : ℕ
mem_dma_region = 0x70000000

abbrev pub mem_mmio_region : ℕ
mem_mmio_region = 0x90000000

abbrev pub mem_driver_region : ℕ
mem_driver_region = 0xA0000000

abbrev pub mem_physmem_cache_region : ℕ
mem_physmem_cache_region = 0xB0000000

abbrev pub mem_physmem_map_region : ℕ
mem_physmem_map_region = 0xC0000000

abbrev pub mem_physmem_map_size : ℕ
mem_physmem_map_size = 0x20000000

abbrev pub region_size : ℕ
region_size = 0x10000000

abbrev pub mem_create : ℕ
mem_create = 0x01

abbrev pub mem_kernel : ℕ
mem_kernel = 0x02

abbrev pub mem_readonly : ℕ
mem_readonly = 0x04

abbrev pub mem_writethrough : ℕ
mem_writethrough = 0x08

abbrev pub mem_not_cacheable : ℕ
mem_not_cacheable = 0x10

abbrev pub mem_not_present : ℕ
mem_not_present = 0x20

abbrev pub mem_noalloc : ℕ
mem_noalloc = 0x40

abbrev pub mem_free_page : ℕ
mem_free_page = 0x80

-- `flags & f` and `flags | f`, for a flag `f` of one bit
abbrev pub has_flag : ℕ → ℕ → Bool
has_flag flags f = flags / f % 2 == 1

abbrev pub with_flag : ℕ → ℕ → ℕ
with_flag flags f = if has_flag flags f then flags else flags + f

-- `page_t`
pub record Page : Type 0 where
  pub present : Bool
  pub rw_bit : Bool
  pub usermode : Bool
  pub writethrough : Bool
  pub cache_disable : Bool
  pub accessed : Bool
  pub dirty : Bool
  pub pat : Bool
  pub global : Bool
  pub cow : Bool
  pub available : ℕ
  pub address : ℕ

-- the entry whose bits are all zero
abbrev pub blank : Page
blank = record {
  present = false;
  rw_bit = false;
  usermode = false;
  writethrough = false;
  cache_disable = false;
  accessed = false;
  dirty = false;
  pat = false;
  global = false;
  cow = false;
  available = 0;
  address = 0;
}

-- `MEM_SET_FRAME` and `MEM_GET_FRAME`
abbrev pub set_frame : Page → ℕ → Page
set_frame page frame = record page { address = frame / 4096 % 2 ^ 20 }

abbrev pub get_frame : Page → ℕ
get_frame page = page.address * 4096

-- `MEM_ALIGN_PAGE`, `MEM_PAGEDIR_INDEX` and `MEM_PAGETBL_INDEX`
abbrev pub align_page : ℕ → ℕ
align_page addr = u32 (addr + page_size) / 4096 * 4096

abbrev pub pagedir_index : ℕ → ℕ
pagedir_index x = x / 2 ^ 22 % 1024

abbrev pub pagetbl_index : ℕ → ℕ
pagetbl_index x = x / 2 ^ 12 % 1024

pub record PagePtr : Type 0 where
  pub table : ℕ
  pub index : ℕ

-- The globals of the file, the frame allocator below it, and what stands in memory: the entries of
-- each frame.
pub record Vmm : Type 0 where
  pub pmm : Pmm
  pub memory : ℕ → ℕ → Page
  pub references : ℕ → ℕ
  pub kernel_directory : ℕ
  pub current_dir : ℕ
  pub kernel_heap : ℕ
  pub cache_size : ℕ
  pub map_pool : Option Pool
  pub mmio_region : ℕ
  pub driver_region : ℕ
  pub dma_region : ℕ
  pub heap_lock : Bool
  pub mmio_lock : Bool
  pub driver_lock : Bool
  pub dma_lock : Bool

abbrev pub VmmOp : Type 0 → Type 0
VmmOp A = Op Vmm A

-- A call of the frame allocator.
abbrev pub after_pmm : {A : Type 0} → Vmm → Outcome Pmm A → Outcome Vmm A
after_pmm s (done a p) = done a (record s { pmm = p })
after_pmm s (panic p) = panic (record s { pmm = p })
after_pmm s hang = hang
after_pmm s fault = fault

abbrev pub with_pmm : {A : Type 0} → PmmOp A → VmmOp A
with_pmm op s = after_pmm s (op s.pmm)

-- A call of the map pool, which may not have been created.
abbrev pub after_pool : {A : Type 0} → Vmm → Outcome Pool A → Outcome Vmm A
after_pool s (done a p) = done a (record s { map_pool = some p })
after_pool s (panic p) = panic (record s { map_pool = some p })
after_pool s hang = hang
after_pool s fault = fault

abbrev pub with_pool : {A : Type 0} → PoolOp A → VmmOp A
with_pool op s = elim (s.map_pool) [ none ↦ fault | some p ↦ after_pool s (op p) ]

abbrev pub read_page : PagePtr → Vmm → Page
read_page p s = s.memory p.table p.index

abbrev pub write_page : PagePtr → Page → Vmm → Vmm
write_page p page s = record s {
  memory = λ f i. if (f == p.table) && (i == p.index) then page else s.memory f i;
}

-- `memset` of a frame with zero
abbrev pub clear_table : ℕ → Vmm → Vmm
clear_table frame s = record s { memory = λ f i. if f == frame then blank else s.memory f i }

abbrev pub update : (Vmm → Vmm) → VmmOp (Unit {0})
update f s = done tt (f s)

-- NULL stands for the current directory.
abbrev pub directory : Option ℕ → Vmm → ℕ
directory none s = s.current_dir
directory (some dir) s = dir

-- `mem_unmapPhys`; `size` is aligned up, and a page longer for an address inside a page.
unfoldable pub unmap_phys : ℕ → ℕ → VmmOp (Unit {0})
unmap_phys address size s =
    if ltb address mem_physmem_cache_region
    then panic s
    else if ltb (u32 (address - mem_physmem_cache_region + size)) s.cache_size
    then done tt s
    else (let size' = if size % page_size == 0 then size else align_page size in
        if address % page_size == 0
        then with_pool (Pool.free_chunks address (size' / page_size)) s
        else with_pool
            (Pool.free_chunks (address / 4096 * 4096) (u32 (size' + page_size) / page_size)) s)

-- `mem_freePage`
unfoldable pub free_page : Option PagePtr → VmmOp (Unit {0})
free_page none s = done tt s
free_page (some p) s =
    let page = record (read_page p s) { present = false; rw_bit = false; usermode = false } in
    (do
      update (write_page p page)
      with_pmm (Pmm.free_block (get_frame page))
      update (λ t. write_page p (set_frame (read_page p t) 0) t))
      s

-- the bits of a page by the flags
abbrev pub configured : ℕ → Page → Page
configured flags page = record page {
  present = not (has_flag flags mem_not_present);
  rw_bit = not (has_flag flags mem_readonly);
  usermode = not (has_flag flags mem_kernel);
  writethrough = has_flag flags mem_writethrough;
  cache_disable = has_flag flags mem_not_cacheable;
}

-- `mem_allocatePage`
unfoldable pub allocate_page : PagePtr → ℕ → VmmOp (Unit {0})
unfolding free_page
allocate_page p flags s =
    if has_flag flags mem_free_page
    then free_page (some p) s
    else (do
      (λ t.
          if ((read_page p t).address == 0) && not (has_flag flags mem_noalloc)
          then (with_pmm Pmm.allocate_block >>= λ block.
                update (λ u. write_page p (set_frame (read_page p u) block) u))
              t
          else done tt t)
      update (λ t. write_page p (configured flags (read_page p t)) t))
        s
