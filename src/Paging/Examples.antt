-- ===== src/Paging/Examples.antt =====
-- The theorems about the page tables at one memory of 64 frames: frame 1 holds a directory, frame 2 its
-- only table, that of the region of memory-mapped I/O, which maps one page to frame 7.
use hexahedron.Base.{
  ◌≤◌, ℕ, ◌+◌, ◌*◌, ◌<◌, not, ◌≡◌, refl, arith, true, false, ◌&&◌, some, none, ◌==◌, if◌then◌else◌,
  Bool-cases, inl, inr,
}
use hexahedron.Base.Count.{count}
use hexahedron.Base.Outcome.{done}
use hexahedron.Bitmap.{Words, is_taken}
use hexahedron.Pmm.{Pmm}
use hexahedron.Pmm.Invariant.{taken}
use hexahedron.Pmm.Invariant as PmmInvariant
use hexahedron.Paging.{
  Page, PagePtr, Vmm, read_page, blank, page_size, mem_readonly, mem_driver_region, mem_dma_region,
}
use hexahedron.Paging.Tables.{remap_phys, map_address, get_physical_address}
use hexahedron.Paging.Regions.{map_mmio}
use hexahedron.Paging.Walk.{HasRoom, HasTable, IsValid, Same, translate}
use hexahedron.Paging.Mapping.{HasFlags, map_address_lem, get_physical_address-translate}
use hexahedron.Paging.References.{decrement-increment, copy_user_page_lem, same_entry}
use hexahedron.Paging.Spaces.{increment_page_reference, decrement_page_reference, copy_user_page}
use hexahedron.Base.Int.{pos}
use hexahedron.Paging.Regions.{sbrk}
use hexahedron.Paging.Growth.{IsUnused, Grown}
use hexahedron.Paging.Sbrk.{sbrk_lem}
use hexahedron.Paging.Walk.{slot}
use hexahedron.Paging.Unmapping.{IsDataFrame, free_page_lem}
use hexahedron.Paging.{free_page}
use hexahedron.Paging.Spaces.{clone_table}
use hexahedron.Paging.Clone.{IsKernelTable}
use hexahedron.Paging.Cloning.{clone_table_lem}
use hexahedron.Base.{◌/◌}
use hexahedron.Paging.Mmio.{Mapped, map_mmio_lem}

abbrev frames : Pmm
frames = record {
  frames = λ i. if i == 0 then 0x87 else 0;
  nframes = 64;
  memory_size = 64 * 4096;
  used_blocks = 4;
  max_blocks = 64;
  frame_lock = false;
}

abbrev no_words : Words
no_words i = 0

abbrev table_page : Page
table_page = record blank { present = true; rw_bit = true; usermode = true; address = 2 }

abbrev device_page : Page
device_page = record blank { present = true; rw_bit = true; address = 7 }

abbrev sample : Vmm
sample = record {
  pmm = frames;
  memory = λ f i.
      if (f == 1) && (i == 576)
      then table_page
      else if (f == 2) && (i == 1)
      then device_page
      else blank;
  references = λ i. 0;
  kernel_directory = 1;
  current_dir = 1;
  kernel_heap = 0x200000;
  cache_size = 64 * 4096;
  map_pool = none;
  mmio_region = 0x90002 * 4096;
  driver_region = mem_driver_region;
  dma_region = mem_dma_region;
  heap_lock = false;
  mmio_lock = false;
  driver_lock = false;
  dma_lock = false;
}

frames-count : 4 ≡ count (taken frames) 64
unfolding count is_taken
frames-count = refl

low-count : count (taken frames) 32 ≡ 4
unfolding count is_taken
low-count = refl

taken_at_1 : taken frames 1 ≡ true
unfolding is_taken
taken_at_1 = refl

taken_at_2 : taken frames 2 ≡ true
unfolding is_taken
taken_at_2 = refl

only_table :
    (i : ℕ) → (sample.memory 1 i).present ≡ true → (i ≡ 576) × ((sample.memory 1 i).address ≡ 2)
only_table i p = elim (Bool-cases (i == 576)) [ inl y ↦ ground arith | inr n ↦ ground arith ]

frames-IsValid : PmmInvariant.IsValid frames
frames-IsValid = record {
  words = λ i. ground arith;
  sized = refl;
  small = omega arith;
  counted = frames-count;
  unlocked = refl;
}

sample_table : HasTable 1 sample 2
sample_table = record { in_use = taken_at_2; in_cache = omega arith; other = omega arith }

sample-IsValid : IsValid 1 sample
sample-IsValid = record {
  pmm = frames-IsValid;
  cached = omega arith;
  directory_taken = taken_at_1;
  tables = λ i l p. let e = (only_table i p).1 in rw e sample_table;
  apart = λ i j hi hj pi pj e. ground (arith, only_table i pi, only_table j pj);
}

sample-HasRoom : HasRoom 2 sample
sample-HasRoom = record {
  bound = 32;
  searched = omega arith;
  in_cache = omega arith;
  counted = omega (arith, low-count);
}

map_address_lem_example :
    (t : Vmm) × (page : Page) × (map_address
        (remap_phys no_words 1)
        none
        (5 * page_size)
        (16 * page_size)
        mem_readonly
        sample
      ≡ done tt t)
    × (page.address ≡ 5)
    × HasFlags mem_readonly page
    × ((g : ℕ)
        → g < 0x100000
        → translate 1 t g ≡ (if g == 16 then some page else translate 1 sample g))
    × IsValid 1 t
    × HasRoom 1 t
    × Same sample t
map_address_lem_example =
    map_address_lem no_words 0 none 16 5 mem_readonly 1 sample-IsValid refl (omega arith)
      (omega arith) refl refl sample-HasRoom

get_physical_address-translate_example :
    get_physical_address (remap_phys no_words 1) none (0x90001 * page_size + 12) sample
    ≡ done (7 * page_size + 12) sample
get_physical_address-translate_example =
    get_physical_address-translate no_words 0 none 0x90001 12 device_page sample-IsValid refl
      (omega arith) (omega arith) refl

map_mmio_lem_example :
    (t : Vmm) × (map_mmio (remap_phys no_words 1) (40 * page_size) (2 * page_size) sample
      ≡ done (0x90002 * page_size) t)
    × Mapped 1 0x90002 40 0 2 sample t
    × (t.mmio_region ≡ 0x90004 * page_size)
    × (t.mmio_lock ≡ false)
    × IsValid 1 t
    × HasRoom 0 t
map_mmio_lem_example =
    map_mmio_lem no_words 0 sample 0x90002 40 2 0 sample-IsValid refl refl refl (omega arith)
      (omega arith) sample-HasRoom

abbrev device : PagePtr
device = record { table = 2; index = 1 }

decrement-increment_example :
    (t u : Vmm) × (increment_page_reference (some device) sample ≡ done 1 t)
    × (decrement_page_reference (some device) t ≡ done 0 u)
    × ((i : ℕ) → u.references i ≡ 0)
    × (u.memory ≡ sample.memory)
decrement-increment_example = decrement-increment device sample refl (omega arith)

copy_user_page_lem_example :
    (t : Vmm) × (copy_user_page
        (remap_phys no_words 1)
        device
        (record { table = 3; index = 1 })
        sample
      ≡ done tt t)
    × (read_page (record { table = 3; index = 1 }) t ≡ read_page device t)
    × ((read_page device t).address ≡ 7)
    × ((read_page device t).rw_bit ≡ false)
    × ((read_page device t).cow ≡ true)
    × ((q : PagePtr)
        → same_entry q device ≡ false
        → same_entry q (record { table = 3; index = 1 }) ≡ false
        → read_page q t ≡ read_page q sample)
    × ((i : ℕ) → t.references i ≡ (if i == 7 then 2 else 0))
copy_user_page_lem_example =
    copy_user_page_lem (remap_phys no_words 1) device (record { table = 3; index = 1 }) sample refl
      (λ e. refl) (omega arith) refl

-- The first page behind the heap has no table.
heap-IsUnused : (g : ℕ) → 512 ≤ g → g < 513 → IsUnused (slot 1 sample g)
heap-IsUnused g lo hi =
    let e : g ≡ 512 = omega arith in rw e (record { absent = refl; no_frame = refl })

sbrk_lem_example :
    (t : Vmm) × (sbrk (remap_phys no_words 1) (pos 4096) sample ≡ done 0x200000 t)
    × (t.kernel_heap ≡ 513 * page_size)
    × Grown 1 512 1 sample t
    × (t.heap_lock ≡ false)
    × IsValid 1 t
    × HasRoom 0 t
sbrk_lem_example =
    sbrk_lem no_words 0 sample 512 1 0 sample-IsValid refl refl refl (omega arith) (omega arith)
      (omega arith) heap-IsUnused sample-HasRoom

taken_at_7 : taken frames 7 ≡ true
unfolding is_taken
taken_at_7 = refl

seven-IsDataFrame : IsDataFrame 1 7 sample
seven-IsDataFrame = record {
  other = omega arith;
  no_table = λ i l p. let e = (only_table i p).1 in omega (arith, e);
}

free_page_lem_example :
    (t : Vmm) × (free_page (some device) sample ≡ done tt t)
    × ((g : ℕ)
        → g < 0x100000
        → translate 1 t g ≡ (if g == 0x90001 then none else translate 1 sample g))
    × ((g : ℕ) → taken t.pmm g ≡ (not (7 == g) && taken frames g))
    × IsValid 1 t
free_page_lem_example =
    free_page_lem 0x90001 device_page sample-IsValid (omega arith) refl (omega arith) taken_at_7
      seven-IsDataFrame

taken_at_0 : taken frames 0 ≡ true
unfolding is_taken
taken_at_0 = refl

zero-IsDataFrame : IsDataFrame 1 0 sample
zero-IsDataFrame = record {
  other = omega arith;
  no_table = λ i l p. let e = (only_table i p).1 in omega (arith, e);
}

kernel_table : IsKernelTable (sample.memory 2)
kernel_table j p = ground arith

clone_table_lem_example :
    (t : Vmm) × (clone_table (remap_phys no_words 1) 1 0 576 sample ≡ done tt t)
    × ((g : ℕ) → g < 0x100000 → g / 1024 ≡ 576 → translate 0 t g ≡ translate 1 sample g)
    × ((g : ℕ) → g < 0x100000 → translate 1 t g ≡ translate 1 sample g)
    × (taken frames (t.memory 0 576).address ≡ false)
clone_table_lem_example =
    clone_table_lem no_words 0 0 576 1 sample-IsValid zero-IsDataFrame taken_at_0 (omega arith) refl
      kernel_table sample-HasRoom
