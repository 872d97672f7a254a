-- ===== src/Paging/Mapping.antt =====
-- `mem_getPage`, `mem_mapAddress` and `mem_getPhysicalAddress` of hexahedron/arch/i386/mem.c, against what
-- the directory maps.
use hexahedron.Base.{
  ℕ, suc, ◌+◌, ◌*◌, ◌/◌, ◌%◌, ◌^◌, ◌<◌, ◌≡◌, refl, arith, true, false, not, Option, some, ◌==◌,
  if◌then◌else◌, Bool-cases, inl, inr, ap, ◌∙◌,
}
use hexahedron.Base.Outcome.{done}
use hexahedron.Bitmap.{Words}
use hexahedron.Paging.{
  Page, PagePtr, Vmm, directory, read_page, write_page, page_size, set_frame, mem_create,
  mem_noalloc, mem_free_page, mem_readonly, mem_kernel, mem_not_present, mem_writethrough,
  mem_not_cacheable, has_flag, with_flag, configured, allocate_page,
}
use hexahedron.Paging.Tables.{Remap, remap_phys, get_page, map_address, get_physical_address}
use hexahedron.Paging.Cached.{remapped, unmapped}
use hexahedron.Paging.Walk.{
  mapped_if, slot, HasRoom, Same, pde_at, place, translate, IsValid, translate_absent,
}
use hexahedron.Paging.Obtained.{got}
use hexahedron.Paging.Writes.{end, new, end_lem, moved_room}

allocate_configures :
    (q : PagePtr) (flags : ℕ) (s : Vmm)
    → has_flag flags mem_free_page ≡ false
    → allocate_page q (with_flag flags mem_noalloc) s
      ≡ done tt (write_page q (configured (with_flag flags mem_noalloc) (read_page q s)) s)
unfolding allocate_page
allocate_configures q flags s h =
    let f : has_flag (with_flag flags mem_noalloc) mem_free_page ≡ false = ground arith in
    let n : has_flag (with_flag flags mem_noalloc) mem_noalloc ≡ true = ground arith in
    ground (arith, f, n)

-- the bits that the flags ask for
pub record HasFlags (flags : ℕ) (page : Page) : Type 0 where
  pub present : page.present ≡ true
  pub rw_bit : page.rw_bit ≡ not (has_flag flags mem_readonly)
  pub usermode : page.usermode ≡ not (has_flag flags mem_kernel)
  pub writethrough : page.writethrough ≡ has_flag flags mem_writethrough
  pub cache_disable : page.cache_disable ≡ has_flag flags mem_not_cacheable

configured-HasFlags :
    (flags : ℕ) (page : Page)
    → has_flag flags mem_not_present ≡ false
    → HasFlags flags (configured (with_flag flags mem_noalloc) page)
configured-HasFlags flags page n = record {
  present = ground arith;
  rw_bit = ground arith;
  usermode = ground arith;
  writethrough = ground arith;
  cache_disable = ground arith;
}

pub framed :
    {page : Page} (flags : ℕ)
    → HasFlags flags page
    → (frame : ℕ) → HasFlags flags (set_frame page frame)
framed flags b frame = record {
  present = b.present;
  rw_bit = b.rw_bit;
  usermode = b.usermode;
  writethrough = b.writethrough;
  cache_disable = b.cache_disable;
}

abbrev configured_at : PagePtr → ℕ → Vmm → Vmm
configured_at q flags s = write_page q (configured (with_flag flags mem_noalloc) (read_page q s)) s

map_entry :
    (remap : Remap) {dir : ℕ} (s t : Vmm) (d : Option ℕ) (q : PagePtr) (phys virt flags : ℕ)
    → directory d s ≡ dir
    → get_page remap (some dir) virt mem_create s ≡ done (some q) t
    → has_flag flags mem_free_page ≡ false
    → map_address remap d phys virt flags s
      ≡ done tt (
          write_page q
            (set_frame (read_page q (configured_at q flags t)) phys)
            (configured_at q flags t))
unfolding map_address
map_entry remap s t d q phys virt flags e h n = rw (e, h, allocate_configures q flags t n) refl

module _ (words : Words) (fuel : ℕ) where
  -- Where the tables are in order and `n + 1` frames of the cache are free, `mem_mapAddress` of a page of
  -- the address space to one of physical memory, with flags that ask neither to free the page nor to have it
  -- not present, maps it there with the bits that the flags ask for, maps every other page as before,
  -- leaves `n` frames free, keeps the tables in order and changes no other global.
  pub map_address_lem :
      {dir : ℕ} {s : Vmm} (d : Option ℕ) (v p flags n : ℕ)
      → IsValid dir s
      → directory d s ≡ dir
      → v < 2 ^ 20
      → p < 2 ^ 20
      → has_flag flags mem_free_page ≡ false
      → has_flag flags mem_not_present ≡ false
      → HasRoom (suc n) s
      → (t : Vmm) × (page : Page) × (map_address
            (remap_phys words (suc fuel))
            d
            (p * page_size)
            (v * page_size)
            flags
            s
          ≡ done tt t)
        × (page.address ≡ p)
        × HasFlags flags page
        × ((g : ℕ)
            → g < 2 ^ 20
            → translate dir t g ≡ (if g == v then some page else translate dir s g))
        × IsValid dir t
        × HasRoom n t
        × Same s t
  map_address_lem {dir} {s} d v p flags n w e l hp free_flag absent_flag room =
      let (t, called, ok, h, same, kept, left, _) =
        got words fuel {s = s} (some dir) v mem_create n w refl l (omega arith) room in
      let one = configured (with_flag flags mem_noalloc) in
      let two = λ (page : Page). set_frame page (p * page_size) in
      let bits = configured-HasFlags flags (read_page (place dir t v) t) absent_flag in
      let (valid, maps) = end_lem {t = t} v one two ok l h in
      let u = end {t = t} v one two ok l h in
      let q = new {t = t} v one two ok l h in
      (
        u,
        q,
        map_entry (remap_phys words (suc fuel)) s t d (place dir t v) (p * page_size)
            (v * page_size) flags e called free_flag,
        omega arith,
        framed flags bits (p * page_size),
        λ g hg.
            mapped_if v g q (slot dir s g) (slot dir u g) bits.present
              (maps g hg ∙ ap (λ x. if g == v then q else x) (same g hg)),
        valid,
        moved_room left,
        ap (λ (x : Vmm). record x { pmm = t.pmm; memory = u.memory }) kept,
      )

  -- Where the tables are in order, `mem_getPhysicalAddress` of an address in a mapped page gives the address
  -- of the page that it is mapped to, the offset in the page added, and changes nothing.
  pub get_physical_address-translate :
      {dir : ℕ} {s : Vmm} (d : Option ℕ) (v offset : ℕ) (page : Page)
      → IsValid dir s
      → directory d s ≡ dir
      → v < 2 ^ 20
      → offset < page_size
      → translate dir s v ≡ some page
      → get_physical_address (remap_phys words (suc fuel)) d (v * page_size + offset) s
        ≡ done (page.address * page_size + offset) s
  unfolding get_physical_address
  get_physical_address-translate {dir} {s} d v offset page w e l ho m =
      elim (Bool-cases (pde_at dir s v).present) [
        | inl p ↦
            let t = w.tables (v / 1024) (omega arith) p in
            let b : (v * 4096 + offset) / 4096 ≡ v = omega arith in
            let a : v * 4096 / 2 ^ 22 % 1024 ≡ v / 1024 = omega arith in
            let i : v * 4096 / 2 ^ 12 % 1024 ≡ v % 1024 = omega arith in
            let o : (v * 4096 + offset) % 4096 ≡ offset = omega arith in
            let r = remapped {s = s} (pde_at dir s v).address w.cached t.in_cache words fuel in
            let u = unmapped {s = s} (pde_at dir s v).address w.cached t.in_cache in
            let k : read_page (place dir s v) s ≡ page = ground arith in
            rw (e, b, a, i, o, p, r, u, k) refl
        | inr p ↦ let z = translate_absent dir s v p in cc
      ]
