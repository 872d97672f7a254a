-- ===== src/Paging/Walk.antt =====
-- What a page directory of hexahedron/arch/i386/mem.c maps, read straight from its tables, and when the
-- tables are in order.
use hexahedron.Base.{
  Bool-cases, inl, inr, ◌∙◌, ap, ◌==◌, ℕ, suc, ◌+◌, ◌*◌, ◌/◌, ◌%◌, ◌^◌, ◌<◌, ◌≤◌, ◌≡◌, ◌≢◌, refl,
  arith, true, false, Option, none, some, if◌then◌else◌,
}
use hexahedron.Base.Count.{count}
use hexahedron.Base.Outcome.{done}
use hexahedron.Bitmap.{Words}
use hexahedron.Pmm
use hexahedron.Pmm.{Pmm}
use hexahedron.Pmm.Invariant.{taken}
use hexahedron.Pmm.Single.{scanned}
use hexahedron.Paging.{blank, Page, PagePtr, Vmm, directory, read_page, page_size}
use hexahedron.Paging.Tables.{remap_phys, get_page, table_entry, pde_of}
use hexahedron.Paging.Cached.{remapped, unmapped}

-- The entry of a directory for page `v` of the address space, and the place of the page's own entry.
abbrev pub pde_at : ℕ → Vmm → ℕ → Page
pde_at dir s v = s.memory dir (v / 1024)

abbrev pub place : ℕ → Vmm → ℕ → PagePtr
place dir s v = record { table = (pde_at dir s v).address; index = v % 1024 }

-- The entry of page `v`, blank where it has no table.
abbrev pub slot : ℕ → Vmm → ℕ → Page
slot dir s v = if (pde_at dir s v).present then read_page (place dir s v) s else blank

-- What an entry maps a page by.
abbrev pub mapped : Page → Option Page
mapped page = if page.present then some page else none

-- The entry that page `v` is mapped by.
abbrev pub translate : ℕ → Vmm → ℕ → Option Page
translate dir s v = mapped (slot dir s v)

-- A table stands in a frame that is in use, within the cache, and not the directory's.
pub record HasTable (dir : ℕ) (s : Vmm) (frame : ℕ) : Type 0 where
  pub in_use : taken s.pmm frame ≡ true
  pub in_cache : (frame + 1) * page_size < s.cache_size
  pub other : frame ≢ dir

pub record IsValid (dir : ℕ) (s : Vmm) : Type 0 where
  pub pmm : Pmm.Invariant.IsValid s.pmm
  pub cached : s.cache_size ≤ 2 ^ 28
  pub directory_taken : taken s.pmm dir ≡ true
  pub tables :
      (i : ℕ) → i < 1024 → (s.memory dir i).present ≡ true → HasTable dir s (s.memory dir i).address
  pub apart :
      (i j : ℕ)
      → i < 1024
      → j < 1024
      → (s.memory dir i).present ≡ true
      → (s.memory dir j).present ≡ true
      → (s.memory dir i).address ≡ (s.memory dir j).address
      → i ≡ j

-- At least `n` frames of the cache are free, among those that the frame allocator searches.
pub record HasRoom (n : ℕ) (s : Vmm) : Type 0 where
  pub bound : ℕ
  pub searched : bound ≤ scanned s.pmm
  pub in_cache : bound * page_size < s.cache_size
  pub counted : count (taken s.pmm) bound + n ≤ bound

-- The globals that a change of the tables leaves alone.
abbrev pub Same : Vmm → Vmm → Type 0
Same s t = t ≡ record s { pmm = t.pmm; memory = t.memory }

-- No frame has become free.
abbrev pub Grows : Vmm → Vmm → Type 0
Grows s t = (g : ℕ) → taken s.pmm g ≡ true → taken t.pmm g ≡ true

pub slot_absent :
    (dir : ℕ) (s : Vmm) (g : ℕ) → (pde_at dir s g).present ≡ false → slot dir s g ≡ blank
slot_absent dir s g e = ground arith

pub slot-blank :
    (dir : ℕ) (s : Vmm) (g : ℕ) → read_page (place dir s g) s ≡ blank → slot dir s g ≡ blank
slot-blank dir s g e = ground arith

pub translate_absent :
    (dir : ℕ) (s : Vmm) (g : ℕ) → (pde_at dir s g).present ≡ false → translate dir s g ≡ none
translate_absent dir s g e = ground arith

-- Where an entry is the old one but for page `v`, so is what it maps.
pub mapped_if :
    (v g : ℕ) (page old now : Page)
    → page.present ≡ true
    → now ≡ (if g == v then page else old)
    → mapped now ≡ (if g == v then some page else mapped old)
mapped_if v g page old now p e = elim (Bool-cases (g == v)) [
  | inl y ↦ ap mapped e ∙ ground (arith, y, p)
  | inr n ↦ ap mapped e ∙ ground (arith, n)
]

module _ (words : Words) (fuel : ℕ) where
  pub entered :
      {dir : ℕ} {s : Vmm} (v : ℕ)
      → IsValid dir s
      → v < 2 ^ 20
      → (pde_at dir s v).present ≡ true
      → table_entry (remap_phys words (suc fuel)) (pde_of dir (v * page_size)) (v * page_size) s
        ≡ done (some (place dir s v)) s
  unfolding table_entry
  entered {dir} {s} v w l p =
      let t = w.tables (v / 1024) (omega arith) p in
      let a : v * 4096 / 2 ^ 22 % 1024 ≡ v / 1024 = omega arith in
      let b : v * 4096 / 2 ^ 12 % 1024 ≡ v % 1024 = omega arith in
      let r = remapped {s = s} (pde_at dir s v).address w.cached t.in_cache words fuel in
      let u = unmapped {s = s} (pde_at dir s v).address w.cached t.in_cache in rw (a, b, r, u) refl

  -- `mem_getPage` where the directory has a table for page `v`
  pub found :
      {dir : ℕ} {s : Vmm} (d : Option ℕ) (v flags : ℕ)
      → IsValid dir s
      → directory d s ≡ dir
      → v < 2 ^ 20
      → (pde_at dir s v).present ≡ true
      → get_page (remap_phys words (suc fuel)) d (v * page_size) flags s
        ≡ done (some (place dir s v)) s
  unfolding get_page
  found {dir} {s} d v flags w e l p =
      let a : v * 4096 / 2 ^ 22 % 1024 ≡ v / 1024 = omega arith in
      let z : v * 4096 % 4096 ≡ 0 = omega arith in
      let f = rw a at (entered {s = s} v w l p) in rw (e, z, a, p, f) refl
