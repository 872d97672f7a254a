-- ===== src/Paging/Cloning.antt =====
-- What the directory that `mem_clone` of hexahedron/arch/i386/mem.c makes maps, table by table.
use hexahedron.Base.{
  ℕ, suc, ◌+◌, ◌*◌, ◌/◌, ◌%◌, ◌^◌, ◌<◌, ◌≡◌, ◌≢◌, refl, arith, true, false, if◌then◌else◌,
  Bool-cases, inl, inr, ap, sym, ◌∙◌,
}
use hexahedron.Base.Outcome.{done}
use hexahedron.Bitmap.{Words}
use hexahedron.Pmm.Invariant.{taken}
use hexahedron.Paging.{Page, Vmm, read_page, page_size, blank}
use hexahedron.Paging.Tables.{remap_phys}
use hexahedron.Paging.Spaces.{clone_table}
use hexahedron.Paging.Walk.{slot, mapped, HasRoom, pde_at, place, translate, IsValid}
use hexahedron.Paging.Heap.{handed_out}
use hexahedron.Paging.Unmapping.{IsDataFrame}
use hexahedron.Paging.Clone.{IsKernelTable, copied, copies, with_copy, cloned}

translate_at :
    (dir : ℕ) (u : Vmm) (g : ℕ) (page : Page)
    → (pde_at dir u g).present ≡ true
    → read_page (place dir u g) u ≡ page
    → translate dir u g ≡ mapped page
translate_at dir u g page p e =
    ap mapped (let x : slot dir u g ≡ read_page (place dir u g) u = ground (arith, p) in x ∙ e)

frame_apart : (s : Vmm) (r f : ℕ) → taken s.pmm r ≡ false → taken s.pmm f ≡ true → f ≢ r
frame_apart s r f free used e = let x = ap (taken s.pmm) e in cc

-- The state in which entry `i` of `dest` has a copy in frame `r` of the table of `src`.
module _ (src dest i r : ℕ) (s : Vmm) (w : IsValid src s) (d : IsDataFrame src dest s)
    (used : taken s.pmm dest ≡ true) (p : (s.memory src i).present ≡ true)
    (free : taken s.pmm r ≡ false) (small : r < 2 ^ 20) where
  abbrev start : Vmm
  start = with_copy src dest i r s

  not_src : src ≢ r
  not_src = frame_apart s r src free w.directory_taken

  not_dest : dest ≢ r
  not_dest = frame_apart s r dest free used

  kept : (f j : ℕ) → f ≢ dest → f ≢ r → start.memory f j ≡ s.memory f j
  kept f j a b = ground arith

  start_blank : (j : ℕ) → start.memory r j ≡ blank
  start_blank j = ground (arith, not_dest)

  entry : ((start.memory dest i).present ≡ true) × ((start.memory dest i).address ≡ r)
  entry = ground (arith, not_dest, not_src, d.other, p)

  -- A frame in use that is not `dest`, such as a table of `src`, is not written.
  kept_used : (f j : ℕ) → f ≢ dest → taken s.pmm f ≡ true → start.memory f j ≡ s.memory f j
  kept_used f j a b = kept f j a (frame_apart s r f free b)

  module _ (m : ℕ → ℕ → Page)
      (maps : (f j : ℕ)
        → m f j ≡ copied (start.memory src i).address r 0 1024 start.memory f j) where
    abbrev final : Vmm
    final = record start { memory = m }

    unwritten : (f j : ℕ) → f ≢ r → m f j ≡ start.memory f j
    unwritten f j n = ground (arith, maps f j)

    source_same : (g : ℕ) → g < 2 ^ 20 → translate src final g ≡ translate src s g
    source_same g l =
        let a = unwritten src (g / 1024) not_src ∙ kept src (g / 1024) d.other not_src in
        elim (Bool-cases (pde_at src s g).present) [
          | inl q ↦
              let t = w.tables (g / 1024) (omega arith) q in
              let f = (pde_at src s g).address in
              let n : f ≢ dest = d.no_table (g / 1024) (omega arith) q in
              let b =
                unwritten f (g % 1024) (frame_apart s r f free t.in_use)
                ∙ kept_used f (g % 1024) n t.in_use in
              translate_at src final g (read_page (place src s g) s)
                (ap (λ (x : Page). x.present) a ∙ q)
                (ap (λ (x : Page). m x.address (g % 1024)) a ∙ b)
              ∙ sym (translate_at src s g (read_page (place src s g) s) q refl)
          | inr q ↦ let x = ap (λ (y : Page). y.present) a ∙ q in ground (arith, x, q)
        ]

    copy_same : (g : ℕ) → g < 2 ^ 20 → g / 1024 ≡ i → translate dest final g ≡ translate src s g
    copy_same g l e =
        let f = (s.memory src i).address in
        let t = w.tables i (omega arith) p in
        let n : f ≢ dest = d.no_table i (omega arith) p in
        let from : (start.memory src i).address ≡ f =
          ap (λ (x : Page). x.address) (kept src i d.other not_src) in
        let a = ap (m dest) e ∙ unwritten dest i not_dest in
        let k = kept_used f (g % 1024) n t.in_use in
        let b = maps r (g % 1024) in
        let c = start_blank (g % 1024) in
        let o = ap (λ (x : ℕ). start.memory x (g % 1024)) from ∙ k in
        let old = ap (λ (x : ℕ). (s.memory src x).present) e ∙ p in
        let whole : m r (g % 1024)
            ≡ (if (s.memory f (g % 1024)).present then s.memory f (g % 1024) else blank) =
          ground (arith, b, c, o) in
        translate_at dest final g _ (ap (λ (x : Page). x.present) a ∙ entry.0) (
          ap (λ (x : Page). m x.address (g % 1024)) a
          ∙ ap (λ (x : ℕ). m x (g % 1024)) entry.1
          ∙ whole)
        ∙ blank_maps (s.memory f (g % 1024))
        ∙ sym (
            translate_at src s g (s.memory f (g % 1024)) old
              (ap (λ (x : ℕ). s.memory (s.memory src x).address (g % 1024)) e))
      where
        blank_maps : (page : Page) → mapped (if page.present then page else blank) ≡ mapped page
        blank_maps page = ground arith

-- One table of `mem_clone`, where the tables of the source are in order, all present pages of this one are the
-- kernel's, the new directory stands in a frame in use that holds no table of the source, and the cache has
-- a free frame: the new directory has a table in a frame that was free, and maps each page of the table as
-- the source did, and the source itself maps every page as before.
pub clone_table_lem :
    (words : Words) (fuel : ℕ) {src : ℕ} {s : Vmm} (dest i n : ℕ)
    → IsValid src s
    → IsDataFrame src dest s
    → taken s.pmm dest ≡ true
    → i < 1024
    → (s.memory src i).present ≡ true
    → IsKernelTable (s.memory (s.memory src i).address)
    → HasRoom (suc n) s
    → (t : Vmm) × (clone_table (remap_phys words (suc fuel)) src dest i s ≡ done tt t)
      × ((g : ℕ) → g < 2 ^ 20 → g / 1024 ≡ i → translate dest t g ≡ translate src s g)
      × ((g : ℕ) → g < 2 ^ 20 → translate src t g ≡ translate src s g)
      × (taken s.pmm (t.memory dest i).address ≡ false)
clone_table_lem words fuel {src} {s} dest i n w d used l p kernel room =
    let (r, handed, lr, free, _, _, _) = handed_out {s = s} n w room in
    let small : r < 2 ^ 20 = omega (arith, lr, w.cached) in
    let f = (s.memory src i).address in
    let t = w.tables i l p in
    let not_table : f ≢ dest = d.no_table i l p in
    let begin = start src dest i r s w d used p free small in
    let from : (begin.memory src i).address ≡ f =
      ap (λ (x : Page). x.address)
        (kept src dest i r s w d used p free small src i d.other
          (not_src src dest i r s w d used p free small)) in
    let same = λ (j : ℕ).
      ap (λ (x : ℕ). begin.memory x j) from
      ∙ kept_used src dest i r s w d used p free small f j not_table t.in_use in
    let apart : (begin.memory src i).address ≢ r =
      λ e. frame_apart s r f free t.in_use (sym from ∙ e) in
    let (m, called, maps) =
      copies (remap_phys words (suc fuel)) (begin.memory src i).address r 1024 0 begin apart (λ j q.
        ap (λ (x : Page). x.usermode) (same j)
        ∙ kernel j (sym (ap (λ (x : Page). x.present) (same j)) ∙ q)) in
    let in_cache : ((begin.memory src i).address + 1) * page_size < s.cache_size =
      omega (arith, from, t.in_cache) in
    let at : (m dest i).address ≡ r =
      ap (λ (x : Page). x.address)
        (unwritten src dest i r s w d used p free small m maps dest i
          (not_dest src dest i r s w d used p free small))
      ∙ (entry src dest i r s w d used p free small).1 in
    (
      final src dest i r s w d used p free small m maps,
      cloned words fuel src dest i r s m p handed w.cached lr in_cache called,
      copy_same src dest i r s w d used p free small m maps,
      source_same src dest i r s w d used p free small m maps,
      ap (taken s.pmm) at ∙ free,
    )
