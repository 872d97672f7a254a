-- ===== src/Paging/Heap.antt =====
-- The pages of the kernel's heap in hexahedron/arch/i386/mem.c, and those of drivers: each is given a
-- frame of its own.
use hexahedron.Base.{
  ℕ, suc, ◌+◌, ◌*◌, ◌^◌, ◌<◌, ◌≡◌, refl, arith, true, false, none, some, ◌==◌, if◌then◌else◌,
  Bool-cases, inl, inr, ap, ◌∙◌,
}
use hexahedron.Base.Count.{count-lt}
use hexahedron.Base.Outcome.{done}
use hexahedron.Bitmap.{Words}
use hexahedron.Bitmap.Frames.{is_taken-set}
use hexahedron.Pmm
use hexahedron.Pmm.{Pmm}
use hexahedron.Pmm.Invariant.{taken}
use hexahedron.Pmm.Single.{with_frame, allocated}
use hexahedron.Paging.{
  Page, PagePtr, Vmm, read_page, write_page, page_size, set_frame, mem_create, mem_kernel,
  configured, allocate_page,
}
use hexahedron.Paging.Tables.{Remap, remap_phys, get_page}
use hexahedron.Paging.Regions.{driver_page}
use hexahedron.Paging.Walk.{Grows, slot, HasRoom, Same, place, IsValid}
use hexahedron.Paging.Creation.{one_less, grown}
use hexahedron.Paging.Obtained.{got}
use hexahedron.Paging.Writes.{end, new, end_lem, moved_room}

driver_entry :
    (remap : Remap) (s t : Vmm) (q : PagePtr) (i r : ℕ)
    → get_page remap none i mem_create s ≡ done (some q) t
    → (read_page q t).address ≡ 0
    → Pmm.allocate_block t.pmm ≡ done (r * page_size) (with_frame r t.pmm)
    → let t' = record t { pmm = with_frame r t.pmm } in
      let u = write_page q (set_frame (read_page q t') (r * page_size)) t' in
      driver_page remap i s ≡ done tt (write_page q (configured mem_kernel (read_page q u)) u)
unfolding driver_page allocate_page
driver_entry remap s t q i r h z a = simp (h, z, a) refl

-- A free frame of the cache is handed out for other use than a table.
pub handed_out :
    {dir : ℕ} {s : Vmm} (n : ℕ)
    → IsValid dir s
    → HasRoom (suc n) s
    → (r : ℕ) × (Pmm.allocate_block s.pmm ≡ done (r * page_size) (with_frame r s.pmm))
      × ((r + 1) * page_size < s.cache_size)
      × (taken s.pmm r ≡ false)
      × (taken (with_frame r s.pmm) r ≡ true)
      × IsValid dir (record s { pmm = with_frame r s.pmm })
      × HasRoom n (record s { pmm = with_frame r s.pmm })
handed_out {dir} {s} n w room =
    let (f, less, free) = count-lt (taken s.pmm) room.bound (omega (arith, room.counted)) in
    let (r, called, least, clear, valid) = allocated f w.pmm (omega (arith, room.searched)) free in
    let keeps = grown {s = s} r w in
    (
      r,
      called,
      omega (arith, room.in_cache),
      clear,
      ground (arith, is_taken-set s.pmm.frames w.pmm.words r r),
      record {
        pmm = valid;
        cached = w.cached;
        directory_taken = keeps dir w.directory_taken;
        tables = λ j h p.
            let t = w.tables j h p in
            record {
              in_use = keeps (s.memory dir j).address t.in_use;
              in_cache = t.in_cache;
              other = t.other;
            };
        apart = w.apart;
      },
      one_less {s = s} n r {m = s.memory} w clear room (omega arith),
    )

-- a page of the heap: for the kernel, and in a frame that was free and no longer is
pub record IsFresh (s t : Vmm) (page : Page) : Type 0 where
  pub present : page.present ≡ true
  pub kernel : page.usermode ≡ false
  pub writable : page.rw_bit ≡ true
  pub was_free : taken s.pmm page.address ≡ false
  pub in_use : taken t.pmm page.address ≡ true

module _ (words : Words) (fuel : ℕ) {dir : ℕ} where
  pub driver_page_lem :
      (s : Vmm) (v n : ℕ)
      → IsValid dir s
      → s.current_dir ≡ dir
      → v < 2 ^ 20
      → (slot dir s v).address ≡ 0
      → HasRoom (suc (suc n)) s
      → (t : Vmm) × (page : Page) × (driver_page (remap_phys words (suc fuel)) (v * page_size) s
          ≡ done tt t)
        × IsFresh s t page
        × ((g : ℕ) → g < 2 ^ 20 → slot dir t g ≡ (if g == v then page else slot dir s g))
        × IsValid dir t
        × HasRoom n t
        × Same s t
        × Grows s t
  driver_page_lem s v n w e l z room =
      let (t, called, ok, h, same, kept, left, grows) =
        got words fuel {s = s} none v mem_create (suc n) w e l (omega arith) room in
      let (r, handed, small, clear, use', ok', left') = handed_out {s = t} n ok left in
      let t' = record t { pmm = with_frame r t.pmm } in
      let zero' : (read_page (place dir t v) t).address ≡ 0 = ground (arith, h, same v l, z) in
      let one = λ (page : Page). set_frame page (r * page_size) in
      let (valid, maps) = end_lem {t = t'} v one (configured mem_kernel) ok' l h in
      let u = end {t = t'} v one (configured mem_kernel) ok' l h in
      let q = new {t = t'} v one (configured mem_kernel) ok' l h in
      let a : q.address ≡ r = omega (arith, small, ok.cached) in
      let free : taken s.pmm r ≡ false = elim (Bool-cases (taken s.pmm r)) [
        | inl y ↦ let y' = grows r y in cc
        | inr y ↦ y
      ] in
      (
        u,
        q,
        driver_entry (remap_phys words (suc fuel)) s t (place dir t v) (v * page_size) r called
            zero' handed,
        record {
          present = refl;
          kernel = refl;
          writable = refl;
          was_free = ap (taken s.pmm) a ∙ free;
          in_use = ap (taken t'.pmm) a ∙ use';
        },
        λ g hg. maps g hg ∙ ap (λ y. if g == v then q else y) (same g hg),
        valid,
        moved_room left',
        ap (λ (y : Vmm). record y { pmm = u.pmm; memory = u.memory }) kept,
        λ g y. grown {s = t} r ok g (grows g y),
      )
