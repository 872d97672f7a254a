-- ===== src/Paging/Unmapping.antt =====
-- `mem_freePage` of hexahedron/arch/i386/mem.c.
use hexahedron.Base.{
  ℕ, ◌*◌, ◌^◌, ◌<◌, ◌≡◌, ◌≢◌, refl, arith, true, false, not, ◌&&◌, none, some, ◌==◌, if◌then◌else◌,
  Bool-cases, inl, inr, ap, ◌∙◌,
}
use hexahedron.Base.Outcome.{done}
use hexahedron.Pmm
use hexahedron.Pmm.{Pmm}
use hexahedron.Pmm.Invariant.{taken}
use hexahedron.Pmm.Release.{free_block_lem}
use hexahedron.Paging.{Page, PagePtr, Vmm, read_page, write_page, page_size, set_frame, free_page}
use hexahedron.Paging.Walk.{mapped, pde_at, place, translate, IsValid}
use hexahedron.Paging.Writes.{end, end_lem}

abbrev shut_off : Page → Page
shut_off page = record page { present = false; rw_bit = false; usermode = false }

free_entry :
    (q : PagePtr) (s : Vmm) (r : ℕ) (after : Pmm)
    → (read_page q s).address ≡ r
    → Pmm.free_block (r * page_size) s.pmm ≡ done tt after
    → let t = write_page q (shut_off (read_page q s)) (record s { pmm = after }) in
      free_page (some q) s ≡ done tt (write_page q (set_frame (read_page q t) 0) t)
unfolding free_page
free_entry q s r after a h =
    let h' : Pmm.free_block ((read_page q s).address * page_size) s.pmm ≡ done tt after =
      ap (λ (x : ℕ). Pmm.free_block (x * page_size) s.pmm) a ∙ h in
    simp h' refl

-- Frame `r` holds neither the directory nor a table.
pub record IsDataFrame (dir r : ℕ) (s : Vmm) : Type 0 where
  pub other : dir ≢ r
  pub no_table : (i : ℕ) → i < 1024 → (s.memory dir i).present ≡ true → (s.memory dir i).address ≢ r

without-IsValid :
    {dir : ℕ} {s : Vmm} (r : ℕ) (after : Pmm)
    → IsValid dir s
    → IsDataFrame dir r s
    → Pmm.Invariant.IsValid after
    → ((g : ℕ) → taken after g ≡ (not (r == g) && taken s.pmm g))
    → IsValid dir (record s { pmm = after })
without-IsValid {dir} {s} r after w d valid frees = record {
  pmm = valid;
  cached = w.cached;
  directory_taken = keeps dir d.other w.directory_taken;
  tables = λ i h p.
      let t = w.tables i h p in
      record {
        in_use = keeps (s.memory dir i).address (d.no_table i h p) t.in_use;
        in_cache = t.in_cache;
        other = t.other;
      };
  apart = w.apart;
}
  where
    keeps : (g : ℕ) → g ≢ r → taken s.pmm g ≡ true → taken after g ≡ true
    keeps g n e = let m : (r == g) ≡ false = ground arith in ground (arith, frees g, m)

-- `mem_freePage` of a mapped page, where the tables are in order and the frame is one of memory, in use, and
-- holds neither the directory nor a table: the page is not mapped any more and every other page is mapped
-- as before, the frame and no other becomes free, and the tables stay in order.
pub free_page_lem :
    {dir : ℕ} {s : Vmm} (v : ℕ) (page : Page)
    → IsValid dir s
    → v < 2 ^ 20
    → translate dir s v ≡ some page
    → page.address < s.pmm.max_blocks
    → taken s.pmm page.address ≡ true
    → IsDataFrame dir page.address s
    → (t : Vmm) × (free_page (some (place dir s v)) s ≡ done tt t)
      × ((g : ℕ) → g < 2 ^ 20 → translate dir t g ≡ (if g == v then none else translate dir s g))
      × ((g : ℕ) → taken t.pmm g ≡ (not (page.address == g) && taken s.pmm g))
      × IsValid dir t
free_page_lem {dir} {s} v page w l m small used apart =
    let (h, a) = here in
    let (after, called, frees, _, valid) =
      free_block_lem {s = s.pmm} page.address w.pmm small used in
    let ok = without-IsValid {s = s} page.address after w apart valid frees in
    let t0 = record s { pmm = after } in
    let two = λ (p : Page). set_frame p 0 in
    let (done', maps) = end_lem {t = t0} v shut_off two ok l h in
    let u = end {t = t0} v shut_off two ok l h in
    (
      u,
      free_entry (place dir s v) s page.address after a called,
      λ g hg. elim (Bool-cases (g == v)) [
        | inl y ↦ ap mapped (maps g hg) ∙ ground (arith, y)
        | inr n ↦ ap mapped (maps g hg) ∙ ground (arith, n)
      ],
      frees,
      done',
    )
  where
    here :
        ((pde_at dir s v).present ≡ true) × ((read_page (place dir s v) s).address ≡ page.address)
    here = elim (Bool-cases (pde_at dir s v).present) [
      | inl p ↦ (
        p,
        let e : read_page (place dir s v) s ≡ page = ground arith in ap (λ (q : Page). q.address) e,
      )
      | inr p ↦ absurd (ground arith)
    ]
