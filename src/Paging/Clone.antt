-- ===== src/Paging/Clone.antt =====
-- `mem_clone` of hexahedron/arch/i386/mem.c: one table, all of whose pages are the kernel's.
use hexahedron.Base.{
  ℕ, zero, suc, ◌+◌, ◌*◌, ◌/◌, ◌%◌, ◌^◌, ◌<◌, ◌≤◌, ◌≡◌, ◌≢◌, refl, arith, Bool, true, false, ◌&&◌,
  ◌==◌, ltb, leb, if◌then◌else◌, Bool-cases, inl, inr, ap, sym, ◌∙◌,
}
use hexahedron.Base.Outcome.{done, and_then}
use hexahedron.Bitmap.{Words}
use hexahedron.Pmm
use hexahedron.Pmm.{Pmm}
use hexahedron.Pmm.Single.{with_frame}
use hexahedron.Paging.{Page, PagePtr, Vmm, read_page, write_page, page_size, clear_table}
use hexahedron.Paging.Tables.{Remap, remap_phys}
use hexahedron.Paging.Spaces.{for_entries, clone_page, clone_table}
use hexahedron.Paging.Cached.{remapped, unmapped}

-- No present page of a table is the user's.
abbrev pub IsKernelTable : (ℕ → Page) → Type 0
IsKernelTable pages = (j : ℕ) → (pages j).present ≡ true → (pages j).usermode ≡ false

clone_page_lem :
    (remap : Remap) (src dest i : ℕ) (s : Vmm)
    → IsKernelTable (s.memory src)
    → clone_page remap src dest i s
      ≡ done tt (
          if (s.memory src i).present
          then write_page (record { table = dest; index = i }) (s.memory src i) s
          else s)
unfolding clone_page
clone_page_lem remap src dest i s kernel = elim (Bool-cases (s.memory src i).present) [
  | inl p ↦ let u = kernel i p in simp (p, u) refl
  | inr p ↦ simp p refl
]

abbrev pub in_range : ℕ → ℕ → ℕ → Bool
in_range i n j = leb i j && ltb j (i + n)

-- The memory after the present entries from `i` on, `n` of them, have been copied.
abbrev pub copied : ℕ → ℕ → ℕ → ℕ → (ℕ → ℕ → Page) → ℕ → ℕ → Page
copied src dest i n memory f j =
    if (f == dest) && in_range i n j && (memory src j).present then memory src j else memory f j

copy_cons :
    (src dest i n : ℕ) (memory next : ℕ → ℕ → Page) (f j : ℕ)
    → src ≢ dest
    → ((f j : ℕ)
        → next f j ≡ (
            if (f == dest) && (j == i) && (memory src i).present then memory src i else memory f j))
    → copied src dest (i + 1) n next f j ≡ copied src dest i (suc n) memory f j
copy_cons src dest i n memory next f j apart step =
    let here = step f j in
    let there = step src j in
    let m : (src == dest) ≡ false = ground arith in
    let same : next src j ≡ memory src j = there ∙ ground (arith, m) in
    elim (Bool-cases (j == i)) [
      | inl y ↦ let e : j ≡ i = ground arith in ground (arith, here, same, e, ap (memory src) e)
      | inr x ↦ ground (arith, here, same, x)
    ]

-- The inner loop of `mem_clone` on pages of the kernel copies the present entries.
pub copies :
    (remap : Remap) (src dest n i : ℕ) (s : Vmm)
    → src ≢ dest
    → IsKernelTable (s.memory src)
    → (m : ℕ → ℕ → Page) × (for_entries (clone_page remap src dest) n i s
        ≡ done tt (record s { memory = m }))
      × ((f j : ℕ) → m f j ≡ copied src dest i n s.memory f j)
unfolding for_entries
copies remap src dest zero i s apart kernel = (s.memory, refl, λ f j. ground arith)
copies remap src dest (suc n) i s apart kernel =
    let now = write_page (record { table = dest; index = i }) (s.memory src i) s in
    let m : (src == dest) ≡ false = ground arith in
    let one = clone_page_lem remap src dest i s kernel in
    elim (Bool-cases (s.memory src i).present) [
      | inl p ↦
          let first : clone_page remap src dest i s ≡ done tt now = one ∙ simp p refl in
          let same : (j : ℕ) → now.memory src j ≡ s.memory src j = λ j. ground (arith, m) in
          let (last, rest, maps) = copies remap src dest n (i + 1) now apart (λ j q.
            ap (λ (x : Page). x.usermode) (same j)
            ∙ kernel j (sym (ap (λ (x : Page). x.present) (same j)) ∙ q)) in
          (
            last,
            ap (λ o. and_then o (λ _. for_entries (clone_page remap src dest) n (i + 1))) first
                ∙ rest,
            λ f j.
                maps f j
                ∙ copy_cons src dest i n s.memory now.memory f j apart (λ g k. ground (arith, p)),
          )
      | inr p ↦
          let first : clone_page remap src dest i s ≡ done tt s = one ∙ simp p refl in
          let (last, rest, maps) = copies remap src dest n (i + 1) s apart kernel in
          (
            last,
            ap (λ o. and_then o (λ _. for_entries (clone_page remap src dest) n (i + 1))) first
                ∙ rest,
            λ f j.
                maps f j
                ∙ copy_cons src dest i n s.memory s.memory f j apart (λ g k. ground (arith, p)),
          )
    ]

-- the directory `dest` once entry `i` has been given the cleared frame `r`
abbrev pub with_copy : ℕ → ℕ → ℕ → ℕ → Vmm → Vmm
with_copy src dest i r s =
    let d : PagePtr = record { table = dest; index = i } in
    let one = clear_table r (record s { pmm = with_frame r s.pmm }) in
    let two = write_page d (one.memory src i) one in
    write_page d (record (read_page d two) { address = r % 2 ^ 20 }) two

module _ (words : Words) (fuel : ℕ) where
  abbrev pub remap : Remap
  remap = remap_phys words (suc fuel)

  pub cloned :
      (src dest i r : ℕ) (s : Vmm) (m : ℕ → ℕ → Page)
      → (s.memory src i).present ≡ true
      → Pmm.allocate_block s.pmm ≡ done (r * page_size) (with_frame r s.pmm)
      → s.cache_size ≤ 2 ^ 28
      → (r + 1) * page_size < s.cache_size
      → let t = with_copy src dest i r s in
        let frame = (t.memory src i).address in
        (frame + 1) * page_size < s.cache_size
        → for_entries (clone_page remap frame r) 1024 0 t ≡ done tt (record t { memory = m })
        → clone_table remap src dest i s ≡ done tt (record t { memory = m })
  unfolding clone_table
  cloned src dest i r s m p a c lr lt loop =
      let t = with_copy src dest i r s in
      let frame = (t.memory src i).address in
      let q : r * 4096 / 4096 ≡ r = omega arith in
      let mr = remapped {s = record s { pmm = with_frame r s.pmm }} r c lr words fuel in
      let mt = remapped {s = t} frame c lt words fuel in
      let ut = unmapped {s = record t { memory = m }} frame c lt in
      let ur = unmapped {s = record t { memory = m }} r c lr in
      simp (p, a, q, mr) (rw (mt, loop, ut, ur) refl)
