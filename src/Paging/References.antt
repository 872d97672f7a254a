-- ===== src/Paging/References.antt =====
-- Shared pages in hexahedron/arch/i386/mem.c: the counts of references and `mem_copyUserPage`.
use hexahedron.Base.{
  ◌||◌, ℕ, ◌+◌, ◌<◌, ◌≡◌, refl, arith, Bool, true, false, ◌&&◌, some, ◌==◌, if◌then◌else◌,
  Bool-cases, inl, inr, ap, ◌∙◌,
}
use hexahedron.Base.Outcome.{done}
use hexahedron.Paging.{Page, PagePtr, Vmm, read_page, write_page}
use hexahedron.Paging.Tables.{Remap}
use hexahedron.Paging.Spaces.{
  increment_page_reference, decrement_page_reference, copy_user_page, share_page, set_references,
}

-- A reference taken on a present page and released again leaves every count and every entry as it was.
pub decrement-increment :
    (p : PagePtr) (s : Vmm)
    → (read_page p s).present ≡ true
    → s.references (read_page p s).address < 255
    → (t u : Vmm) × (increment_page_reference (some p) s
        ≡ done (s.references (read_page p s).address + 1) t)
      × (decrement_page_reference (some p) t ≡ done (s.references (read_page p s).address) u)
      × ((i : ℕ) → u.references i ≡ s.references i)
      × (u.memory ≡ s.memory)
unfolding increment_page_reference decrement_page_reference
decrement-increment p s h l =
    let a = (read_page p s).address in
    let n = s.references a in
    let t = set_references a (n + 1) s in
    let y : (n == 255) ≡ false = ground arith in
    (
      t,
      set_references a n t,
      rw (h, y) refl,
      ground (arith, h),
      λ i. elim (Bool-cases (i == a)) [
        | inl e ↦ let e' : i ≡ a = ground arith in ground (arith, ap s.references e')
        | inr e ↦ ground (arith, e)
      ],
      refl,
    )

-- Two pointers to one entry.
abbrev pub same_entry : PagePtr → PagePtr → Bool
same_entry p q = (p.table == q.table) && (p.index == q.index)

-- `mem_copyUserPage` of a present page whose frame can take a reference, and has none if the page can be
-- written to: afterwards both entries are the same, for the same frame, and neither can be written to;
-- both are marked for copy on write if the page could be written to before, and keep the mark otherwise; the
-- frame has two references or one more than before, and no other entry and no other count changes.
pub copy_user_page_lem :
    (remap : Remap) (src dest : PagePtr) (s : Vmm)
    → (read_page src s).present ≡ true
    → ((read_page src s).rw_bit ≡ true → s.references (read_page src s).address ≡ 0)
    → s.references (read_page src s).address < 255
    → same_entry src dest ≡ false
    → (t : Vmm) × (copy_user_page remap src dest s ≡ done tt t)
      × (read_page dest t ≡ read_page src t)
      × ((read_page src t).address ≡ (read_page src s).address)
      × ((read_page src t).rw_bit ≡ false)
      × ((read_page src t).cow ≡ ((read_page src s).rw_bit || (read_page src s).cow))
      × ((q : PagePtr)
          → same_entry q src ≡ false
          → same_entry q dest ≡ false
          → read_page q t ≡ read_page q s)
      × ((i : ℕ)
          → t.references i ≡ (
              if i == (read_page src s).address
              then (if (read_page src s).rw_bit then 2 else s.references i + 1)
              else s.references i))
unfolding copy_user_page share_page increment_page_reference
copy_user_page_lem remap src dest s h zero_if l apart = elim (Bool-cases (read_page src s).rw_bit) [
  | inl y ↦
      let page = record (read_page src s) { rw_bit = false; cow = true } in
      let t = write_page src page (set_references (read_page src s).address 2 s) in
      let back : read_page src t ≡ page = ground arith in
      let u = write_page dest (read_page src t) t in
      let z = zero_if y in
      let keeps : read_page src u ≡ read_page src t = ground (arith, apart) in
      (
        u,
        rw (y, z) refl,
        ground (arith, keeps),
        ap (λ (q : Page). q.address) (keeps ∙ back),
        ap (λ (q : Page). q.rw_bit) (keeps ∙ back),
        ap (λ (q : Page). q.cow) (keeps ∙ back) ∙ ground (arith, y),
        λ q a b. ground (arith, a, b),
        λ i. ground (arith, y),
      )
  | inr n ↦
      let a = (read_page src s).address in
      let t = set_references a (s.references a + 1) s in
      let u = write_page dest (read_page src t) t in
      let m : (s.references a == 255) ≡ false = ground arith in
      let keeps : read_page src u ≡ read_page src s = ground (arith, apart) in
      (
        u,
        rw (n, h, m) (ground arith),
        ground (arith, keeps),
        ap (λ (q : Page). q.address) keeps,
        ap (λ (q : Page). q.rw_bit) keeps ∙ n,
        ap (λ (q : Page). q.cow) keeps ∙ ground (arith, n),
        λ q x y. ground (arith, x, y),
        λ i. elim (Bool-cases (i == a)) [
          | inl e ↦ let e' : i ≡ a = ground arith in ground (arith, n, ap s.references e')
          | inr e ↦ ground (arith, e)
        ],
      )
]
