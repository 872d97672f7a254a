-- ===== src/Paging/Writes.antt =====
-- What the directory maps after an entry of a table has been written, in hexahedron/arch/i386/mem.c.
use hexahedron.Base.{
  ℕ, ◌/◌, ◌%◌, ◌^◌, ◌<◌, ◌≡◌, arith, true, ◌==◌, if◌then◌else◌, Bool-cases, inl, inr, ap, sym, ◌∙◌,
}
use mathlib.Core.Path.{subst}
use hexahedron.Paging.{Page, PagePtr, Vmm, read_page, write_page}
use hexahedron.Paging.Walk.{slot, HasRoom, pde_at, place, HasTable, IsValid}

-- The entry of page `v` is written.
module _ {dir : ℕ} {s : Vmm} (v : ℕ) (page : Page) (w : IsValid dir s) (l : v < 2 ^ 20)
    (p : (pde_at dir s v).present ≡ true) where
  abbrev pub written : Vmm
  written = write_page (place dir s v) page s

  table : HasTable dir s (pde_at dir s v).address
  table = w.tables (v / 1024) (omega arith) p

  pub same_directory : (j : ℕ) → written.memory dir j ≡ s.memory dir j
  same_directory j = ground (arith, table.other)

  pub written-IsValid : IsValid dir written
  written-IsValid = record {
    pmm = w.pmm;
    cached = w.cached;
    directory_taken = w.directory_taken;
    tables = λ j h q.
        let t = w.tables j h (rw (same_directory j) at q) in
        rw (same_directory j)
          (record { in_use = t.in_use; in_cache = t.in_cache; other = t.other });
    apart = λ i j hi hj pi pj e.
        w.apart i j hi hj (rw (same_directory i) at pi) (rw (same_directory j) at pj)
          (rw (same_directory i, same_directory j) at e);
  }

  pub slot-written :
      (g : ℕ) → g < 2 ^ 20 → slot dir written g ≡ (if g == v then page else slot dir s g)
  slot-written g h = elim (Bool-cases (g == v)) [
    | inl y ↦ let e : g ≡ v = ground arith in ground (arith, e, same_directory (g / 1024), p)
    | inr n ↦ elim (Bool-cases (pde_at dir s g).present) [
      | inr q ↦ ground (arith, same_directory (g / 1024), q)
      | inl q ↦
          let a = w.apart (g / 1024) (v / 1024) (omega arith) (omega arith) q p in
          ground (arith, same_directory (g / 1024), q, a)
    ]
  ]

  pub still_present : (pde_at dir written v).present ≡ true
  still_present = rw (same_directory (v / 1024)) p

  pub same_place : place dir written v ≡ place dir s v
  same_place =
      ap (λ (q : Page). record { table = q.address; index = v % 1024 }) (same_directory (v / 1024))

  pub read_written : read_page (place dir s v) written ≡ page
  read_written = ground arith

-- The entry of page `v` is written twice.
module _ {dir : ℕ} {t : Vmm} (v : ℕ) (one two : Page → Page) (w : IsValid dir t) (l : v < 2 ^ 20)
    (h : (pde_at dir t v).present ≡ true) where
  abbrev pub middle : Vmm
  middle = write_page (place dir t v) (one (read_page (place dir t v) t)) t

  abbrev pub end : Vmm
  end = write_page (place dir t v) (two (read_page (place dir t v) middle)) middle

  abbrev pub new : Page
  new = two (one (read_page (place dir t v) t))

  abbrev Maps : Vmm → Type 0
  Maps u =
      IsValid dir u × ((g : ℕ) → g < 2 ^ 20 → slot dir u g ≡ (if g == v then new else slot dir t g))

  middle-IsValid : IsValid dir middle
  middle-IsValid = written-IsValid {s = t} v (one (read_page (place dir t v) t)) w l h

  pub end_lem :
      IsValid dir end
      × ((g : ℕ) → g < 2 ^ 20 → slot dir end g ≡ (if g == v then new else slot dir t g))
  end_lem =
      let old = one (read_page (place dir t v) t) in
      let same = same_place {s = t} v old w l h in
      let q = still_present {s = t} v old w l h in
      let r = read_written {s = t} v old w l h in
      subst (λ (y : Page). Maps (write_page (place dir t v) (two y) middle)) (sym r)
        (subst (λ (x : PagePtr). Maps (write_page x new middle)) same
          (
            written-IsValid {s = middle} v new middle-IsValid l q,
            λ g hg.
                let first = slot-written {s = t} v old w l h g hg in
                let second = slot-written {s = middle} v new middle-IsValid l q g hg in
                elim (Bool-cases (g == v)) [
                  | inl y ↦ second ∙ ground (arith, y)
                  | inr y ↦ second ∙ ground (arith, y, first)
                ],
          ))

-- What the tables hold does not matter to the frames that are free.
pub moved_room :
    {n : ℕ} {s : Vmm} {m : ℕ → ℕ → Page} → HasRoom n s → HasRoom n (record s { memory = m })
moved_room room = record {
  bound = room.bound;
  searched = room.searched;
  in_cache = room.in_cache;
  counted = room.counted;
}
