-- ===== src/Paging/Growth.antt =====
-- `mem_sbrk` of hexahedron/arch/i386/mem.c where it grows the heap.
use hexahedron.Base.{
  ℕ, suc, ◌+◌, ◌*◌, ◌/◌, ◌%◌, ◌^◌, ◌<◌, ◌≤◌, ◌≡◌, ◌≢◌, refl, arith, false, Option, none, some, ◌==◌,
  if◌then◌else◌, Bool-cases, inl, inr, ap, sym, ◌∙◌, ◌⊎◌,
}
use mathlib.Core.Path.{subst}
use hexahedron.Base.Outcome.{done}
use hexahedron.Pmm.Invariant.{taken}
use hexahedron.Paging.{Page, Vmm, directory, page_size}
use hexahedron.Paging.Tables.{Remap, get_page}
use hexahedron.Paging.Walk.{Grows, slot, mapped, pde_at, translate}
use hexahedron.Paging.Heap.{IsFresh}

-- an entry that maps nothing and has no frame
pub record IsUnused (page : Page) : Type 0 where
  pub absent : page.present ≡ false
  pub no_frame : page.address ≡ 0

pub no_table :
    (remap : Remap) {dir : ℕ} (s : Vmm) (d : Option ℕ) (v : ℕ)
    → directory d s ≡ dir
    → v < 2 ^ 20
    → (pde_at dir s v).present ≡ false
    → get_page remap d (v * page_size) 0 s ≡ done none s
unfolding get_page
no_table remap s d v e l p =
    let a : v * 4096 / 2 ^ 22 % 1024 ≡ v / 1024 = omega arith in
    let z : v * 4096 % 4096 ≡ 0 = omega arith in rw (e, z, a, p) refl

-- The pages from `a` on, `n` of them, have frames of their own that were free, and no other page is mapped
-- otherwise than before.
pub record Grown (dir a n : ℕ) (s t : Vmm) : Type 0 where
  pub inside :
      (g : ℕ)
      → a ≤ g
      → g < a + n
      → (page : Page) × (translate dir t g ≡ some page) × IsFresh s t page
  pub distinct :
      (g h : ℕ) (p q : Page)
      → a ≤ g
      → g < a + n
      → a ≤ h
      → h < a + n
      → translate dir t g ≡ some p
      → translate dir t h ≡ some q
      → p.address ≡ q.address
      → g ≡ h
  pub outside : (g : ℕ) → g < 2 ^ 20 → (g < a) ⊎ (a + n ≤ g) → translate dir t g ≡ translate dir s g

IsFresh-later : {s t u : Vmm} (page : Page) → Grows t u → IsFresh s t page → IsFresh s u page
IsFresh-later page grows f = record {
  present = f.present;
  kernel = f.kernel;
  writable = f.writable;
  was_free = f.was_free;
  in_use = grows page.address f.in_use;
}

IsFresh-before : {s t u : Vmm} (page : Page) → Grows s t → IsFresh t u page → IsFresh s u page
IsFresh-before {s} page grows f = record {
  present = f.present;
  kernel = f.kernel;
  writable = f.writable;
  was_free = elim (Bool-cases (taken s.pmm page.address)) [
    | inl y ↦ let z = grows page.address y in let w = f.was_free in cc
    | inr n ↦ n
  ];
  in_use = f.in_use;
}

module _ {dir : ℕ} {s t u : Vmm} (a n : ℕ) (page : Page) (l : a < 2 ^ 20) (fresh : IsFresh s t page)
    (maps : (g : ℕ) → g < 2 ^ 20 → slot dir t g ≡ (if g == a then page else slot dir s g))
    (before : Grows s t) (later : Grows t u) (rest : Grown dir (a + 1) n t u) where
  first : translate dir u a ≡ some page
  first =
      let p = fresh.present in
      rest.outside a l (inl (omega arith)) ∙ ap mapped (maps a l) ∙ ground (arith, p)

  -- The frame of the first page is in use when those of the others are taken.
  not_first :
      (h : ℕ) (q : Page)
      → a + 1 ≤ h
      → h < a + 1 + n
      → translate dir u h ≡ some q
      → page.address ≢ q.address
  not_first h q lo hi e same =
      let (q', e', f) = rest.inside h lo hi in
      let x = f.was_free in
      let y = fresh.in_use in
      let j : q' ≡ q = ground arith in
      let b = ap (λ (p : Page). taken t.pmm p.address) j in let c = ap (taken t.pmm) same in cc

  pub Grown-cons : Grown dir a (suc n) s u
  Grown-cons = record {
    inside = λ g lo hi. elim (Bool-cases (a == g)) [
      | inl y ↦
          subst (λ (x : ℕ). (p : Page) × (translate dir u x ≡ some p) × IsFresh s u p)
            (ground arith) (page, first, IsFresh-later page later fresh)
      | inr m ↦
          let (q, e, f) = rest.inside g (ground arith) (omega arith) in
          (q, e, IsFresh-before q before f)
    ];
    distinct = λ g h p q lo hi lo' hi' e e' same.
        let two = rest.distinct g h p q in
        elim (Bool-cases (a == g)) [
          | inl y ↦ elim (Bool-cases (a == h)) [
            | inl z ↦ ground arith
            | inr z ↦
                let j : a ≡ g = ground arith in
                let e0 = ap (translate dir u) j in
                let f = first in
                let k : page ≡ p = ground arith in
                absurd (
                  not_first h q (ground arith) (omega arith) e'
                    (ap (λ (x : Page). x.address) k ∙ same))
          ]
          | inr y ↦ elim (Bool-cases (a == h)) [
            | inl z ↦
                let j : a ≡ h = ground arith in
                let e0 = ap (translate dir u) j in
                let f = first in
                let k : page ≡ q = ground arith in
                absurd (
                  not_first g p (ground arith) (omega arith) e
                    (ap (λ (x : Page). x.address) k ∙ sym same))
            | inr z ↦ two (ground arith) (omega arith) (ground arith) (omega arith) e e' same
          ]
        ];
    outside = λ g hg o.
        let m : (g == a) ≡ false = ground (arith, o) in
        rest.outside g hg (ground (arith, o)) ∙ ap mapped (maps g hg ∙ ground (arith, m));
  }
