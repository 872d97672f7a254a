-- ===== src/Paging/Creation.antt =====
-- `mem_getPage` of hexahedron/arch/i386/mem.c where the directory has no table for the address.
use hexahedron.Base.{
  ℕ, suc, ◌+◌, ◌*◌, ◌/◌, ◌%◌, ◌^◌, ◌<◌, ◌≤◌, ◌≡◌, ◌≢◌, refl, arith, true, false, ◌||◌, ◌==◌,
  Bool-cases, inl, inr, ap, sym, ◌∙◌,
}
use hexahedron.Base.Count.{count_add}
use hexahedron.Base.Outcome.{done}
use hexahedron.Bitmap.{Words}
use hexahedron.Bitmap.Frames.{is_taken-set}
use hexahedron.Pmm
use hexahedron.Pmm.{Pmm}
use hexahedron.Pmm.Invariant.{taken}
use hexahedron.Pmm.Single.{with_frame}
use hexahedron.Paging.{
  Page, PagePtr, Vmm, read_page, write_page, page_size, blank, clear_table, set_frame,
}
use hexahedron.Paging.Tables.{remap_phys, create_table}
use hexahedron.Paging.Cached.{remapped, unmapped}
use hexahedron.Paging.Walk.{
  Grows, slot, slot-blank, slot_absent, HasRoom, pde_at, HasTable, IsValid,
}

-- the state once frame `r` has been handed out and cleared
abbrev pub with_blank : ℕ → Vmm → Vmm
with_blank r s = clear_table r (record s { pmm = with_frame r s.pmm })

abbrev pub with_table : ℕ → PagePtr → Vmm → Vmm
with_table r p s =
    write_page p
      (set_frame
        (record (read_page p (with_blank r s)) { present = true; rw_bit = true; usermode = true })
        (r * page_size))
      (with_blank r s)

module _ (words : Words) (fuel : ℕ) where
  pub created :
      (s : Vmm) (r : ℕ) (p : PagePtr)
      → s.cache_size ≤ 2 ^ 28
      → (r + 1) * page_size < s.cache_size
      → Pmm.allocate_block s.pmm ≡ done (r * page_size) (with_frame r s.pmm)
      → create_table (remap_phys words (suc fuel)) p s ≡ done tt (with_table r p s)
  unfolding create_table
  created s r p c l a =
      let q : r * 4096 / 4096 ≡ r = omega arith in
      let m = remapped {s = record s { pmm = with_frame r s.pmm }} r c l words fuel in
      let u = unmapped {s = with_table r p s} r c l in let v = rw q at u in rw (a, q, m, v) refl

-- The state after a table has been put in the free frame `r`, for entry `i` of the directory.
module _ {dir : ℕ} {s : Vmm} (r i : ℕ) (w : IsValid dir s) (free : taken s.pmm r ≡ false)
    (valid : Pmm.Invariant.IsValid (with_frame r s.pmm)) (l : (r + 1) * page_size < s.cache_size)
    (absent : (s.memory dir i).present ≡ false) where
  abbrev pub after : Vmm
  after = with_table r (record { table = dir; index = i }) s

  apart_from : r ≢ dir
  apart_from e = let t = w.directory_taken in let f = rw e at free in cc

  pub here : ((after.memory dir i).present ≡ true) × ((after.memory dir i).address ≡ r)
  here = let q : r * 4096 / 4096 % 2 ^ 20 ≡ r = omega (arith, w.cached) in ground (arith, q)

  elsewhere : (j : ℕ) → j ≢ i → after.memory dir j ≡ s.memory dir j
  elsewhere j n = ground (arith, apart_from)

  fresh : (j : ℕ) → after.memory r j ≡ blank
  fresh j = ground (arith, apart_from)

  others : (f j : ℕ) → f ≢ dir → f ≢ r → after.memory f j ≡ s.memory f j
  others f j n m = ground arith

  now_taken : (g : ℕ) → taken after.pmm g ≡ ((r == g) || taken s.pmm g)
  now_taken = is_taken-set s.pmm.frames w.pmm.words r

  table_elsewhere :
      (j : ℕ)
      → j < 1024
      → (s.memory dir j).present ≡ true
      → HasTable dir after (s.memory dir j).address × ((s.memory dir j).address ≢ r)
  table_elsewhere j h p =
      let t = w.tables j h p in
      let n : (s.memory dir j).address ≢ r = λ e. let u = rw e at t.in_use in cc (u, free) in
      (
        record {
          in_use = ground (arith, now_taken (s.memory dir j).address, t.in_use);
          in_cache = t.in_cache;
          other = t.other;
        },
        n,
      )

  present_elsewhere :
      (j : ℕ) → j ≢ i → (after.memory dir j).present ≡ true → (s.memory dir j).present ≡ true
  present_elsewhere j n p = rw (elsewhere j n) at p

  pub after-IsValid : IsValid dir after
  after-IsValid = record {
    pmm = valid;
    cached = w.cached;
    directory_taken = ground (arith, now_taken dir, w.directory_taken);
    tables = λ j h p. elim (Bool-cases (j == i)) [
      | inl y ↦ let e : j ≡ i = ground (arith) in rw (e, here.1) new_table
      | inr n ↦
          let m : j ≢ i = ground (arith) in
          rw (elsewhere j m) (table_elsewhere j h (present_elsewhere j m p)).0
    ];
    apart = λ j k hj hk pj pk e. elim (Bool-cases (j == i)) [
      | inl y ↦ elim (Bool-cases (k == i)) [
        | inl z ↦ ground arith
        | inr z ↦
            let a : j ≡ i = ground arith in
            let b : k ≢ i = ground arith in
            let old = (table_elsewhere k hk (present_elsewhere k b pk)).1 in
            let e' = rw (a, here.1, elsewhere k b) at e in absurd (old (sym e'))
      ]
      | inr y ↦ elim (Bool-cases (k == i)) [
        | inl z ↦
            let a : k ≡ i = ground arith in
            let b : j ≢ i = ground arith in
            let old = (table_elsewhere j hj (present_elsewhere j b pj)).1 in
            let e' = rw (a, here.1, elsewhere j b) at e in absurd (old e')
        | inr z ↦
            let a : j ≢ i = ground arith in
            let b : k ≢ i = ground arith in
            let e' = rw (elsewhere j a, elsewhere k b) at e in
            w.apart j k hj hk (present_elsewhere j a pj) (present_elsewhere k b pk) e'
      ]
    ];
  }
    where
      new_table : HasTable dir after r
      new_table = record { in_use = ground (arith, now_taken r); in_cache = l; other = apart_from }

  -- No page has another entry than before.
  pub same_slot : (g : ℕ) → g < 2 ^ 20 → slot dir after g ≡ slot dir s g
  same_slot g h = elim (Bool-cases (g / 1024 == i)) [
    | inl y ↦
        let e : g / 1024 ≡ i = ground arith in
        let a : (pde_at dir after g).address ≡ r =
          ap (λ (j : ℕ). (after.memory dir j).address) e ∙ here.1 in
        slot-blank dir after g (ap (λ (f : ℕ). after.memory f (g % 1024)) a ∙ fresh (g % 1024))
        ∙ sym (slot_absent dir s g (ap (λ (j : ℕ). (s.memory dir j).present) e ∙ absent))
    | inr n ↦
        let m : g / 1024 ≢ i = ground arith in
        elim (Bool-cases (pde_at dir s g).present) [
          | inl p ↦
              let t = w.tables (g / 1024) (omega arith) p in
              let d = (table_elsewhere (g / 1024) (omega arith) p).1 in
              rw (elsewhere (g / 1024) m, others _ (g % 1024) t.other d) refl
          | inr p ↦ rw (elsewhere (g / 1024) m, p) refl
        ]
  ]

pub spare : {s : Vmm} (n : ℕ) → HasRoom (suc n) s → HasRoom n s
spare n room = record {
  bound = room.bound;
  searched = room.searched;
  in_cache = room.in_cache;
  counted = omega (arith, room.counted);
}

pub grown :
    {dir : ℕ} {s : Vmm} (r : ℕ) → IsValid dir s → Grows s (record s { pmm = with_frame r s.pmm })
grown {s = s} r w g e = ground (arith, is_taken-set s.pmm.frames w.pmm.words r g)

pub one_less :
    {dir : ℕ} {s : Vmm} (n r : ℕ) {m : ℕ → ℕ → Page}
    → IsValid dir s
    → taken s.pmm r ≡ false
    → (room : HasRoom (suc n) s) → r < room.bound
    → HasRoom n (record s { pmm = with_frame r s.pmm; memory = m })
one_less {s = s} n r w free room l = record {
  bound = room.bound;
  searched = room.searched;
  in_cache = room.in_cache;
  counted = omega (
    arith,
    room.counted,
    count_add (taken s.pmm) (taken (with_frame r s.pmm)) r room.bound
        (is_taken-set s.pmm.frames w.pmm.words r) free l,
  );
}
