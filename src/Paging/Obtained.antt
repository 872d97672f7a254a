-- ===== src/Paging/Obtained.antt =====
-- `mem_getPage` of hexahedron/arch/i386/mem.c, with a table made where there is none.
use hexahedron.Base.{
  ℕ, suc, ◌+◌, ◌*◌, ◌/◌, ◌%◌, ◌^◌, ◌<◌, ◌≡◌, ◌≢◌, refl, arith, true, false, Option, some, ◌==◌,
  Bool-cases, inl, inr, ap, ◌∙◌,
}
use hexahedron.Base.Count.{count-lt}
use hexahedron.Base.Outcome.{done, and_then}
use hexahedron.Bitmap.{Words}
use hexahedron.Pmm.Invariant.{taken}
use hexahedron.Pmm.Single.{allocated}
use hexahedron.Paging.{PagePtr, Vmm, directory, page_size}
use hexahedron.Paging.Tables.{Remap, remap_phys, get_page, table_entry, create_table}
use hexahedron.Paging.Walk.{Grows, slot, HasRoom, Same, pde_at, place, IsValid, found, entered}
use hexahedron.Paging.Creation.{
  after, after-IsValid, here, created, same_slot, spare, one_less, grown,
}

missing :
    (remap : Remap) {dir : ℕ} (s : Vmm) (d : Option ℕ) (v flags : ℕ)
    → directory d s ≡ dir
    → v < 2 ^ 20
    → flags ≢ 0
    → (pde_at dir s v).present ≡ false
    → let pde : PagePtr = record { table = dir; index = v / 1024 } in
      get_page remap d (v * page_size) flags s
      ≡ and_then (create_table remap pde s) (λ _. table_entry remap pde (v * page_size))
unfolding get_page
missing remap s d v flags e l nz p =
    let a : v * 4096 / 2 ^ 22 % 1024 ≡ v / 1024 = omega arith in
    let z : v * 4096 % 4096 ≡ 0 = omega arith in
    let y : (flags == 0) ≡ false = ground arith in rw (e, z, a, p, y) refl

module _ (words : Words) (fuel : ℕ) where
  -- `mem_getPage` gives the entry of page `v`, with a table made for it where there is none.
  pub got :
      {dir : ℕ} {s : Vmm} (d : Option ℕ) (v flags n : ℕ)
      → IsValid dir s
      → directory d s ≡ dir
      → v < 2 ^ 20
      → flags ≢ 0
      → HasRoom (suc n) s
      → (t : Vmm) × (get_page (remap_phys words (suc fuel)) d (v * page_size) flags s
          ≡ done (some (place dir t v)) t)
        × IsValid dir t
        × ((pde_at dir t v).present ≡ true)
        × ((g : ℕ) → g < 2 ^ 20 → slot dir t g ≡ slot dir s g)
        × Same s t
        × HasRoom n t
        × Grows s t
  got {dir} {s} d v flags n w e l nz room = elim (Bool-cases (pde_at dir s v).present) [
    | inl p ↦
        (s, found words fuel d v flags w e l p, w, p, λ g _. refl, refl, spare n room, λ g x. x)
    | inr p ↦
        let (f, less, free) = count-lt (taken s.pmm) room.bound (omega (arith, room.counted)) in
        let (r, called, least, clear, valid) =
          allocated f w.pmm (omega (arith, room.searched)) free in
        let c' : (r + 1) * 4096 < s.cache_size = omega (arith, room.in_cache) in
        let t = after {dir = dir} {s = s} r (v / 1024) w clear valid c' p in
        let ok = after-IsValid {dir = dir} {s = s} r (v / 1024) w clear valid c' p in
        let here' = here {dir = dir} {s = s} r (v / 1024) w clear valid c' p in
        let a : v * 4096 / 2 ^ 22 % 1024 ≡ v / 1024 = omega arith in
        let pde : PagePtr = record { table = dir; index = v / 1024 } in
        let made = created words fuel s r pde w.cached c' called in
        let remap = remap_phys words (suc fuel) in
        (
          t,
          missing remap s d v flags e l nz p
              ∙ ap (λ o. and_then o (λ _. table_entry remap pde (v * page_size))) made
              ∙ rw a at (entered words fuel {s = t} v ok l here'.0),
          ok,
          here'.0,
          λ g h. same_slot {dir = dir} {s = s} r (v / 1024) w clear valid c' p g h,
          refl,
          one_less n r w clear room (omega arith),
          grown r w,
        )
  ]
