-- ===== src/Pmm/Release.antt =====
-- What `pmm_freeBlock` does to a block that is in use, and to one that is not.
use hexahedron.Base.{
  ℕ, ◌+◌, ◌-◌, ◌*◌, ◌/◌, ◌%◌, ◌^◌, ◌<◌, ◌≡◌, refl, Bool, true, false, not, ◌&&◌, ◌||◌, arith, ◌==◌,
  Bool-cases, inl, inr,
}
use hexahedron.Base.Count.{count-le, count-congr}
use hexahedron.Base.Outcome.{done}
use hexahedron.Bitmap.{u32}
use hexahedron.Bitmap.Frames.{is_taken-set, is_taken-clear}
use hexahedron.Pmm.{Pmm, block_size, allocate_block, free_block}
use hexahedron.Pmm.Invariant.{taken, IsValid, used-pos}
use hexahedron.Pmm.Single.{
  scanned, without_frame, without_frame-IsValid, freed, with_frame, allocated,
}

-- A block in use: its frame and no other becomes free, and bitmap and counters still agree.
pub free_block_lem :
    {s : Pmm} (f : ℕ)
    → IsValid s
    → f < s.max_blocks
    → taken s f ≡ true
    → (t : Pmm) × (free_block (f * block_size) s ≡ done tt t)
      × ((g : ℕ) → taken t g ≡ (not (f == g) && taken s g))
      × (s.used_blocks ≡ t.used_blocks + 1)
      × IsValid t
free_block_lem {s} f v l e =
    let after = is_taken-clear s.frames v.words f in
    let one =
      used-pos f (taken (without_frame f s)) v l (λ g. ground (arith, after g, e))
        (ground (arith, after f)) in
    (
      without_frame f s,
      freed f v l (omega (arith, one)),
      after,
      omega (arith, one),
      without_frame-IsValid f v l e,
    )

-- A block that `pmm_allocateBlock` has just returned can be freed, and then every frame and the
-- counter are as they were before.
pub free_block-allocate_block :
    {s : Pmm} (f : ℕ)
    → IsValid s
    → f < scanned s
    → taken s f ≡ false
    → (address : ℕ) × (t u : Pmm) × (allocate_block s ≡ done address t)
      × (free_block address t ≡ done tt u)
      × ((g : ℕ) → taken u g ≡ taken s g)
      × (u.used_blocks ≡ s.used_blocks)
free_block-allocate_block {s} f v l e =
    let (r, called, least, free, valid) = allocated f v l e in
    let set' = is_taken-set s.frames v.words r in
    let (u, back, after, used, _) =
      free_block_lem {s = with_frame r s} r valid (omega (arith, v.sized))
        (ground (arith, set' r)) in
    (
      r * block_size,
      with_frame r s,
      u,
      called,
      back,
      λ g.
          restored (r == g) (after g) (set' g)
            (λ same. let e' : r ≡ g = ground arith in rw e' at free),
      omega (arith, used),
    )
  where
    restored :
        {x y z : Bool} (b : Bool) → x ≡ (not b && y) → y ≡ (b || z) → (b ≡ true → z ≡ false) → x ≡ z
    restored b p q h = elim (Bool-cases b) [ inl t ↦ ground (arith, h t) | inr n ↦ ground arith ]

-- A second `pmm_freeBlock` of one block leaves every frame as it is and still counts down, so the
-- counters no longer agree with the bitmap.
pub free_block-miscounts :
    {s : Pmm} (f : ℕ)
    → IsValid s
    → f < s.max_blocks
    → taken s f ≡ false
    → (t : Pmm) × (free_block (f * block_size) s ≡ done tt t)
      × ((g : ℕ) → taken t g ≡ taken s g)
      × (¬ IsValid t)
unfolding free_block
free_block-miscounts {s} f v l e =
    let after = is_taken-clear s.frames v.words f in
    let same : (g : ℕ) → taken (without_frame f s) g ≡ taken s g = λ g. elim (Bool-cases (f == g)) [
      | inl y ↦ let e' : f ≡ g = ground arith in ground (arith, after g, rw e' at e)
      | inr n ↦ ground (arith, after g)
    ] in
    let used = count-le (taken s) s.max_blocks in
    let q : f * 4096 / 4096 ≡ f = omega arith in
    let z : f * 4096 % 4096 ≡ 0 = omega arith in
    (
      record (without_frame f s) { used_blocks = u32 (s.used_blocks + 2 ^ 32 - 1) },
      rw (q, z, v.unlocked) refl,
      same,
      λ bad. omega (
        arith,
        bad.counted,
        v.counted,
        v.small,
        used,
        count-congr (taken s) (taken (without_frame f s)) s.max_blocks (λ g _. same g),
      ),
    )
