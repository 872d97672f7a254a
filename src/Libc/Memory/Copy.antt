-- ===== src/Libc/Memory/Copy.antt =====
-- `memcpy`, `memmove` and `memset` against the copy of a block byte by byte.
use hexahedron.Base.{
  ℕ, zero, suc, ◌+◌, ◌-◌, ◌*◌, ◌/◌, ◌%◌, ◌≤◌, ◌<◌, ◌≡◌, ◌∙◌, ◌⊎◌, inl, inr, ◌&&◌, arith, ltb, leb,
  if◌then◌else◌, Bool-cases,
}
use mathlib.Core.Path.{fun_ext}
use hexahedron.Libc.Memory.{
  Memory, store, copy_word, copy_words, memcpy, move_forward, move_backward, memmove, set_bytes,
  memset,
}

-- `m` with the `n` bytes from `s` on at `d`, all read before any is written
abbrev pub copied : ℕ → ℕ → ℕ → Memory → Memory
copied d s n m a = if leb d a && ltb a (d + n) then m (s + (a - d)) else m a

-- The blocks do not overlap.
abbrev pub Apart : ℕ → ℕ → ℕ → Type 0
Apart d s n = (d + n ≤ s) ⊎ (s + n ≤ d)

copy_words-copied :
    (k r d s : ℕ) (m : Memory)
    → Apart d s (r * k)
    → (a : ℕ) → copy_words k r d s m a ≡ copied d s (r * k) m a
unfolding copy_words
copy_words-copied k zero d s m h a = ground arith
copy_words-copied k (suc r) d s m h a =
    ground (arith, copy_words-copied k r (d + k) (s + k) (copy_word k d s m) (omega arith) a)

-- A block in two parts.
copied-copied :
    (n n' d s : ℕ) (m : Memory)
    → Apart d s (n + n')
    → (a : ℕ) → copied (d + n) (s + n) n' (copied d s n m) a ≡ copied d s (n + n') m a
copied-copied n n' d s m h a = ground arith

-- `memcpy` of blocks that do not overlap copies the block and changes no other byte, whatever the
-- size leaves over for the loops of 4 and of single bytes.
pub memcpy-copied :
    (d s n : ℕ) (m : Memory) → Apart d s n → (a : ℕ) → memcpy d s n m a ≡ copied d s n m a
unfolding memcpy
memcpy-copied d s n m h a =
    let big = n / 8 * 8 in
    let mid = n % 8 / 4 * 4 in
    let first : copy_words 8 (n / 8) d s m ≡ copied d s big m =
      fun_ext (copy_words-copied 8 (n / 8) d s m (omega arith)) in
    let second : copy_words 4 (n % 8 / 4) (d + big) (s + big) (copied d s big m)
        ≡ copied d s (big + mid) m =
      fun_ext λ b.
        copy_words-copied 4 (n % 8 / 4) (d + big) (s + big) (copied d s big m) (omega arith) b
        ∙ copied-copied big mid d s m (omega arith) b in
    let one : n % 4 * 1 ≡ n % 4 = omega arith in
    let d' : d + big + mid ≡ d + (big + mid) = omega arith in
    let s' : s + big + mid ≡ s + (big + mid) = omega arith in
    let all' : big + mid + n % 4 ≡ n = omega arith in
    rw (first, second)
      (copy_words-copied 1 (n % 4) (d + big + mid) (s + big + mid) (copied d s (big + mid) m)
          (omega arith) a
        ∙ rw (one, d', s') (copied-copied (big + mid) (n % 4) d s m (omega arith) a ∙ rw all'))

-- The first loop is right where the destination lies below the source.
move_forward-copied :
    (r i d s : ℕ) (m : Memory)
    → d < s
    → (a : ℕ) → move_forward r i d s m a ≡ copied (d + i) (s + i) r m a
unfolding move_forward
move_forward-copied zero i d s m h a = ground arith
move_forward-copied (suc r) i d s m h a =
    ground (arith, move_forward-copied r (i + 1) d s (store m (d + i) (m (s + i))) h a)

-- The second loop is right where it does not.
move_backward-copied :
    (n d s : ℕ) (m : Memory) → s ≤ d → (a : ℕ) → move_backward n d s m a ≡ copied d s n m a
unfolding move_backward
move_backward-copied zero d s m h a = ground arith
move_backward-copied (suc n) d s m h a =
    ground (arith, move_backward-copied n d s (store m (d + n) (m (s + n))) h a)

-- `memmove` copies the block as it was before the call, also where source and destination overlap,
-- and changes no other byte.
pub memmove-copied : (d s n : ℕ) (m : Memory) (a : ℕ) → memmove d s n m a ≡ copied d s n m a
unfolding memmove
memmove-copied d s n m a = elim (Bool-cases (ltb d s)) [
  | inl below ↦
      let zd : d + 0 ≡ d = omega arith in
      let zs : s + 0 ≡ s = omega arith in
      rw below (move_forward-copied n 0 d s m (ground arith) a ∙ rw (zd, zs))
  | inr above ↦ rw above (move_backward-copied n d s m (ground arith) a)
]

set_bytes_lem :
    (r i d value : ℕ) (m : Memory) (a : ℕ)
    → set_bytes r i d value m a ≡ (if leb (d + i) a && ltb a (d + i + r) then value % 256 else m a)
unfolding set_bytes
set_bytes_lem zero i d value m a = ground arith
set_bytes_lem (suc r) i d value m a =
    ground (arith, set_bytes_lem r (i + 1) d value (store m (d + i) (value % 256)) a)

-- `memset` stores the low byte of the value in every byte of the block and changes no other byte.
pub memset_lem :
    (d value size : ℕ) (m : Memory) (a : ℕ)
    → memset d value size m a ≡ (if leb d a && ltb a (d + size) then value % 256 else m a)
unfolding memset
memset_lem d value size m a = ground (arith, set_bytes_lem size 0 d value m a)
