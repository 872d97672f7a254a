-- ===== src/Vfs/Absolute.antt =====
-- `vfs_canonicalizePath` on paths that are in the form which it returns, and the bytes that it writes
-- behind an allocation.
use hexahedron.Base.{
  ℕ, ◌+◌, ◌^◌, ◌<◌, ◌≤◌, ◌≡◌, refl, ap, ◌∙◌, sym, ◌≢◌, true, false, some, List, [], ◌∷◌, ◌++◌,
  arith, ◌==◌, if◌then◌else◌, All, All-append, length, length-append, append_assoc, append-nil,
  Bool-cases, inl, inr,
}
use hexahedron.Hashmap.{same_key}
use hexahedron.Vfs.{Name}
use hexahedron.Vfs.Pieces.{pieces, IsPlain}
use hexahedron.Vfs.Tokens.{IsPlain-IsText, IsPlain-IsBytes}
use hexahedron.Vfs.Loops.{IsPath, pieces-last, pieces-more}
use hexahedron.Vfs.Canonical.{
  dot_dot, dot, Written, sprintf_to, last_byte, first_byte, combined, canonicalize_path,
}
use hexahedron.Vfs.Resolve.{
  joined, resolve, reverse, is_ordinary, any_ordinary, canonicalize_path-resolve,
}

-- A name has bytes other than NUL and '/', one at least.
abbrev pub IsName : Name → Type 0
IsName p = (first_byte p ≢ 0) × IsPlain p

abbrev pub Names : List Name → Type 0
Names = All IsName

-- The names of a path that is put together from names are these.
pub pieces-joined : (ps : List Name) → Names ps → pieces (joined ps) ≡ ps
unfolding joined pieces
pieces-joined [] h = refl
pieces-joined ([] ∷ ps) ((hp, _), h) = absurd (hp refl)
pieces-joined ((c ∷ p) ∷ []) ((hc, hp), h) = ap pieces (append-nil (c ∷ p)) ∙ pieces-last c p hp
pieces-joined ((c ∷ p) ∷ q ∷ ps) ((hc, hp), h) =
    pieces-more c p (q ++ joined ps) hp ∙ ap (λ t. (c ∷ p) ∷ t) (pieces-joined (q ∷ ps) h)

-- the names are kept by the stack
abbrev pub Ordinary : List Name → Type 0
Ordinary = All (λ p. is_ordinary p ≡ true)

resolve-Ordinary :
    (ps stack : List Name) → Ordinary ps → reverse (resolve stack ps) ≡ reverse stack ++ ps
unfolding resolve reverse is_ordinary
resolve-Ordinary [] stack h = sym (append-nil (reverse stack))
resolve-Ordinary (p ∷ ps) stack (hp, h) =
    let up : same_key p dot_dot ≡ false = ground arith in
    let same : same_key p dot ≡ false = ground arith in
    rw (up, same) (resolve-Ordinary ps (p ∷ stack) h ∙ append_assoc (reverse stack) (p ∷ []) ps)

pub joined-IsPath : (ps : List Name) → Names ps → IsPath (joined ps)
unfolding joined
joined-IsPath [] h = (tt, tt)
joined-IsPath (p ∷ ps) ((_, hp), h) =
    let (text, bytes) = joined-IsPath ps h in
    (
      ((λ e. omega arith), All-append _ p (joined ps) (IsPlain-IsText p hp) text),
      (omega arith, All-append _ p (joined ps) (IsPlain-IsBytes p hp) bytes),
    )

-- Let one name at least be put together to a path, each behind a slash, and none be ".." or "."; let
-- the path be below 2 GiB, address 0 hold a NUL byte and the fuel be above the path's length. Then
-- `vfs_canonicalizePath` returns the path as it is, whatever the working directory, and writes no
-- byte behind an allocation.
pub canonicalize_path-joined :
    (fuel : ℕ) (cwd : List ℕ) (p : Name) (ps : List Name)
    → Names (p ∷ ps)
    → Ordinary (p ∷ ps)
    → length (joined (p ∷ ps)) < 2 ^ 31
    → length (joined (p ∷ ps)) < fuel
    → canonicalize_path true fuel cwd (joined (p ∷ ps))
      ≡ some (record { text = joined (p ∷ ps); overrun = 0 })
canonicalize_path-joined fuel cwd p ps h ho b f =
    let path : Written = record { text = joined (p ∷ ps); overrun = 0 } in
    let absolute : combined cwd (joined (p ∷ ps)) ≡ some path = unfold combined joined in refl in
    let left : any_ordinary (p ∷ ps) ≡ true = unfold any_ordinary in rw ho.0 refl in
    let kept : reverse (resolve [] (p ∷ ps)) ≡ p ∷ ps =
      resolve-Ordinary (p ∷ ps) [] ho ∙ (unfold reverse in refl) in
    canonicalize_path-resolve fuel cwd (joined (p ∷ ps)) path absolute (joined-IsPath (p ∷ ps) h) b
      f
    ∙ rw (pieces-joined (p ∷ ps) h, left, kept) refl

combined-overrun :
    (cwd addition : List ℕ) (c : ℕ)
    → last_byte cwd ≡ some c
    → (path : Written) × (combined cwd addition ≡ some path)
      × (path.overrun ≡ (if first_byte addition == b'/' then 0 else 1))
      × (IsPath cwd → IsPath addition → IsPath path.text)
      × (length path.text ≤ length cwd + length addition + 1)
unfolding combined sprintf_to
combined-overrun cwd addition c e = elim (Bool-cases (first_byte addition == b'/')) [
  | inl absolute ↦ (
    record { text = addition; overrun = 0 },
    rw absolute refl,
    rw absolute refl,
    (λ _ h. h),
    omega arith,
  )
  | inr relative ↦ elim (Bool-cases (c == b'/')) [
    | inl ends ↦
        let l = length-append cwd addition in
        (
          record { text = cwd ++ addition; overrun = 1 },
          rw (relative, e, ends)
              (ap (λ n. some (record { text = cwd ++ addition; overrun = n })) (omega (arith, l))),
          rw relative refl,
          (λ h h'. (All-append _ cwd addition h.0 h'.0, All-append _ cwd addition h.1 h'.1)),
          omega (arith, l),
        )
    | inr apart ↦
        let l = length-append cwd (b'/' ∷ addition) in
        (
          record { text = cwd ++ (b'/' ∷ addition); overrun = 1 },
          rw (relative, e, apart)
              (ap (λ n. some (record { text = cwd ++ (b'/' ∷ addition); overrun = n }))
                (omega (arith, l))),
          rw relative refl,
          (λ h h'. (
            All-append _ cwd (b'/' ∷ addition) h.0 ((λ e'. omega arith), h'.0),
            All-append _ cwd (b'/' ∷ addition) h.1 (omega arith, h'.1),
          )),
          omega (arith, l),
        )
  ]
]

-- Let the working directory not be empty, it and the addition be NUL-free bytes and below 2 GiB
-- together; let address 0 hold a NUL byte and the fuel be above their length and one. Then
-- `vfs_canonicalizePath` returns a path; it writes no byte behind its allocations if the addition
-- starts with a slash, and one byte behind the first of them otherwise.
pub canonicalize_path-overrun :
    (fuel : ℕ) (cwd addition : List ℕ) (c : ℕ)
    → last_byte cwd ≡ some c
    → IsPath cwd
    → IsPath addition
    → length cwd + length addition + 1 < 2 ^ 31
    → length cwd + length addition + 1 < fuel
    → (w : Written) × (canonicalize_path true fuel cwd addition ≡ some w)
      × (w.overrun ≡ (if first_byte addition == b'/' then 0 else 1))
canonicalize_path-overrun fuel cwd addition c e h h' b f =
    let (path, made, over, is_path, size) = combined-overrun cwd addition c e in
    (
      _,
      canonicalize_path-resolve fuel cwd addition path made (is_path h h') (omega arith)
          (omega arith),
      over,
    )
