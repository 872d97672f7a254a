-- ===== src/Vfs/Resolve.antt =====
-- `vfs_canonicalizePath` against the resolution of the components of a path on a stack.
use hexahedron.Base.{
  ℕ, ◌+◌, ◌-◌, ◌*◌, ◌%◌, ◌^◌, ◌<◌, ◌≤◌, ◌≡◌, refl, ap, ◌∙◌, sym, ◌≢◌, Bool, true, false, not, ◌&&◌,
  ◌||◌, some, List, [], ◌∷◌, ◌++◌, arith, ◌==◌, if◌then◌else◌, All, length, length-append,
  append_assoc, append-nil, Bool-cases, inl, inr,
}
use hexahedron.Libc.Strings.Compare.{IsText}
use hexahedron.Hashmap.{same_key}
use hexahedron.Vfs.{Name}
use hexahedron.Vfs.Pieces.{pieces, for_each, before}
use hexahedron.Vfs.Loops.{IsPath, for_tokens-pieces}
use hexahedron.Vfs.Canonical.{
  dot_dot, dot, Written, sprintf_to, first_byte, combined, popped, add_part, join_parts,
  canonicalize_path,
}

-- the names, each behind a slash
unfoldable pub joined : List Name → List ℕ
joined [] = []
joined (p ∷ ps) = b'/' ∷ (p ++ joined ps)

abbrev tail : List Name → List Name
tail [] = []
tail (p ∷ ps) = ps

-- The names that are left, the last first: ".." takes one back, "." does nothing.
unfoldable pub resolve : List Name → List Name → List Name
resolve stack [] = stack
resolve stack (p ∷ ps) =
    resolve (if same_key p dot_dot then tail stack else if same_key p dot then stack else p ∷ stack)
      ps

unfoldable pub reverse : List Name → List Name
reverse [] = []
reverse (p ∷ ps) = reverse ps ++ (p ∷ [])

-- whether a component is neither ".." nor "."
unfoldable pub is_ordinary : Name → Bool
is_ordinary p = not (same_key p dot_dot) && not (same_key p dot)

unfoldable pub any_ordinary : List Name → Bool
unfolding is_ordinary
any_ordinary [] = false
any_ordinary (p ∷ ps) = is_ordinary p || any_ordinary ps

-- the bytes of the ordinary components, with a slash each
unfoldable pub ordinary_size : List Name → ℕ
unfolding is_ordinary
ordinary_size [] = 0
ordinary_size (p ∷ ps) = if is_ordinary p then length p + 1 + ordinary_size ps else ordinary_size ps

popped-append : (xs : List Name) (p : Name) → popped (xs ++ (p ∷ [])) ≡ xs
unfolding popped
popped-append [] p = refl
popped-append (x ∷ []) p = refl
popped-append (x ∷ y ∷ xs) p = ap (λ t. x ∷ t) (popped-append (y ∷ xs) p)

popped-reverse : (stack : List Name) → popped (reverse stack) ≡ reverse (tail stack)
unfolding popped reverse
popped-reverse [] = refl
popped-reverse (p ∷ ps) = popped-append (reverse ps) p

-- A piece is not empty.
abbrev pub Filled : List Name → Type 0
Filled = All (λ p. first_byte p ≢ 0)

-- The loop keeps the stack of names, the first of them first.
loop-resolve :
    (ps stack : List Name) (n : ℕ)
    → Filled ps
    → n + ordinary_size ps < 2 ^ 32
    → for_each add_part ps (record { list = reverse stack; path_size = n })
      ≡ record { list = reverse (resolve stack ps); path_size = n + ordinary_size ps }
unfolding for_each add_part resolve ordinary_size is_ordinary reverse
loop-resolve [] stack n h b = ground arith
loop-resolve (p ∷ ps) stack n (hp, h) b = elim (Bool-cases (same_key p dot_dot)) [
  | inl up ↦
      let b' : n + ordinary_size ps < 2 ^ 32 = ground (arith, up) in
      rw (up, popped-reverse stack) (loop-resolve ps (tail stack) n h b')
  | inr not_up ↦ elim (Bool-cases (same_key p dot)) [
    | inl same ↦
        let b' : n + ordinary_size ps < 2 ^ 32 = ground (arith, not_up, same) in
        rw (not_up, same) (loop-resolve ps stack n h b')
    | inr other ↦
        let filled : (first_byte p == 0) ≡ false = ground arith in
        let b' : n + length p + 1 + ordinary_size ps < 2 ^ 32 = ground (arith, not_up, other) in
        let small : (n + length p + 1) % 2 ^ 32 ≡ n + length p + 1 = omega arith in
        let total : n + length p + 1 + ordinary_size ps ≡ n + (length p + 1 + ordinary_size ps) =
          omega arith in
        rw (not_up, other, filled, small)
          (loop-resolve ps (p ∷ stack) (n + length p + 1) h b'
            ∙ ap (λ m. record { list = reverse (resolve (p ∷ stack) ps); path_size = m }) total)
  ]
]

-- Each write stays within the allocation.
join_parts-joined :
    (ps : List Name) (room n : ℕ) (output : List ℕ)
    → length output + length (joined ps) < room
    → join_parts room (record { text = output; overrun = n }) ps
      ≡ record { text = output ++ joined ps; overrun = n }
unfolding join_parts sprintf_to joined
join_parts-joined [] room n output b = rw (append-nil output) refl
join_parts-joined (p ∷ ps) room n output b =
    let l : length (output ++ (b'/' ∷ p)) ≡ length output + (1 + length p) =
      omega (arith, length-append output (b'/' ∷ p)) in
    let b' : length (output ++ (b'/' ∷ p)) + length (joined ps) < room =
      omega (arith, l, length-append p (joined ps)) in
    let none_over : n + (length (output ++ (b'/' ∷ p)) + 1 - room) ≡ n = omega arith in
    rw none_over (
      join_parts-joined ps room n (output ++ (b'/' ∷ p)) b'
      ∙ ap (λ t. record { text = t; overrun = n }) (append_assoc output (b'/' ∷ p) (joined ps)))

joined-append : (ps qs : List Name) → joined (ps ++ qs) ≡ joined ps ++ joined qs
unfolding joined
joined-append [] qs = refl
joined-append (p ∷ ps) qs =
    ap (λ t. b'/' ∷ (p ++ t)) (joined-append ps qs)
    ∙ ap (λ t. b'/' ∷ t) (sym (append_assoc p (joined ps) (joined qs)))

joined_one :
    (ps : List Name) (p : Name)
    → length (joined (ps ++ (p ∷ []))) ≡ length (joined ps) + (length p + 1)
unfolding joined
joined_one ps p =
    let e = joined-append ps (p ∷ []) in
    omega (arith, ap length e, length-append (joined ps) (b'/' ∷ (p ++ [])), length-append p [])

tail_size :
    (stack : List Name) → length (joined (reverse (tail stack))) ≤ length (joined (reverse stack))
unfolding reverse
tail_size [] = omega arith
tail_size (p ∷ ps) = omega (arith, joined_one (reverse ps) p)

-- What is left is no longer than what `path_size` has counted.
resolve_size :
    (ps stack : List Name)
    → length (joined (reverse (resolve stack ps)))
      ≤ length (joined (reverse stack)) + ordinary_size ps
unfolding resolve ordinary_size is_ordinary reverse
resolve_size [] stack = omega arith
resolve_size (p ∷ ps) stack = elim (Bool-cases (same_key p dot_dot)) [
  | inl up ↦ rw up (omega (arith, resolve_size ps (tail stack), tail_size stack))
  | inr not_up ↦ elim (Bool-cases (same_key p dot)) [
    | inl same ↦ rw (not_up, same) (resolve_size ps stack)
    | inr other ↦
        rw (not_up, other)
          (omega (arith, resolve_size ps (p ∷ stack), joined_one (reverse stack) p))
  ]
]

ordinary_size_bound : (ps : List Name) → ordinary_size ps ≤ length (joined ps)
unfolding ordinary_size joined
ordinary_size_bound [] = omega arith
ordinary_size_bound (p ∷ ps) = ground (arith, ordinary_size_bound ps, length-append p (joined ps))

ordinary_size-none : (ps : List Name) → (ordinary_size ps == 0) ≡ not (any_ordinary ps)
unfolding ordinary_size any_ordinary
ordinary_size-none [] = refl
ordinary_size-none (p ∷ ps) = ground (arith, ordinary_size-none ps)

before_size :
    (c : ℕ) (s : List ℕ) (ps : List Name) → length (joined (before c s ps)) ≤ length (joined ps) + 2
unfolding joined
before_size c [] ps = omega arith
before_size c (d ∷ s) [] = omega arith
before_size c (d ∷ s) (p ∷ ps) = ground arith

pieces_size : (s : List ℕ) → length (joined (pieces s)) ≤ 2 * length s
unfolding pieces joined
pieces_size [] = omega arith
pieces_size (c ∷ s) = elim (Bool-cases (c == b'/')) [
  | inl same ↦ rw same (omega (arith, pieces_size s))
  | inr other ↦ rw other (omega (arith, pieces_size s, before_size c s (pieces s)))
]

before-Filled : (c : ℕ) (s : List ℕ) (ps : List Name) → c ≢ 0 → Filled ps → Filled (before c s ps)
before-Filled c [] ps hc h = (hc, h)
before-Filled c (d ∷ s) [] hc h = (hc, tt)
before-Filled c (d ∷ s) (p ∷ ps) hc (hp, h) = elim (Bool-cases (d == b'/')) [
  | inl same ↦ rw same (hc, (hp, h))
  | inr other ↦ rw other (hc, h)
]

pieces-Filled : (s : List ℕ) → IsText s → Filled (pieces s)
unfolding pieces
pieces-Filled [] h = tt
pieces-Filled (c ∷ s) (hc, h) = elim (Bool-cases (c == b'/')) [
  | inl same ↦ rw same (pieces-Filled s h)
  | inr other ↦ rw other (before-Filled c s (pieces s) hc (pieces-Filled s h))
]

-- Let `path` be what `combined` puts together, of NUL-free bytes and below 2 GiB; let address 0 hold a
-- NUL byte and the fuel be above the path's length. Then `vfs_canonicalizePath` returns "/" if all
-- components of the path are ".." or "."; otherwise the names that the stack is left with, each
-- behind a slash. No byte is written behind an allocation but those that `combined` writes.
pub canonicalize_path-resolve :
    (fuel : ℕ) (cwd addition : List ℕ) (path : Written)
    → combined cwd addition ≡ some path
    → IsPath path.text
    → length path.text < 2 ^ 31
    → length path.text < fuel
    → canonicalize_path true fuel cwd addition
      ≡ some (record {
        text =
            if any_ordinary (pieces path.text)
            then joined (reverse (resolve [] (pieces path.text)))
            else b'/' ∷ [];
        overrun = path.overrun;
      })
unfolding canonicalize_path reverse joined
canonicalize_path-resolve fuel cwd addition path e h b f =
    let ps = pieces path.text in
    let size : ordinary_size ps < 2 ^ 32 =
      omega (arith, pieces_size path.text, ordinary_size_bound ps) in
    let looped =
      for_tokens-pieces add_part fuel path.text [] (record { list = []; path_size = 0 }) h f in
    let counted : 0 + ordinary_size ps ≡ ordinary_size ps = omega arith in
    let stack =
      loop-resolve ps [] 0 (pieces-Filled path.text h.0) (omega (arith, size))
      ∙ ap (λ n. record { list = reverse (resolve [] ps); path_size = n }) counted in
    let fits : length (joined (reverse (resolve [] ps))) < ordinary_size ps + 1 =
      omega (arith, resolve_size ps []) in
    let written =
      join_parts-joined (reverse (resolve [] ps)) (ordinary_size ps + 1) path.overrun []
        (omega (arith, fits)) in
    rw (canonicalize_path, e, looped, stack)
      (elim (Bool-cases (any_ordinary ps)) [
        | inl some_left ↦ rw (ordinary_size-none ps, some_left) (ap some written)
        | inr none_left ↦ rw (ordinary_size-none ps, none_left) refl
      ])
