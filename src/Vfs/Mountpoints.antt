-- ===== src/Vfs/Mountpoints.antt =====
-- `vfs_getMountpoint` against the deepest node of the tree along the names of a path.
use hexahedron.Base.{
  ℕ, ◌+◌, ◌%◌, ◌^◌, ◌<◌, ◌≡◌, refl, ap, ◌∙◌, sym, none, some, List, [], ◌∷◌, ◌++◌, arith, true,
  false, length, length-append, drop, append_assoc, Option-cases, inl, inr,
}
use hexahedron.Base.Outcome.{done}
use hexahedron.Libc.Strings.{Buffer, c_string}
use hexahedron.Vfs.{Name}
use hexahedron.Vfs.Pieces.{for_each}
use hexahedron.Vfs.Tokens.{drop-length}
use hexahedron.Vfs.Loops.{for_tokens-pieces}
use hexahedron.Vfs.Resolve.{joined}
use hexahedron.Vfs.Absolute.{Names, pieces-joined, joined-IsPath}
use hexahedron.Vfs.Tree.{
  Tree, find_child, mountpoint_part, vfs_get_mountpoint, Vfs, set_tree, vfs_mount,
}
use hexahedron.Vfs.Growth.{Allocated, lookup}
use hexahedron.Vfs.Mounts.{some-injective}
use hexahedron.Vfs.Mounting.{vfs_mount-Mounted, Mounted}

-- the last node that the names lead to, and the names that are left there
unfoldable pub deepest : Tree → ℕ → List Name → ℕ × List Name
deepest t n [] = (n, [])
deepest t n (p ∷ ps) = elim (find_child t.heap (t.heap n).children p) [
  | none ↦ (n, p ∷ ps)
  | some child ↦ deepest t child ps
]

-- Where the loop stops: at the deepest node, behind the bytes of the names before it.
descended :
    (t : Tree) (ps : List Name) (n : ℕ) (front : List ℕ)
    → length front + length (joined ps) < 2 ^ 32
    → (back : List ℕ) × (for_each
          (mountpoint_part t)
          ps
          (record { last_node = n; depth = length front })
        ≡ record { last_node = (deepest t n ps).0; depth = length back })
      × (front ++ joined ps ≡ back ++ joined (deepest t n ps).1)
unfolding for_each mountpoint_part deepest joined
descended t [] n front b = (front, refl, refl)
descended t (p ∷ ps) n front b = elim (Option-cases (find_child t.heap (t.heap n).children p)) [
  | inl missing ↦ (front, rw (for_each, deepest, missing) refl, rw (deepest, missing) refl)
  | inr (c, found) ↦
      let l : length (front ++ (b'/' ∷ p)) ≡ length front + (1 + length p) =
        omega (arith, length-append front (b'/' ∷ p)) in
      let b' : length (front ++ (b'/' ∷ p)) + length (joined ps) < 2 ^ 32 =
        omega (arith, l, length-append p (joined ps)) in
      let (back, e, split) = descended t ps c (front ++ (b'/' ∷ p)) b' in
      let size : (length front + length p + 1) % 2 ^ 32 ≡ length (front ++ (b'/' ∷ p)) =
        omega (arith, l, length-append p (joined ps)) in
      (
        back,
        rw (for_each, deepest, found, size) e,
        rw (deepest, found) (sym (append_assoc front (b'/' ∷ p) (joined ps)) ∙ split),
      )
]

-- Let a path be put together from names, each behind one slash, below 4 GiB; let address 0 hold a NUL
-- byte and the fuel be above the path's length. Then `vfs_getMountpoint` returns the node of the
-- deepest entry that the names lead to, and the remainder is the path of the names left.
pub vfs_get_mountpoint-deepest :
    (fuel : ℕ) (t : Tree) (root : ℕ) (ps : List Name) (rest : Buffer)
    → Names ps
    → length (joined ps) < 2 ^ 32
    → length (joined ps) < fuel
    → vfs_get_mountpoint true fuel t root (c_string (joined ps) rest)
      ≡ some
          ((t.heap (deepest t root ps).0).value.node, c_string (joined (deepest t root ps).1) rest)
unfolding vfs_get_mountpoint
vfs_get_mountpoint-deepest fuel t root ps rest h b f =
    let (back, e, split) = descended t ps root [] (omega (arith, b)) in
    let looped =
      for_tokens-pieces (mountpoint_part t) fuel (joined ps) rest
        (record { last_node = root; depth = 0 }) (joined-IsPath ps h) f in
    let left : drop (length back) (c_string (joined ps) rest)
        ≡ c_string (joined (deepest t root ps).1) rest =
      ap (λ s. drop (length back) (c_string s rest)) split
      ∙ ap (drop (length back)) (append_assoc back (joined (deepest t root ps).1) (0 ∷ rest))
      ∙ drop-length back _ in
    rw (vfs_get_mountpoint, looped, pieces-joined ps h, e, left) refl

deepest-lookup :
    (t : Tree) (n k : ℕ) (ps : List Name) → lookup t n ps ≡ some k → deepest t n ps ≡ (k, [])
unfolding lookup deepest
deepest-lookup t n k [] e = ap (λ j. (j, [])) (some-injective n k e)
deepest-lookup t n k (p ∷ ps) e = elim (Option-cases (find_child t.heap (t.heap n).children p)) [
  | inl missing ↦ let e' : none ≡ some k = rw (lookup, missing) at e in ground arith
  | inr (c, found) ↦
      let e' : lookup t c ps ≡ some k = rw (lookup, found) at e in
      rw (deepest, found) (deepest-lookup t c k ps e')
]

-- As for `vfs_mount` above, let one name at least be put together to a path, each behind a slash.
-- Then `vfs_mount` at the path returns, and `vfs_getMountpoint` of the path then returns the node
-- that was mounted, with the empty remainder.
pub get_mountpoint-mount :
    (fuel node root : ℕ) (p : Name) (ps : List Name) (tree : Tree) (s : Vfs)
    → s.vfs_tree ≡ some tree
    → tree.root ≡ some root
    → s.vfs_lock ≡ false
    → Allocated tree
    → root < tree.fresh
    → Names (p ∷ ps)
    → length (joined (p ∷ ps)) < 2 ^ 32
    → length (joined (p ∷ ps)) < fuel
    → (n : ℕ) × (u : Tree) × (vfs_mount true fuel (some node) (some (joined (p ∷ ps))) s
        ≡ done (some n) (record (set_tree s u) { vfs_lock = false }))
      × (vfs_get_mountpoint true fuel u root (c_string (joined (p ∷ ps)) [])
          ≡ some (some node, 0 ∷ []))
unfolding Mounted joined
get_mountpoint-mount fuel node root p ps tree s e e' free a b h size f =
    let (n, u, returned, (_, _, _, found, here, _)) =
      vfs_mount-Mounted fuel node root (joined (p ∷ ps)) tree s e e' free a b
        (joined-IsPath (p ∷ ps) h) refl f in
    let found' : lookup u root (p ∷ ps) ≡ some n =
      ap (lookup u root) (sym (pieces-joined (p ∷ ps) h)) ∙ found in
    (
      n,
      u,
      returned,
      vfs_get_mountpoint-deepest fuel u root (p ∷ ps) [] h size f
          ∙ rw (deepest-lookup u root n (p ∷ ps) found', here) refl,
    )
