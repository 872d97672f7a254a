-- ===== src/Vfs/Opening.antt =====
-- `kopen` against the directories that the names of a path lead through.
use hexahedron.Base.{
  ℕ, ◌^◌, ◌<◌, ◌≤◌, ◌≡◌, refl, ap, ◌∙◌, true, false, Option, none, some, [], ◌∷◌, List, arith,
  if◌then◌else◌, length, length-append, Bool-cases, Option-cases, inl, inr,
}
use hexahedron.Base.Outcome.{done}
use hexahedron.Libc.Strings.{Buffer, c_string}
use hexahedron.Vfs.{Name, next, stop, for_tokens}
use hexahedron.Vfs.Pieces.{for_each}
use hexahedron.Vfs.Loops.{for_tokens-pieces}
use hexahedron.Vfs.Resolve.{joined}
use hexahedron.Vfs.Absolute.{Names, pieces-joined, joined-IsPath}
use hexahedron.Vfs.Tree.{Tree, find_child, Vfs, set_tree, vfs_mount}
use hexahedron.Vfs.Growth.{Allocated}
use hexahedron.Vfs.Mountpoints.{deepest, vfs_get_mountpoint-deepest, get_mountpoint-mount}
use hexahedron.Vfs.Open.{
  Drivers, fs_finddir, kopen_relative, is_file, open_part, finish_node, open_offset, kopen,
}

module _ {W : Type 0} (d : Drivers W) where
  -- From a node through the names: each is looked up in the directory before it, until one is not
  -- found, which gives no node, or is a file.
  unfoldable pub follow : Option ℕ → List Name → W → Option ℕ × W
  unfolding is_file
  follow none ps w = (none, w)
  follow (some n) [] w = (some n, w)
  follow (some n) (p ∷ ps) w =
      let (found, w') = fs_finddir d (some n) p w in
      elim found [
        | none ↦ (none, w')
        | some m ↦ if is_file d w' (some m) then (some m, w') else follow (some m) ps w'
      ]

  -- the file that the names stand for from a mountpoint's node: a new node, which is opened
  unfoldable pub opened_from : Option ℕ → List Name → ℕ → W → Option (Option ℕ × W)
  unfolding follow
  opened_from node [] flags w = finish_node d node flags w
  opened_from node (p ∷ qs) flags w =
      let (found, w') = follow node (p ∷ qs) w in
      elim found [ none ↦ some (none, w') | some n ↦ finish_node d (some n) flags w' ]

  -- the file that the names stand for, from the deepest mountpoint
  unfoldable pub opened : Tree → ℕ → List Name → ℕ → W → Option (Option ℕ × W)
  unfolding opened_from deepest
  opened tree root ps flags w =
      opened_from (tree.heap (deepest tree root ps).0).value.node (deepest tree root ps).1 flags w

  null_stays : (ps : List Name) (w : W) → for_each (open_part d) ps (none, w) ≡ (none, w)
  unfolding for_each open_part kopen_relative is_file
  null_stays [] w = refl
  null_stays (p ∷ ps) w = null_stays ps w

  after :
      (ps : List Name) (found : Option ℕ) (w : W)
      → ((m : ℕ) → for_each (open_part d) ps (some m, w) ≡ follow (some m) ps w)
      → (elim (if is_file d w found then stop (found, w) else next (found, w)) [
        | stop s ↦ s
        | next s ↦ for_each (open_part d) ps s
      ])
        ≡ (elim found [
          | none ↦ (none, w)
          | some m ↦ if is_file d w (some m) then (some m, w) else follow (some m) ps w
        ])
  unfolding is_file
  after ps none w h = null_stays ps w
  after ps (some m) w h = elim (Bool-cases (is_file d w (some m))) [
    | inl file ↦ rw file refl
    | inr other ↦ rw other (h m)
  ]

  loop-follow :
      (ps : List Name) (node : Option ℕ) (w : W)
      → for_each (open_part d) ps (node, w) ≡ follow node ps w
  unfolding for_each open_part kopen_relative follow
  loop-follow ps none w = null_stays ps w
  loop-follow [] (some n) w = refl
  loop-follow (p ∷ ps) (some n) w =
      let found = fs_finddir d (some n) p w in
      after ps found.0 found.1 (λ m. loop-follow ps (some m) found.1)

  open_offset-opened_from :
      (fuel : ℕ) (start : Option ℕ) (left : List Name) (rest : Buffer) (flags : ℕ) (w : W)
      → Names left
      → length (joined left) < fuel
      → open_offset d true fuel start (c_string (joined left) rest) flags w
        ≡ opened_from start left flags w
  unfolding open_offset opened_from joined
  open_offset-opened_from fuel start [] rest flags w h f = refl
  open_offset-opened_from fuel start (p ∷ qs) rest flags w h f =
      let looped : for_tokens true (open_part d) fuel (c_string (joined (p ∷ qs)) rest) (start, w)
          ≡ some (follow start (p ∷ qs) w) =
        for_tokens-pieces (open_part d) fuel (joined (p ∷ qs)) rest (start, w)
          (joined-IsPath (p ∷ qs) h) f
        ∙ ap (λ ps. some (for_each (open_part d) ps (start, w))) (pieces-joined (p ∷ qs) h)
        ∙ ap some (loop-follow (p ∷ qs) start w) in
      rw looped refl

deepest-Names :
    (t : Tree) (n : ℕ) (ps : List Name)
    → Names ps
    → Names (deepest t n ps).1 × (length (joined (deepest t n ps).1) ≤ length (joined ps))
unfolding deepest joined
deepest-Names t n [] h = (tt, omega arith)
deepest-Names t n (p ∷ ps) (hp, h) = elim (Option-cases (find_child t.heap (t.heap n).children p)) [
  | inl missing ↦ rw (deepest, missing) ((hp, h), omega arith)
  | inr (c, found) ↦
      let (names, size) = deepest-Names t c ps h in
      rw (deepest, found) (names, omega (arith, size, length-append p (joined ps)))
]

-- Let a path be put together from names, each behind one slash, below 4 GiB; let address 0 hold a NUL
-- byte and the fuel be above the path's length. Then `kopen` takes the deepest mountpoint that the
-- names lead to and follows the names left through the directories, until one is not found or is a
-- file; it returns NULL when a name was not found, and a copy, which it opens, of the node at the
-- end otherwise. It copies NULL, which is no defined result, when the names lead to a mountpoint
-- that has no node.
pub kopen-opened :
    {W : Type 0} (d : Drivers W) (fuel : ℕ) (tree : Tree) (root : ℕ) (ps : List Name)
    (rest : Buffer) (flags : ℕ) (w : W)
    → Names ps
    → length (joined ps) < 2 ^ 32
    → length (joined ps) < fuel
    → kopen d true fuel tree root (some (c_string (joined ps) rest)) flags w
      ≡ opened d tree root ps flags w
unfolding kopen opened
kopen-opened d fuel tree root ps rest flags w h b f =
    let (names, size) = deepest-Names tree root ps h in
    let found = vfs_get_mountpoint-deepest fuel tree root ps rest h b f in
    rw (kopen, found)
      (open_offset-opened_from d fuel _ (deepest tree root ps).1 rest flags w names (omega arith))

-- Let the tree have a root, its nodes and their children be allocated, and the lock be free; let one
-- name at least be put together to a path, each behind one slash, below 4 GiB, address 0 hold a NUL
-- byte and the fuel be above the path's length. Then `kopen` of the path in the tree that `vfs_mount`
-- leaves copies the node that was mounted and opens the copy.
pub kopen-mount :
    {W : Type 0} (d : Drivers W) (fuel node root : ℕ) (p : Name) (ps : List Name) (tree : Tree)
    (s : Vfs) (flags : ℕ) (w : W)
    → s.vfs_tree ≡ some tree
    → tree.root ≡ some root
    → s.vfs_lock ≡ false
    → Allocated tree
    → root < tree.fresh
    → Names (p ∷ ps)
    → length (joined (p ∷ ps)) < 2 ^ 32
    → length (joined (p ∷ ps)) < fuel
    → (n : ℕ) × (u : Tree) × (vfs_mount true fuel (some node) (some (joined (p ∷ ps))) s
        ≡ done (some n) (record (set_tree s u) { vfs_lock = false }))
      × (kopen d true fuel u root (some (c_string (joined (p ∷ ps)) [])) flags w
          ≡ finish_node d (some node) flags w)
unfolding kopen open_offset
kopen-mount d fuel node root p ps tree s flags w e e' free a b h size f =
    let (n, u, returned, found) =
      get_mountpoint-mount fuel node root p ps tree s e e' free a b h size f in
    (n, u, returned, rw (kopen, found) refl)
