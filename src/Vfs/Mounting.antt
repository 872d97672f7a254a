-- ===== src/Vfs/Mounting.antt =====
-- `vfs_mount` against the lookup of a path in the tree of mountpoints.
use hexahedron.Base.{
  ℕ, ◌<◌, ◌≤◌, ◌≡◌, refl, ap, ◌∙◌, sym, ◌≢◌, true, false, some, List, [], ◌∷◌, arith, ◌==◌,
  ==_of_eq, All, length, append-nil, Bool-cases, inl, inr,
}
use hexahedron.Base.Outcome.{done}
use hexahedron.Libc.Strings.Compare.{IsText}
use hexahedron.Vfs.{Name}
use hexahedron.Vfs.Pieces.{pieces, before}
use hexahedron.Vfs.Loops.{IsPath, for_tokens-pieces}
use hexahedron.Vfs.Canonical.{first_byte}
use hexahedron.Vfs.Tree.{Tree, mount_part, put_node, mount_at, Vfs, set_tree, vfs_mount}
use hexahedron.Vfs.Growth.{Allocated, lookup, Grows, Grows-refl, Grows-trans}
use hexahedron.Vfs.Mounts.{walked, lookup-Grows, Keeps}

before_texts :
    (c : ℕ) (s : List ℕ) (ps : List Name) → c ≢ 0 → All IsText ps → All IsText (before c s ps)
before_texts c [] ps hc h = ((hc, tt), h)
before_texts c (d ∷ s) [] hc h = ((hc, tt), tt)
before_texts c (d ∷ s) (p ∷ ps) hc (hp, h) = elim (Bool-cases (d == b'/')) [
  | inl same ↦ rw same ((hc, tt), (hp, h))
  | inr other ↦ rw other ((hc, hp), h)
]

-- the pieces of a text have no NUL
pub pieces_texts : (s : List ℕ) → IsText s → All IsText (pieces s)
unfolding pieces
pieces_texts [] h = tt
pieces_texts (c ∷ s) (hc, h) = elim (Bool-cases (c == b'/')) [
  | inl same ↦ rw same (pieces_texts s h)
  | inr other ↦ rw other (before_texts c s (pieces s) hc (pieces_texts s h))
]

module _ (t : Tree) (n node : ℕ) where
  put_children : (j : ℕ) → ((put_node t n node).heap j).children ≡ (t.heap j).children
  unfolding put_node
  put_children j = elim (Bool-cases (n == j)) [
    | inl same ↦ let p : n ≡ j = ground arith in rw same (ap (λ k. (t.heap k).children) p)
    | inr other ↦ rw other refl
  ]

  put_name : (j : ℕ) → ((put_node t n node).heap j).value.name ≡ (t.heap j).value.name
  unfolding put_node
  put_name j = elim (Bool-cases (n == j)) [
    | inl same ↦ let p : n ≡ j = ground arith in rw same (ap (λ k. (t.heap k).value.name) p)
    | inr other ↦ rw other refl
  ]

  put_value : (j : ℕ) → j ≢ n → ((put_node t n node).heap j).value ≡ (t.heap j).value
  unfolding put_node
  put_value j h = let other : (n == j) ≡ false = ground arith in rw other refl

  put_here : ((put_node t n node).heap n).value.node ≡ some node
  unfolding put_node
  put_here = let same : (n == n) ≡ true = ==_of_eq n n refl in rw same refl

  put-Grows : Grows t (put_node t n node)
  unfolding Grows put_node
  put-Grows = (
    (omega arith, refl),
    λ j h. (put_name j, ([], put_children j ∙ sym (append-nil (t.heap j).children))),
  )

  put-Allocated : Allocated t → Allocated (put_node t n node)
  unfolding Allocated put_node
  put-Allocated a j h = rw (put_children j) (a j h)

-- What the tree `u` is to `t` after a mount of `node` at node `n` under the names.
unfoldable pub Mounted : Tree → Tree → ℕ → ℕ → ℕ → List Name → Type 0
Mounted t u root n node ps =
    Allocated u
    × (u.root ≡ t.root)
    × (t.fresh ≤ u.fresh)
    × (lookup u root ps ≡ some n)
    × ((u.heap n).value.node ≡ some node)
    × ((qs : List Name) (k : ℕ)
        → lookup t root qs ≡ some k
        → (lookup u root qs ≡ some k) × (k ≢ n → (u.heap k).value ≡ (t.heap k).value))

put-Mounted :
    (t u : Tree) (root n node : ℕ) (ps : List Name)
    → Allocated t
    → root < t.fresh
    → Grows t u
    → Allocated u
    → lookup u root ps ≡ some n
    → Keeps t u
    → Mounted t (put_node u n node) root n node ps
unfolding Mounted Grows
put-Mounted t u root n node ps a b g a' l k =
    let g' = Grows-trans t u (put_node u n node) g (put-Grows u n node) in
    (
      put-Allocated u n node a',
      g'.0.1,
      g'.0.0,
      (lookup-Grows ps u (put_node u n node) root n a' (put-Grows u n node) (omega arith) l).0,
      put_here u n node,
      λ qs j found.
          let (kept, bound) = lookup-Grows qs t (put_node u n node) root j a g' b found in
          (kept, λ other. put_value u n node j other ∙ k j bound),
    )

mount_at-Mounted :
    (fuel node root : ℕ) (path : Name) (t : Tree)
    → Allocated t
    → root < t.fresh
    → IsPath path
    → first_byte path ≡ b'/'
    → length path < fuel
    → (n : ℕ) × (u : Tree) × (mount_at true fuel node path t root ≡ some (n, u))
      × Mounted t u root n node (pieces path)
unfolding mount_at lookup pieces
mount_at-Mounted fuel node root [] t a b h start f = ground arith
mount_at-Mounted fuel node root (c ∷ []) t a b h start f = (
  root,
  put_node t root node,
  refl,
  rw start (put-Mounted t t root root node [] a b (Grows-refl t) a refl (λ j _. refl)),
)
mount_at-Mounted fuel node root (c ∷ d ∷ path) t a b h start f =
    let ps = pieces (c ∷ d ∷ path) in
    let long : (length (c ∷ d ∷ path) == 1) ≡ false = ground arith in
    let looped =
      for_tokens-pieces mount_part fuel (c ∷ d ∷ path) [] (record { tree = t; parent_node = root })
        h f in
    let (w, e, g, a', b', l, k) = walked ps t root (pieces_texts (c ∷ d ∷ path) h.0) a b in
    (
      w.parent_node,
      put_node w.tree w.parent_node node,
      rw (mount_at, long, looped, e) refl,
      put-Mounted t w.tree root w.parent_node node ps a b g a' l k,
    )

-- Let the tree have a root, its nodes and their children be allocated, and the lock be free; let the
-- path be NUL-free bytes, the first of them a slash, address 0 hold a NUL byte and the fuel be above
-- the path's length. Then `vfs_mount` returns a node of the tree and gives the lock back: the pieces
-- of the path lead to it, it has the file's node, children are still allocated, and every list of
-- names leads to the node that it has led to before, whose value is the old one unless it is the node
-- that is returned.
pub vfs_mount-Mounted :
    (fuel node root : ℕ) (path : Name) (tree : Tree) (s : Vfs)
    → s.vfs_tree ≡ some tree
    → tree.root ≡ some root
    → s.vfs_lock ≡ false
    → Allocated tree
    → root < tree.fresh
    → IsPath path
    → first_byte path ≡ b'/'
    → length path < fuel
    → (n : ℕ) × (u : Tree) × (vfs_mount true fuel (some node) (some path) s
        ≡ done (some n) (record (set_tree s u) { vfs_lock = false }))
      × Mounted tree u root n node (pieces path)
unfolding vfs_mount
vfs_mount-Mounted fuel node root path tree s e e' free a b h start f =
    let (n, u, done', mounted) = mount_at-Mounted fuel node root path tree a b h start f in
    let slash' : (first_byte path == b'/') ≡ true = ground arith in
    (n, u, rw (vfs_mount, e, slash', e', free, done') refl, mounted)
