-- ===== src/Vfs/Reachable.antt =====
-- The states of the file system that calls of `vfs_mount` lead to from `vfs_init`. Addresses are
-- counted from the first allocation.
use hexahedron.Base.{
  ℕ, ◌<◌, ◌≡◌, refl, ap, ◌∙◌, sym, true, false, Option, none, some, arith, ◌==◌, length, Bool-cases,
  inl, inr,
}
use hexahedron.Base.Outcome.{Outcome, done}
use hexahedron.Vfs.{Name}
use hexahedron.Vfs.Pieces.{pieces}
use hexahedron.Vfs.Loops.{IsPath}
use hexahedron.Vfs.Canonical.{first_byte}
use hexahedron.Vfs.Tree.{TreeNode, Tree, Vfs, set_tree, vfs_init, vfs_mount}
use hexahedron.Vfs.Growth.{Allocated, lookup}
use hexahedron.Vfs.Mounting.{Mounted, vfs_mount-Mounted}

-- A state that calls lead to: each has returned, with any result.
pub data Reachable (heap : ℕ → TreeNode) : Vfs → Type 0 where
  start : (s s' : Vfs) → vfs_init heap 0 s ≡ done tt s' → Reachable heap s'
  mount :
      (s s' : Vfs) (fuel : ℕ) (node : Option ℕ) (path : Name) (result : Option ℕ)
      → Reachable heap s
      → IsPath path
      → length path < fuel
      → vfs_mount true fuel node (some path) s ≡ done result s'
      → Reachable heap s'

-- The lock is free, and the tree has a root and only allocated nodes.
unfoldable pub Ready : Vfs → Type 0
Ready s =
    (s.vfs_lock ≡ false)
    × ((tree : Tree) × (s.vfs_tree ≡ some tree)
        × Allocated tree
        × ((root : ℕ) × (tree.root ≡ some root) × (root < tree.fresh)))

abbrev pub state_of : {A : Type 0} → Vfs → Outcome Vfs A → Vfs
state_of s (done a t) = t
state_of s _ = s

init-Ready : (heap : ℕ → TreeNode) (s s' : Vfs) → vfs_init heap 0 s ≡ done tt s' → Ready s'
unfolding vfs_init Ready Allocated
init-Ready heap s s' e = rw (sym (ap (state_of s) e)) (
  refl,
  (
    _,
    refl,
    (λ j h. let root : (0 == j) ≡ true = ground arith in rw root tt),
    (0, refl, omega arith),
  ),
)

mount_relative :
    (s : Vfs) (fuel node : ℕ) (path : Name) (tree : Tree)
    → s.vfs_tree ≡ some tree
    → (first_byte path == b'/') ≡ false
    → vfs_mount true fuel (some node) (some path) s ≡ done none s
unfolding vfs_mount
mount_relative s fuel node path tree at e = simp (vfs_mount, at, e) refl

mount-Ready :
    (s s' : Vfs) (fuel : ℕ) (node : Option ℕ) (path : Name) (result : Option ℕ)
    → Ready s
    → IsPath path
    → length path < fuel
    → vfs_mount true fuel node (some path) s ≡ done result s'
    → Ready s'
unfolding Ready Mounted set_tree
mount-Ready s s' fuel none path result r h f e =
    let same : s ≡ s' = unfold vfs_mount in ap (state_of s) e in rw (sym same) r
mount-Ready s s' fuel (some node) path result (free, (tree, at, a, (root, top, b))) h f e =
    elim (Bool-cases (first_byte path == b'/')) [
      | inl absolute ↦
          let (n, u, returned, mounted) =
            vfs_mount-Mounted fuel node root path tree s at top free a b h (ground arith) f in
          let (a', root', fresh', _, _, _) = mounted in
          let reached : record (set_tree s u) { vfs_lock = false } ≡ s' =
            ap (state_of s) (sym returned ∙ e) in
          rw (sym reached) (refl, (u, refl, a', (root, root' ∙ top, omega arith)))
      | inr relative ↦
          let same : s ≡ s' =
            ap (state_of s) (sym (mount_relative s fuel node path tree at relative) ∙ e) in
          rw (sym same) (free, (tree, at, a, (root, top, b)))
    ]

Reachable-Ready : (heap : ℕ → TreeNode) (s : Vfs) → Reachable heap s → Ready s
Reachable-Ready heap s (start t s' e) = init-Ready heap t s e
Reachable-Ready heap s (mount t s' fuel node path result r h f e) =
    mount-Ready t s fuel node path result (Reachable-Ready heap t r) h f e

-- In every state that calls of `vfs_mount` lead to from `vfs_init`, the lock is free, the tree has a
-- root, and children are allocated; and the next call at a path that starts with a slash, of
-- NUL-free bytes and shorter than the fuel, returns a node of the tree, which the pieces of the path
-- lead to and which has the file's node. Address 0 holds a NUL byte.
pub Reachable-mount :
    (heap : ℕ → TreeNode) (s : Vfs) (fuel node : ℕ) (path : Name)
    → Reachable heap s
    → IsPath path
    → first_byte path ≡ b'/'
    → length path < fuel
    → Ready s
      × ((n : ℕ) × (u : Tree) × (root : ℕ) × (vfs_mount true fuel (some node) (some path) s
            ≡ done (some n) (record (set_tree s u) { vfs_lock = false }))
          × (lookup u root (pieces path) ≡ some n)
          × ((u.heap n).value.node ≡ some node))
unfolding Ready Mounted
Reachable-mount heap s fuel node path r h start' f =
    let (free, (tree, at, a, (root, top, b))) = Reachable-Ready heap s r in
    let (n, u, returned, (_, _, _, found, here, _)) =
      vfs_mount-Mounted fuel node root path tree s at top free a b h start' f in
    ((free, (tree, at, a, (root, top, b))), (n, u, root, returned, found, here))
