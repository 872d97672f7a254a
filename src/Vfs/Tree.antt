-- ===== src/Vfs/Tree.antt =====
-- libkstructures/tree and the mounts of hexahedron/fs/vfs.c: the tree of mountpoints, `vfs_init`,
-- `vfs_mount` and `vfs_getMountpoint`. Nodes of the tree are addresses; no node is freed here.
use hexahedron.Base.{
  ℕ, zero, suc, ◌+◌, ◌%◌, ◌^◌, Bool, false, not, Option, none, some, List, [], ◌∷◌, ◌++◌, ◌==◌,
  if◌then◌else◌, length, drop,
}
use hexahedron.Base.Outcome.{done, panic, hang, fault, Op}
use hexahedron.Libc.Strings.{Buffer, c_string}
use hexahedron.Hashmap
use hexahedron.Hashmap.{Hashmap, same_key}
use hexahedron.Vfs.{Name, Turn, next, stop, for_tokens}
use hexahedron.Vfs.Canonical.{first_byte}

-- `vfs_tree_node_t`; a file's node is the address of its `fs_node_t`.
pub record Entry : Type 0 where
  pub name : Name
  pub fs_type : Option Name
  pub node : Option ℕ

pub record TreeNode : Type 0 where
  pub value : Entry
  pub children : List ℕ
  pub parent : Option ℕ

-- `nodes` is the count in `tree_t`; `fresh` the address of the next allocation.
pub record Tree : Type 0 where
  pub nodes : ℕ
  pub root : Option ℕ
  pub heap : ℕ → TreeNode
  pub fresh : ℕ

abbrev pub set_node : Tree → ℕ → TreeNode → Tree
set_node tree n x = record tree { heap = λ j. if n == j then x else tree.heap j }

unfoldable pub tree_create : (ℕ → TreeNode) → ℕ → Tree
tree_create heap fresh = record { nodes = 0; root = none; heap = heap; fresh = fresh }

-- the address of the new node, and the tree with it
unfoldable pub tree_create_node : Tree → Entry → ℕ × Tree
tree_create_node tree value = (
  tree.fresh,
  record (set_node tree tree.fresh (record { value = value; children = []; parent = none })) {
    fresh = tree.fresh + 1;
  },
)

unfoldable pub tree_set_parent : Tree → Entry → Tree
unfolding tree_create_node
tree_set_parent tree value =
    let (node, tree') = tree_create_node tree value in record tree' { root = some node; nodes = 1 }

sum_over : (ℕ → ℕ) → List ℕ → ℕ
sum_over f [] = 0
sum_over f (x ∷ xs) = f x + sum_over f xs

-- `tree_count_children`, to a depth
unfoldable pub tree_count_children : ℕ → Tree → ℕ → ℕ
unfolding sum_over
tree_count_children zero tree node = 0
tree_count_children (suc depth) tree node =
    let children = (tree.heap node).children in
    length children + sum_over (tree_count_children depth tree) children

unfoldable pub tree_insert_child_node : ℕ → Tree → ℕ → ℕ → Tree
unfolding tree_count_children
tree_insert_child_node depth tree parent node =
    let nodes = (tree.nodes + 1 + tree_count_children depth tree node) % 2 ^ 32 in
    let child = set_node tree node (record (tree.heap node) { parent = some parent }) in
    let above = child.heap parent in
    record (set_node child parent (record above { children = above.children ++ (node ∷ []) })) {
      nodes = nodes;
    }

-- A new node has no children: depth 1 counts them.
unfoldable pub tree_insert_child : Tree → ℕ → Entry → ℕ × Tree
unfolding tree_create_node tree_insert_child_node
tree_insert_child tree parent value =
    let (node, tree') = tree_create_node tree value in
    (node, tree_insert_child_node 1 tree' parent node)

-- The file's globals. A `vfs_filesystem_t` is the address that the hash table has.
pub record Vfs : Type 0 where
  pub vfs_tree : Option Tree
  pub vfs_filesystems : Option Hashmap
  pub vfs_lock : Bool

abbrev root_entry : Entry
root_entry = record { name = b'/' ∷ []; fs_type = some (b'N' ∷ b'/' ∷ b'A' ∷ []); node = none }

-- `heap` and `fresh` stand for the state of the allocator.
unfoldable pub vfs_init : (ℕ → TreeNode) → ℕ → Op Vfs (Unit {0})
unfolding tree_create tree_set_parent Hashmap.create
vfs_init heap fresh s = done tt (record {
  vfs_tree = some (tree_set_parent (tree_create heap fresh) root_entry);
  vfs_filesystems = some (Hashmap.create 10);
  vfs_lock = false;
})

-- The search among the children of a node, which takes the first with the name.
unfoldable pub find_child : (ℕ → TreeNode) → List ℕ → Name → Option ℕ
find_child heap [] pch = none
find_child heap (child ∷ children) pch =
    if same_key (heap child).value.name pch then some child else find_child heap children pch

pub record Walk : Type 0 where
  pub tree : Tree
  pub parent_node : ℕ

-- the body of the loop of `vfs_mount`: a node is created where there is none
unfoldable pub mount_part : Name → Walk → Turn Walk
unfolding find_child tree_insert_child
mount_part pch w = elim (find_child w.tree.heap (w.tree.heap w.parent_node).children pch) [
  | some child ↦ next (record w { parent_node = child })
  | none ↦
      let (node, tree') =
        tree_insert_child w.tree w.parent_node
          (record { name = pch; fs_type = none; node = none }) in
      next (record { tree = tree'; parent_node = node })
]

-- `entry->node = node`
unfoldable pub put_node : Tree → ℕ → ℕ → Tree
put_node tree n node =
    let x = tree.heap n in
    set_node tree n (record x { value = record (x.value) { node = some node } })

unfoldable pub set_tree : Vfs → Tree → Vfs
set_tree s tree = record s { vfs_tree = some tree }

-- the walk to the node of a path from the root, and the node put there
unfoldable pub mount_at : Bool → ℕ → ℕ → Name → Tree → ℕ → Option (ℕ × Tree)
unfolding mount_part put_node
mount_at null_ends fuel node path tree root =
    if length path == 1
    then some (root, put_node tree root node)
    else elim (for_tokens null_ends mount_part fuel (c_string path [])
        (record { tree = tree; parent_node = root })) [
          | none ↦ none
          | some w ↦ some (w.parent_node, put_node w.tree w.parent_node node)
        ]

-- `vfs_mount`; the lock is taken and given back around the walk, and NULL is `none`.
unfoldable pub vfs_mount : Bool → ℕ → Option ℕ → Option Name → Op Vfs (Option ℕ)
unfolding mount_at set_tree
vfs_mount null_ends fuel none path s = done none s
vfs_mount null_ends fuel (some node) path s = elim (s.vfs_tree) [
  | none ↦ panic s
  | some tree ↦ elim path [
    | none ↦ done none s
    | some text ↦ if not (first_byte text == b'/') then done none s else elim (tree.root) [
      | none ↦ fault
      | some root ↦
          if s.vfs_lock then hang else elim (mount_at null_ends fuel node text tree root) [
            | none ↦ fault
            | some (n, tree') ↦ done (some n) (record (set_tree s tree') { vfs_lock = false })
          ]
    ]
  ]
]

-- the last node found, and `_remainder_depth`
pub record Depth : Type 0 where
  pub last_node : ℕ
  pub depth : ℕ

unfoldable pub mountpoint_part : Tree → Name → Depth → Turn Depth
unfolding find_child
mountpoint_part tree pch w = elim (find_child tree.heap (tree.heap w.last_node).children pch) [
  | none ↦ stop w
  | some child ↦ next (record { last_node = child; depth = (w.depth + length pch + 1) % 2 ^ 32 })
]

-- The node of the mountpoint, and what stands in the path's object at the remainder.
unfoldable pub vfs_get_mountpoint : Bool → ℕ → Tree → ℕ → Buffer → Option (Option ℕ × Buffer)
unfolding mountpoint_part
vfs_get_mountpoint null_ends fuel tree root path =
    elim (for_tokens null_ends (mountpoint_part tree) fuel path
      (record { last_node = root; depth = 0 })) [
        | none ↦ none
        | some w ↦ some ((tree.heap w.last_node).value.node, drop w.depth path)
      ]
