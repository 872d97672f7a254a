-- ===== src/Vfs/Filesystems.antt =====
-- `vfs_registerFilesystem` and `vfs_mountFilesystemType`, on the hash table of file systems.
use hexahedron.Base.{ℕ, Bool, Option, none, some, ◌==◌, if◌then◌else◌}
use hexahedron.Base.Outcome.{Outcome, done, panic, hang, fault, Op}
use hexahedron.Hashmap
use hexahedron.Vfs.{Name}
use hexahedron.Vfs.Tree.{Tree, set_node, Vfs, set_tree, vfs_mount}

-- `vfs_filesystem_t`; the callback is an address, NULL is `none`.
pub record Filesystem : Type 0 where
  pub name : Name
  pub mount : Option ℕ

-- `fs` is the address of the new `vfs_filesystem_t`, which holds the name and the callback.
unfoldable pub vfs_register_filesystem : ℕ → Filesystem → Op Vfs ℕ
unfolding Hashmap.set
vfs_register_filesystem fs f s = elim (s.vfs_filesystems) [
  | none ↦ panic s
  | some table ↦ elim (Hashmap.set table f.name fs) [
    | none ↦ fault
    | some table' ↦ done 0 (record s { vfs_filesystems = some table' })
  ]
]

-- `vfsnode->fs_type = strdup(name)`
unfoldable pub put_type : Tree → ℕ → Name → Tree
put_type tree n name =
    let x = tree.heap n in
    set_node tree n (record x { value = record (x.value) { fs_type = some name } })

-- What a successful mount is followed by.
unfoldable pub put_fs_type : ℕ → Name → ℕ → Op Vfs (Option ℕ)
unfolding put_type set_tree
put_fs_type n name node s = elim (s.vfs_tree) [
  | none ↦ fault
  | some tree ↦ done (some node) (set_tree s (put_type tree n name))
]

-- `files` are the file systems by their addresses, and `run` calls a mount callback.
module _ (files : ℕ → Filesystem) (run : ℕ → Option Name → Option Name → Op Vfs (Option ℕ))
    (null_ends : Bool) (fuel : ℕ) where
  -- `vfs_mountFilesystemType` once the node is there
  unfoldable pub mount_node : Name → ℕ → Option Name → Op Vfs (Option ℕ)
  unfolding put_fs_type
  mount_node name node none s = done (some node) s
  mount_node name node (some mountpoint) s =
      elim (vfs_mount null_ends fuel (some node) (some mountpoint) s) [
        | done result t ↦ elim result [ none ↦ done none t | some n ↦ put_fs_type n name node t ]
        | panic t ↦ panic t
        | hang ↦ hang
        | fault ↦ fault
      ]

  -- what is done with the result of the callback
  unfoldable pub with_node : Name → Option Name → Outcome Vfs (Option ℕ) → Outcome Vfs (Option ℕ)
  unfolding mount_node
  with_node name mountpoint (done none t) = done none t
  with_node name mountpoint (done (some node) t) = mount_node name node mountpoint t
  with_node name mountpoint (panic t) = panic t
  with_node name mountpoint hang = hang
  with_node name mountpoint fault = fault

  unfoldable pub vfs_mount_filesystem_type :
      Option Name → Option Name → Option Name → Op Vfs (Option ℕ)
  unfolding with_node Hashmap.get
  vfs_mount_filesystem_type none argp mountpoint s = done none s
  vfs_mount_filesystem_type (some name) argp mountpoint s = elim (s.vfs_filesystems) [
    | none ↦ fault
    | some table ↦ elim (Hashmap.get table name) [
      | none ↦ fault
      | some fs ↦ if fs == 0 then done none s else elim ((files fs).mount) [
        | none ↦ done none s
        | some callback ↦ with_node name mountpoint (run callback argp mountpoint s)
      ]
    ]
  ]
