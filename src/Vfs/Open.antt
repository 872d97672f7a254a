-- ===== src/Vfs/Open.antt =====
-- The calls through the functions of a node, `fs_open` to `fs_finddir`, and `kopen`.
use hexahedron.Base.{ℕ, Bool, false, Option, none, some, [], ◌∷◌, ◌==◌, if◌then◌else◌, bit_and}
use hexahedron.Libc.Strings.{Buffer}
use hexahedron.Vfs.{Name, Turn, next, stop, for_tokens}
use hexahedron.Vfs.Tree.{Tree, vfs_get_mountpoint}

abbrev pub vfs_file : ℕ
vfs_file = 1

abbrev pub vfs_directory : ℕ
vfs_directory = 2

-- What the code reads of an `fs_node_t`; a function is its address, NULL is `none`.
pub record FsNode : Type 0 where
  pub flags : ℕ
  pub open_fn : Option ℕ
  pub close_fn : Option ℕ
  pub read_fn : Option ℕ
  pub write_fn : Option ℕ
  pub readdir_fn : Option ℕ
  pub finddir_fn : Option ℕ

-- What the functions of the drivers do with the state of the kernel, each given its address, and the
-- allocator: `clone` is `kmalloc` and `memcpy` of a node. A buffer is its address.
pub record Drivers (W : Type 0) : Type 0 where
  pub node : W → ℕ → FsNode
  pub clone : ℕ → W → ℕ × W
  pub kfree : ℕ → W → W
  pub run_open : ℕ → ℕ → ℕ → W → W
  pub run_close : ℕ → ℕ → W → W
  pub run_read : ℕ → ℕ → ℕ → ℕ → ℕ → W → ℕ × W
  pub run_write : ℕ → ℕ → ℕ → ℕ → ℕ → W → ℕ × W
  pub run_readdir : ℕ → ℕ → ℕ → W → Option ℕ × W
  pub run_finddir : ℕ → ℕ → Name → W → Option ℕ × W

module _ {W : Type 0} (d : Drivers W) where
  unfoldable pub fs_open : Option ℕ → ℕ → W → W
  fs_open none flags w = w
  fs_open (some n) flags w = elim ((d.node w n).open_fn) [
    | none ↦ w
    | some f ↦ d.run_open f n flags w
  ]

  unfoldable pub fs_close : Option ℕ → W → W
  fs_close none w = w
  fs_close (some n) w =
      d.kfree n (elim ((d.node w n).close_fn) [ none ↦ w | some f ↦ d.run_close f n w ])

  unfoldable pub fs_read : Option ℕ → ℕ → ℕ → ℕ → W → ℕ × W
  fs_read none offset size buffer w = (0, w)
  fs_read (some n) offset size buffer w = elim ((d.node w n).read_fn) [
    | none ↦ (0, w)
    | some f ↦ d.run_read f n offset size buffer w
  ]

  unfoldable pub fs_write : Option ℕ → ℕ → ℕ → ℕ → W → ℕ × W
  fs_write none offset size buffer w = (0, w)
  fs_write (some n) offset size buffer w = elim ((d.node w n).write_fn) [
    | none ↦ (0, w)
    | some f ↦ d.run_write f n offset size buffer w
  ]

  unfoldable pub fs_readdir : Option ℕ → ℕ → W → Option ℕ × W
  fs_readdir none index w = (none, w)
  fs_readdir (some n) index w =
      if bit_and (d.node w n).flags vfs_directory == 0
      then (none, w)
      else elim ((d.node w n).readdir_fn) [ none ↦ (none, w) | some f ↦ d.run_readdir f n index w ]

  unfoldable pub fs_finddir : Option ℕ → Name → W → Option ℕ × W
  fs_finddir none path w = (none, w)
  fs_finddir (some n) path w =
      if bit_and (d.node w n).flags vfs_directory == 0
      then (none, w)
      else elim ((d.node w n).finddir_fn) [ none ↦ (none, w) | some f ↦ d.run_finddir f n path w ]

  -- A token is never NULL.
  unfoldable pub kopen_relative : Option ℕ → Name → W → Option ℕ × W
  unfolding fs_finddir
  kopen_relative none path w = (none, w)
  kopen_relative (some n) path w = fs_finddir (some n) path w

  -- `node && node->flags == VFS_FILE`
  unfoldable pub is_file : W → Option ℕ → Bool
  is_file w none = false
  is_file w (some n) = (d.node w n).flags == vfs_file

  -- the body of the loop of `kopen`
  unfoldable pub open_part : Name → Option ℕ × W → Turn (Option ℕ × W)
  unfolding kopen_relative is_file
  open_part pch (node, w) =
      let found = kopen_relative node pch w in
      if is_file found.1 found.0 then stop found else next found

  -- The end of `kopen`: the copy of a NULL node reads address 0, which is `none`.
  unfoldable pub finish_node : Option ℕ → ℕ → W → Option (Option ℕ × W)
  unfolding fs_open
  finish_node none flags w = none
  finish_node (some n) flags w =
      let (copy, w') = d.clone n w in some (some copy, fs_open (some copy) flags w')

  -- `kopen` behind its call of `vfs_getMountpoint`
  unfoldable pub open_offset : Bool → ℕ → Option ℕ → Buffer → ℕ → W → Option (Option ℕ × W)
  unfolding open_part finish_node
  open_offset null_ends fuel start [] flags w = none
  open_offset null_ends fuel start (c ∷ s) flags w =
      if c == 0
      then finish_node start flags w
      else elim (for_tokens null_ends open_part fuel (c ∷ s) (start, w)) [
        | none ↦ none
        | some found ↦ elim (found.0) [
          | none ↦ some (none, found.1)
          | some n ↦ finish_node (some n) flags found.1
        ]
      ]

  unfoldable pub kopen : Bool → ℕ → Tree → ℕ → Option Buffer → ℕ → W → Option (Option ℕ × W)
  unfolding open_offset
  kopen null_ends fuel tree root none flags w = some (none, w)
  kopen null_ends fuel tree root (some path) flags w =
      elim (vfs_get_mountpoint null_ends fuel tree root path) [
        | none ↦ none
        | some (node, path_offset) ↦ open_offset null_ends fuel node path_offset flags w
      ]
