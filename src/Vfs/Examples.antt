-- ===== src/Vfs/Examples.antt =====
-- Runs of the file system's functions, and their theorems at short paths.
use hexahedron.Base.{
  ℕ, ◌+◌, ◌≡◌, ◌≢◌, refl, ap, Option, true, false, none, some, List, [], ◌∷◌, arith, if◌then◌else◌,
  length,
}
use hexahedron.Base.Outcome.{done, Op}
use hexahedron.Base.Int.{◌-ℤ◌}
use hexahedron.Hashmap
use hexahedron.Hashmap.{same_key}
use hexahedron.Libc.Strings.Tokens.{strtok_r}
use hexahedron.Libc.Strings.{c_string, strspn, strcspn, strchr, strcmp}
use hexahedron.Vfs.{Name, for_tokens}
use hexahedron.Vfs.Pieces.{pieces, for_each}
use hexahedron.Vfs.Loops.{IsPath, for_tokens-pieces}
use hexahedron.Vfs.Canonical.{Written, join_parts, last_byte, add_part, combined, canonicalize_path}
use hexahedron.Vfs.Resolve.{
  joined, resolve, reverse, is_ordinary, any_ordinary, canonicalize_path-resolve,
}
use hexahedron.Vfs.Absolute.{Names, Ordinary, canonicalize_path-joined, canonicalize_path-overrun}
use hexahedron.Vfs.Tree.{TreeNode, Tree, Vfs, set_tree, vfs_init, vfs_mount}
use hexahedron.Hashmap.Map.{IsValid, create-IsValid}
use hexahedron.Vfs.Canonical.{first_byte}
use hexahedron.Vfs.Filesystems.{
  Filesystem, vfs_register_filesystem, with_node, vfs_mount_filesystem_type,
}
use hexahedron.Vfs.Registered.{mount_type-register}
use hexahedron.Vfs.Growth.{Allocated, lookup}
use hexahedron.Vfs.Mounting.{Mounted, vfs_mount-Mounted}
use hexahedron.Vfs.Open.{Drivers, finish_node, kopen}
use hexahedron.Vfs.Opening.{opened, kopen-opened, kopen-mount}
use hexahedron.Vfs.Reachable.{Reachable, start, Ready, state_of, Reachable-mount}

-- "/a/b"
abbrev path : List ℕ
path = b'/' ∷ b'a' ∷ b'/' ∷ b'b' ∷ []

path-IsPath : IsPath path
path-IsPath = (
  (omega arith, (omega arith, (omega arith, (omega arith, tt)))),
  (omega arith, (omega arith, (omega arith, (omega arith, tt)))),
)

-- "a/.."
abbrev back : List ℕ
back = b'a' ∷ b'/' ∷ b'.' ∷ b'.' ∷ []

back-IsPath : IsPath back
back-IsPath = (
  (omega arith, (omega arith, (omega arith, (omega arith, tt)))),
  (omega arith, (omega arith, (omega arith, (omega arith, tt)))),
)

abbrev a_name : Name
a_name = b'a' ∷ []

abbrev b_name : Name
b_name = b'b' ∷ []

path-Names : Names (a_name ∷ b_name ∷ [])
path-Names = (
  ((λ e. omega arith), (((λ e. omega arith), (λ e. omega arith), omega arith), tt)),
  (((λ e. omega arith), (((λ e. omega arith), (λ e. omega arith), omega arith), tt)), tt),
)

-- All names taken back: the result is empty, as `path_size` still counts them.
canonicalize_path_run :
    canonicalize_path true 20 [] (b'/' ∷ back) ≡ some (record { text = []; overrun = 0 })
unfolding canonicalize_path combined for_tokens strtok_r strspn strcspn strchr add_part same_key
    strcmp ◌-ℤ◌ join_parts
canonicalize_path_run = refl

abbrev two_parts : List Name
two_parts = a_name ∷ b_name ∷ []

for_tokens-pieces_example :
    for_tokens true add_part 5 (c_string path []) (record { list = []; path_size = 0 })
    ≡ some (for_each add_part (pieces path) (record { list = []; path_size = 0 }))
for_tokens-pieces_example =
    for_tokens-pieces add_part 5 path [] (record { list = []; path_size = 0 }) path-IsPath
      (omega arith)

abbrev under_b : Written
under_b = record { text = b'/' ∷ b'b' ∷ b'/' ∷ back; overrun = 1 }

under_b-IsPath : IsPath under_b.text
under_b-IsPath = (
  (
    omega arith,
    (omega arith, (omega arith, (omega arith, (omega arith, (omega arith, (omega arith, tt)))))),
  ),
  (
    omega arith,
    (omega arith, (omega arith, (omega arith, (omega arith, (omega arith, (omega arith, tt)))))),
  ),
)

under_b-combined : combined (b'/' ∷ b_name) back ≡ some under_b
unfolding combined last_byte
under_b-combined = refl

canonicalize_path-resolve_example :
    canonicalize_path true 8 (b'/' ∷ b_name) back
    ≡ some (record {
      text =
          if any_ordinary (pieces under_b.text)
          then joined (reverse (resolve [] (pieces under_b.text)))
          else b'/' ∷ [];
      overrun = 1;
    })
canonicalize_path-resolve_example =
    canonicalize_path-resolve 8 (b'/' ∷ b_name) back under_b under_b-combined under_b-IsPath
      (omega arith) (omega arith)

size_two : length (joined two_parts) ≡ 4
unfolding joined
size_two = refl

two-Ordinary : Ordinary two_parts
unfolding is_ordinary same_key strcmp ◌-ℤ◌
two-Ordinary = (refl, (refl, tt))

canonicalize_path-joined_example :
    canonicalize_path true 5 [] (joined two_parts)
    ≡ some (record { text = joined two_parts; overrun = 0 })
canonicalize_path-joined_example =
    canonicalize_path-joined 5 [] a_name (b_name ∷ []) path-Names two-Ordinary
      (omega (arith, size_two)) (omega (arith, size_two))

b_last : last_byte (b'/' ∷ b_name) ≡ some b'b'
unfolding last_byte
b_last = refl

b_IsPath : IsPath (b'/' ∷ b_name)
b_IsPath = ((omega arith, (omega arith, tt)), (omega arith, (omega arith, tt)))

canonicalize_path-overrun_example :
    (w : Written) × (canonicalize_path true 8 (b'/' ∷ b_name) back ≡ some w) × (w.overrun ≡ 1)
canonicalize_path-overrun_example =
    canonicalize_path-overrun 8 (b'/' ∷ b_name) back b'b' b_last b_IsPath back-IsPath (omega arith)
      (omega arith)

-- a tree with a root that is mounted nowhere
abbrev root_node : TreeNode
root_node = record {
  value = record { name = b'/' ∷ []; fs_type = none; node = none };
  children = [];
  parent = none;
}

abbrev one_node : Tree
one_node = record { nodes = 1; root = some 0; heap = λ j. root_node; fresh = 1 }

one_node-Allocated : Allocated one_node
unfolding Allocated
one_node-Allocated j h = tt

abbrev vfs : Vfs
vfs = record {
  vfs_tree = some one_node;
  vfs_filesystems = some (Hashmap.create 10);
  vfs_lock = false;
}

vfs_mount-Mounted_example :
    (n : ℕ) × (u : Tree) × (vfs_mount true 5 (some 7) (some path) vfs
      ≡ done (some n) (record (set_tree vfs u) { vfs_lock = false }))
    × Mounted one_node u 0 n 7 (pieces path)
vfs_mount-Mounted_example =
    vfs_mount-Mounted 5 7 0 path one_node vfs refl refl refl one_node-Allocated (omega arith)
      path-IsPath refl (omega arith)

-- Nodes without functions: the state is the address of the next copy.
abbrev plain : Drivers ℕ
plain = record {
  node = λ w n. record {
    flags = 1;
    open_fn = none;
    close_fn = none;
    read_fn = none;
    write_fn = none;
    readdir_fn = none;
    finddir_fn = none;
  };
  clone = λ n w. (w, w + 1);
  kfree = λ n w. w;
  run_open = λ f n flags w. w;
  run_close = λ f n w. w;
  run_read = λ f n offset size buffer w. (0, w);
  run_write = λ f n offset size buffer w. (0, w);
  run_readdir = λ f n index w. (none, w);
  run_finddir = λ f n name w. (none, w);
}

kopen-opened_example :
    kopen plain true 5 one_node 0 (some (c_string (joined two_parts) [])) 0 9
    ≡ opened plain one_node 0 two_parts 0 9
kopen-opened_example =
    kopen-opened plain 5 one_node 0 two_parts [] 0 9 path-Names (omega (arith, size_two))
      (omega (arith, size_two))

kopen-mount_example :
    (n : ℕ) × (u : Tree) × (vfs_mount true 5 (some 7) (some (joined two_parts)) vfs
      ≡ done (some n) (record (set_tree vfs u) { vfs_lock = false }))
    × (kopen plain true 5 u 0 (some (c_string (joined two_parts) [])) 0 9
        ≡ finish_node plain (some 7) 0 9)
kopen-mount_example =
    kopen-mount plain 5 7 0 a_name (b_name ∷ []) one_node vfs 0 9 refl refl refl one_node-Allocated
      (omega arith) path-Names (omega (arith, size_two)) (omega (arith, size_two))

abbrev heap : ℕ → TreeNode
heap j = root_node

abbrev initialised : Vfs
unfolding vfs_init
initialised = state_of vfs (vfs_init heap 0 vfs)

initialised-Reachable : Reachable heap initialised
unfolding vfs_init
initialised-Reachable = start vfs initialised refl

Reachable-mount_example :
    Ready initialised
    × ((n : ℕ) × (u : Tree) × (root : ℕ) × (vfs_mount true 5 (some 7) (some path) initialised
          ≡ done (some n) (record (set_tree initialised u) { vfs_lock = false }))
        × (lookup u root (pieces path) ≡ some n)
        × ((u.heap n).value.node ≡ some 7))
Reachable-mount_example =
    Reachable-mount heap initialised 5 7 path initialised-Reachable path-IsPath refl (omega arith)

-- one file system, whose callback gives the node 7
abbrev files : ℕ → Filesystem
files j = record { name = a_name; mount = some 5 }

abbrev run : ℕ → Option Name → Option Name → Op Vfs (Option ℕ)
run callback argp mountpoint s = done (some 7) s

table-IsValid : IsValid (Hashmap.create 10)
table-IsValid = (create-IsValid 10 (omega arith)).0

names_differ : b_name ≢ a_name
names_differ e = omega (arith, ap first_byte e)

mount_type-register_example :
    (t : Vfs) × (vfs_register_filesystem 3 (files 3) vfs ≡ done 0 t)
    × (vfs_mount_filesystem_type files run true 5 (some a_name) none none t
        ≡ with_node files run true 5 a_name none (run 5 none none t))
    × (vfs_mount_filesystem_type files run true 5 (some b_name) none none t ≡ done none t)
mount_type-register_example =
    mount_type-register files run true 5 none none 3 5 (Hashmap.create 10) vfs b_name refl
      table-IsValid (omega arith, tt) (omega arith) refl (omega arith, tt) names_differ
      ((create-IsValid 10 (omega arith)).1 b_name)
