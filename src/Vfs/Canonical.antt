-- ===== src/Vfs/Canonical.antt =====
-- `vfs_canonicalizePath`: a path made absolute, without its "." and ".." components. Strings are
-- their bytes, without the NUL. A string that is put together is written into an allocation whose size
-- the code has computed; what is written behind it is counted and taken to do no harm.
use hexahedron.Base.{
  ℕ, ◌+◌, ◌-◌, ◌%◌, ◌^◌, Bool, not, Option, none, some, List, [], ◌∷◌, ◌++◌, ◌==◌, if◌then◌else◌,
  length,
}
use hexahedron.Libc.Strings.{c_string}
use hexahedron.Hashmap.{same_key}
use hexahedron.Vfs.{Name, Turn, next, for_tokens}

abbrev pub dot_dot : Name
dot_dot = b'.' ∷ b'.' ∷ []

abbrev pub dot : Name
dot = b'.' ∷ []

-- the string, and the bytes written behind the end of its allocation
pub record Written : Type 0 where
  pub text : List ℕ
  pub overrun : ℕ

-- `sprintf` of a text into `room` bytes, the NUL included
unfoldable pub sprintf_to : ℕ → List ℕ → Written
sprintf_to room text = record { text = text; overrun = length text + 1 - room }

-- `cwd[strlen(cwd)-1]`, which stands in front of an empty string
unfoldable pub last_byte : List ℕ → Option ℕ
last_byte [] = none
last_byte (c ∷ []) = some c
last_byte (c ∷ d ∷ s) = last_byte (d ∷ s)

-- `*addition`
abbrev pub first_byte : List ℕ → ℕ
first_byte [] = 0
first_byte (c ∷ s) = c

-- The path that is cut into pieces: the addition, or both with a slash between them.
unfoldable pub combined : List ℕ → List ℕ → Option Written
unfolding sprintf_to last_byte
combined cwd addition =
    if first_byte addition == b'/'
    then some (record { text = addition; overrun = 0 })
    else elim (last_byte cwd) [
      | none ↦ none
      | some c ↦ some (
          if c == b'/'
          then sprintf_to (length cwd + length addition) (cwd ++ addition)
          else sprintf_to (length cwd + length addition + 1) (cwd ++ (b'/' ∷ addition)))
    ]

-- the list of the names, and `path_size`
pub record Parts : Type 0 where
  pub list : List Name
  pub path_size : ℕ

-- what `list_pop` leaves
unfoldable pub popped : List Name → List Name
popped [] = []
popped (p ∷ []) = []
popped (p ∷ q ∷ ps) = p ∷ popped (q ∷ ps)

-- the body of the loop over the tokens
unfoldable pub add_part : Name → Parts → Turn Parts
unfolding popped
add_part pch s = next (
    if same_key pch dot_dot
    then record s { list = popped s.list }
    else if same_key pch dot
    then s
    else if not (first_byte pch == 0)
    then record { list = s.list ++ (pch ∷ []); path_size = (s.path_size + length pch + 1) % 2 ^ 32 }
    else s)

-- The loop of `sprintf(output, "%s/%s", output, i->value)`, into the `room` bytes of `output`. The
-- bytes of `output` are written over themselves.
unfoldable pub join_parts : ℕ → Written → List Name → Written
unfolding sprintf_to
join_parts room output [] = output
join_parts room output (value ∷ list) =
    let w = sprintf_to room (output.text ++ (b'/' ∷ value)) in
    join_parts room (record { text = w.text; overrun = output.overrun + w.overrun }) list

unfoldable pub canonicalize_path : Bool → ℕ → List ℕ → List ℕ → Option Written
unfolding combined add_part join_parts
canonicalize_path null_ends fuel cwd addition = elim (combined cwd addition) [
  | none ↦ none
  | some path ↦
      elim (for_tokens null_ends add_part fuel (c_string path.text [])
        (record { list = []; path_size = 0 })) [
          | none ↦ none
          | some s ↦ some (
              if s.path_size == 0
              then record { text = b'/' ∷ []; overrun = path.overrun }
              else join_parts (s.path_size + 1) (record { text = []; overrun = path.overrun })
                  s.list)
        ]
]
