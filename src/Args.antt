-- ===== src/Args.antt =====
-- hexahedron/misc/args.c: the arguments of the kernel, parsed in place and put into a hash table of 10
-- buckets. The string is the list of its bytes without the NUL; `strdup` is a parameter, which gives
-- the address of the copy.
mod Fuel
mod Examples
use hexahedron.Base.{
  ℕ, zero, suc, ◌+◌, Bool, true, false, ◌||◌, Option, none, some, List, [], ◌∷◌, ◌++◌, ◌==◌,
  if◌then◌else◌, length, drop,
}
use hexahedron.Hashmap
use hexahedron.Hashmap.{Hashmap, Key}

-- the spaces before an argument
unfoldable pub skip_blanks : List ℕ → List ℕ
skip_blanks [] = []
skip_blanks (c ∷ s) = let rest = skip_blanks s in if c == b' ' then rest else c ∷ s

-- the name, up to a space or an equals sign, and what follows
unfoldable pub read_name : List ℕ → List ℕ × List ℕ
read_name [] = ([], [])
read_name (c ∷ s) =
    let (name, rest) = read_name s in
    if c == b' ' || c == b'=' then ([], c ∷ s) else (c ∷ name, rest)

-- How a quoted value ends: at its quote, at the end of the string, or with an escape that lacks its
-- character. The bytes are those written through `y`.
pub data Quoted : Type 0 where
  closed : List ℕ → List ℕ → Quoted
  unclosed : List ℕ → Quoted
  failed : Quoted

abbrev pub written : List ℕ → Quoted → Quoted
written y (closed v rest) = closed (y ++ v) rest
written y (unclosed v) = unclosed (y ++ v)
written y failed = failed

unfoldable pub read_quoted : List ℕ → Quoted
read_quoted [] = unclosed []
read_quoted (c ∷ []) =
    if c == b'"' then closed [] [] else if c == b'\\' then failed else unclosed (c ∷ [])
read_quoted (c ∷ d ∷ s) =
    let next = read_quoted (d ∷ s) in
    let after = read_quoted s in
    if c == b'"'
    then closed [] (d ∷ s)
    else if c == b'\\'
    then written (if d == b'"' || d == b'\\' then d ∷ [] else b'\\' ∷ d ∷ []) after
    else written (c ∷ []) next

-- a value without quotes, up to a space, and what follows the space
unfoldable pub read_plain : List ℕ → List ℕ × List ℕ
read_plain [] = ([], [])
read_plain (c ∷ s) =
    let (value, rest) = read_plain s in if c == b' ' then ([], s) else (c ∷ value, rest)

-- What follows a name: its value, if any, and the rest of the string; none if the parser gives up. An
-- unclosed value has no NUL behind the bytes written, and goes on with those that were read.
unfoldable pub read_value : List ℕ → Option (Option (List ℕ) × List ℕ)
unfolding read_quoted read_plain
read_value [] = some (none, [])
read_value (c ∷ []) = if c == b'=' then some (some [], []) else some (none, [])
read_value (c ∷ d ∷ s) =
    if c == b'='
    then (if d == b'"'
        then elim (read_quoted s) [
          | closed v rest ↦ some (some v, rest)
          | unclosed v ↦ some (some (v ++ drop (length v) s), [])
          | failed ↦ none
        ]
        else (let (v, rest) = read_plain (d ∷ s) in some (some v, rest)))
    else some (none, d ∷ s)

-- The arguments in order, on fuel; `none` means that it ran out.
unfoldable pub parse : ℕ → List ℕ → Option (List (List ℕ × Option (List ℕ)))
unfolding skip_blanks read_name read_value
parse zero s = none
parse (suc fuel) s = elim (skip_blanks s) [
  | [] ↦ some []
  | c ∷ t ↦
      let (name, rest) = read_name (c ∷ t) in
      elim (read_value rest) [
        | none ↦ some []
        | some (value, after) ↦ elim (parse fuel after) [
          | none ↦ none
          | some args ↦ some ((name, value) ∷ args)
        ]
      ]
]

abbrev pub pointer : (strdup : List ℕ → ℕ) → Option (List ℕ) → ℕ
pointer strdup none = 0
pointer strdup (some v) = strdup v

unfoldable pub set_all : (List ℕ → ℕ) → Hashmap → List (List ℕ × Option (List ℕ)) → Option Hashmap
set_all strdup map [] = some map
set_all strdup map ((name, value) ∷ args) = elim (Hashmap.set map name (pointer strdup value)) [
  | none ↦ none
  | some next ↦ set_all strdup next args
]

-- `kargs` is none as long as it is NULL.
unfoldable pub init : (List ℕ → ℕ) → Option (List ℕ) → Option (Option Hashmap)
unfolding parse set_all
init strdup none = some none
init strdup (some s) = elim (parse (suc (length s)) s) [
  | none ↦ none
  | some args ↦ elim (set_all strdup (Hashmap.create 10) args) [
    | none ↦ none
    | some m ↦ some (some m)
  ]
]

unfoldable pub get : Option Hashmap → Key → Option ℕ
get none arg = some 0
get (some kargs) arg = Hashmap.get kargs arg

unfoldable pub has : Option Hashmap → Key → Option ℕ
has none arg = some 0
has (some kargs) arg = Hashmap.has kargs arg
