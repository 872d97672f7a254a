-- ===== src/Vfs.antt =====
-- hexahedron/fs/vfs.c: the virtual file system. This file has the loop over the tokens of a path,
-- which the functions of its children share.
pub mod Pieces
pub mod Tokens
pub mod Loops
pub mod Canonical
pub mod Resolve
pub mod Absolute
pub mod Tree
pub mod Growth
pub mod Mounts
pub mod Mounting
pub mod Mountpoints
pub mod Open
pub mod Opening
pub mod Reachable
pub mod Filesystems
pub mod Registered
mod Examples
use hexahedron.Base.{
  ℕ, zero, suc, ◌+◌, Bool, Option, none, some, List, [], ◌∷◌, ◌==◌, if◌then◌else◌, drop,
}
use hexahedron.Libc.Strings.{Buffer}
use hexahedron.Libc.Strings.Tokens.{Tokenized, strtok_r}

-- the bytes of a file's or a file system's name, without the NUL
abbrev pub Name : Type 0
Name = List ℕ

-- the text that a pointer into a string stands for
unfoldable pub text_at : Buffer → List ℕ
text_at [] = []
text_at (c ∷ s) = if c == 0 then [] else c ∷ text_at s

-- how the body of a loop ends: with the next token, or with a `break`
pub data Turn (S : Type 0) : Type 0 where
  next : S → Turn S
  stop : S → Turn S

-- the separators of all the loops, as a string
abbrev pub slash : Buffer
slash = b'/' ∷ 0 ∷ []

-- `pch = strtok_r(s, "/", &save); while (pch) { ...; pch = strtok_r(NULL, "/", &save); }`. The call
-- behind the last token starts from NULL when that token ends the string, as `strtok_r` has stored
-- NULL then: `null_ends` is whether address 0 can be read and holds a NUL byte, which ends the loop.
unfoldable pub for_tokens : {S : Type 0} → Bool → (Name → S → Turn S) → ℕ → Buffer → S → Option S
unfolding text_at
for_tokens null_ends body zero s state = none
for_tokens null_ends body (suc fuel) s state = elim (strtok_r s slash) [
  | none ↦ none
  | some t ↦ elim (t.token) [
    | none ↦ some state
    | some n ↦ elim (body (text_at (drop n t.text)) state) [
      | stop state' ↦ some state'
      | next state' ↦ elim (t.lasts) [
        | none ↦ if null_ends then some state' else none
        | some k ↦ for_tokens null_ends body fuel (drop k t.text) state'
      ]
    ]
  ]
]
