-- ===== src/Args/Examples.antt =====
-- The parser on `a=1 b "`-like strings, which end in different ways.
use hexahedron.Base.{ℕ, ◌≡◌, refl, Option, none, some, List, [], ◌∷◌, arith}
use hexahedron.Args.{parse}
use hexahedron.Args.Fuel.{parse_lem}

-- ` a=1 b`
abbrev plain : List ℕ
plain = b' ' ∷ b'a' ∷ b'=' ∷ b'1' ∷ b' ' ∷ b'b' ∷ []

-- `k="x\"y" z`
abbrev quoted : List ℕ
quoted = b'k' ∷ b'=' ∷ b'"' ∷ b'x' ∷ b'\\' ∷ b'"' ∷ b'y' ∷ b'"' ∷ b' ' ∷ b'z' ∷ []

plain_run : parse 7 plain ≡ some ((b'a' ∷ [], some (b'1' ∷ [])) ∷ (b'b' ∷ [], none) ∷ [])
unfolding parse
plain_run = refl

quoted_run :
    parse 11 quoted ≡ some ((b'k' ∷ [], some (b'x' ∷ b'"' ∷ b'y' ∷ [])) ∷ (b'z' ∷ [], none) ∷ [])
unfolding parse
quoted_run = refl

-- An unclosed value with an escape: the byte behind the ones written stays.
unclosed_run :
    parse 9 (b'k' ∷ b'=' ∷ b'"' ∷ b'\\' ∷ b'"' ∷ b'y' ∷ [])
    ≡ some ((b'k' ∷ [], some (b'"' ∷ b'y' ∷ b'y' ∷ [])) ∷ [])
unfolding parse
unclosed_run = refl

parse_example : (args : List (List ℕ × Option (List ℕ))) × (parse 7 plain ≡ some args)
parse_example = parse_lem 7 plain (omega arith)
