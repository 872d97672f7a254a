-- ===== src/Args/Fuel.antt =====
-- The parser of the arguments ends: each argument takes at least a byte from the string.
use hexahedron.Base.{
  ℕ, zero, suc, ◌≤◌, ◌<◌, ◌≡◌, refl, inl, inr, ◌⊎◌, Bool, true, false, ◌||◌, Option, none, some,
  List, [], ◌∷◌, ◌++◌, arith, ◌==◌, if◌then◌else◌, length, drop,
}
use hexahedron.Args.{
  skip_blanks, read_name, Quoted, closed, unclosed, failed, written, read_quoted, read_plain,
  read_value, parse,
}

skip_blanks_le : (s : List ℕ) → length (skip_blanks s) ≤ length s
unfolding skip_blanks
skip_blanks_le [] = omega arith
skip_blanks_le (c ∷ s) = ground (arith, skip_blanks_le s)

read_name_le : (s : List ℕ) → length (read_name s).1 ≤ length s
unfolding read_name
read_name_le [] = omega arith
read_name_le (c ∷ s) = ground (arith, read_name_le s)

-- the bytes left behind a quoted value
abbrev left : Quoted → ℕ
left (closed v rest) = length rest
left (unclosed v) = 0
left failed = 0

left-written : (y : List ℕ) (q : Quoted) → left (written y q) ≡ left q
left-written y (closed v rest) = refl
left-written y (unclosed v) = refl
left-written y failed = refl

branches :
    (quote escape : Bool) (rest y z : List ℕ) (q r : Quoted) {n : ℕ}
    → length rest ≤ n
    → left q ≤ n
    → left r ≤ n
    → left (if quote then closed [] rest else if escape then written y q else written z r) ≤ n
branches true escape rest y z q r a b c = a
branches false true rest y z q r a b c = omega (arith, left-written y q, b)
branches false false rest y z q r a b c = omega (arith, left-written z r, c)

read_quoted_le : (s : List ℕ) → left (read_quoted s) ≤ length s
unfolding read_quoted
read_quoted_le [] = omega arith
read_quoted_le (c ∷ []) = ground arith
read_quoted_le (c ∷ d ∷ s) =
    branches (c == b'"') (c == b'\\') (d ∷ s)
      (if d == b'"' || d == b'\\' then d ∷ [] else b'\\' ∷ d ∷ []) (c ∷ []) (read_quoted s)
      (read_quoted (d ∷ s)) (omega arith) (omega (arith, read_quoted_le s))
      (omega (arith, read_quoted_le (d ∷ s)))

read_plain_le : (s : List ℕ) → length (read_plain s).1 ≤ length s
unfolding read_plain
read_plain_le [] = omega arith
read_plain_le (c ∷ s) = ground (arith, read_plain_le s)

-- the bytes left behind a value
abbrev behind : Option (Option (List ℕ) × List ℕ) → ℕ
behind none = 0
behind (some (v, rest)) = length rest

quoted_behind :
    (s : List ℕ) (q : Quoted)
    → behind (elim q [
      | closed v rest ↦ some (some v, rest)
      | unclosed v ↦ some (some (v ++ drop (length v) s), [])
      | failed ↦ none
    ])
      ≡ left q
quoted_behind s (closed v rest) = refl
quoted_behind s (unclosed v) = refl
quoted_behind s failed = refl

read_value_lt : (c : ℕ) (s : List ℕ) → behind (read_value (c ∷ s)) ≤ length s
unfolding read_value
read_value_lt c [] = ground arith
read_value_lt c (d ∷ s) =
    ground (arith, quoted_behind s (read_quoted s), read_quoted_le s, read_plain_le (d ∷ s))

parse_step :
    (name : List ℕ) (o : Option (Option (List ℕ) × List ℕ))
    (p : List ℕ → Option (List (List ℕ × Option (List ℕ)))) {n : ℕ}
    → behind o ≤ n
    → ((t : List ℕ) → length t ≤ n → (args : List (List ℕ × Option (List ℕ))) × (p t ≡ some args))
    → (args : List (List ℕ × Option (List ℕ))) × (elim o [
      | none ↦ some []
      | some (value, after) ↦ elim (p after) [
        | none ↦ none
        | some args ↦ some ((name, value) ∷ args)
      ]
    ]
        ≡ some args)
parse_step name none p h f = ([], refl)
parse_step name (some (value, after)) p h f =
    let (args, e) = f after h in ((name, value) ∷ args, rw e refl)

value_le :
    (c : ℕ) (t rest : List ℕ) → length rest ≤ length (c ∷ t) → behind (read_value rest) ≤ length t
value_le c t [] h = unfold read_value in omega arith
value_le c t (d ∷ s) h = omega (arith, h, read_value_lt d s)

List-cases : (s : List ℕ) → (s ≡ []) ⊎ ((c : ℕ) × (t : List ℕ) × (s ≡ c ∷ t))
List-cases [] = inl refl
List-cases (c ∷ t) = inr (c, t, refl)

-- With more fuel than the string has bytes, the parser of the arguments ends with a list of
-- arguments, so the loop of `kargs_init` terminates on every string.
pub parse_lem :
    (fuel : ℕ) (s : List ℕ)
    → length s < fuel
    → (args : List (List ℕ × Option (List ℕ))) × (parse fuel s ≡ some args)
unfolding parse
parse_lem zero s h = elim h [ ]
parse_lem (suc fuel) s h = elim (List-cases (skip_blanks s)) [
  | inl e ↦ ([], rw (parse, e) refl)
  | inr (c, t, e) ↦
      let shorter : length (c ∷ t) ≤ length s = rw e at (skip_blanks_le s) in
      let (args, called) =
        parse_step (read_name (c ∷ t)).0 (read_value (read_name (c ∷ t)).1) (parse fuel)
          (value_le c t (read_name (c ∷ t)).1 (read_name_le (c ∷ t)))
          (λ u l. parse_lem fuel u (omega arith)) in
      (args, rw (parse, e) called)
]
