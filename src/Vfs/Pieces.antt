-- ===== src/Vfs/Pieces.antt =====
-- The pieces of a path between its slashes, which the loops over its tokens go through, and the
-- shapes that a path has.
use hexahedron.Base.{ℕ, ◌<◌, ◌≡◌, ◌≢◌, List, [], ◌∷◌, ◌++◌, ◌==◌, if◌then◌else◌, All}
use hexahedron.Vfs.{Name, Turn, next, stop}

-- A byte before the pieces of what follows it: it joins the first of them if that starts at once.
abbrev pub before : ℕ → List ℕ → List Name → List Name
before c [] ps = (c ∷ []) ∷ ps
before c (d ∷ s) [] = (c ∷ []) ∷ []
before c (d ∷ s) (p ∷ ps) = if d == b'/' then (c ∷ []) ∷ (p ∷ ps) else (c ∷ p) ∷ ps

-- the maximal runs of bytes other than '/'
unfoldable pub pieces : List ℕ → List Name
pieces [] = []
pieces (c ∷ s) = let ps = pieces s in if c == b'/' then ps else before c s ps

-- A loop over a list whose body may break.
unfoldable pub for_each : {S : Type 0} → (Name → S → Turn S) → List Name → S → S
for_each body [] state = state
for_each body (p ∷ ps) state = elim (body p state) [
  | stop state' ↦ state'
  | next state' ↦ for_each body ps state'
]

abbrev pub IsSlashes : List ℕ → Type 0
IsSlashes = All (λ c. c ≡ b'/')

-- bytes that a name can have
abbrev pub IsPlain : List ℕ → Type 0
IsPlain = All (λ c. (c ≢ 0) × (c ≢ b'/') × (c < 256))

-- A path is slashes, or slashes and a last piece, or those and a slash before another path.
pub data View : List ℕ → Type 0 where
  blank : (front : List ℕ) → IsSlashes front → View front
  last :
      (front : List ℕ) (c : ℕ) (piece : List ℕ)
      → IsSlashes front
      → IsPlain (c ∷ piece)
      → View (front ++ (c ∷ piece))
  more :
      (front : List ℕ) (c : ℕ) (piece s : List ℕ)
      → IsSlashes front
      → IsPlain (c ∷ piece)
      → View (front ++ (c ∷ (piece ++ (b'/' ∷ s))))
