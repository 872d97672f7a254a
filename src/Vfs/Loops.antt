-- ===== src/Vfs/Loops.antt =====
-- The loops over the tokens of a path are loops over its pieces.
use hexahedron.Base.{
  ℕ, zero, suc, ◌+◌, ◌<◌, ◌≡◌, refl, ap, ◌∙◌, sym, ◌≢◌, Bool, true, false, none, some, List, [],
  ◌∷◌, ◌++◌, arith, ◌==◌, if◌then◌else◌, All, All-split, length, length-append, drop, append_assoc,
  Bool-cases, inl, inr, Option, append-nil,
}
use hexahedron.Libc.Strings.{Buffer, c_string}
use hexahedron.Libc.Strings.Compare.{IsText}
use hexahedron.Libc.Strings.Span.{IsBytes}
use hexahedron.Libc.Strings.Tokens.{strtok_r}
use hexahedron.Vfs.{Name, text_at, Turn, next, stop, slash, for_tokens}
use hexahedron.Vfs.Pieces.{pieces, for_each, IsSlashes, IsPlain, View, blank, last, more, before}
use hexahedron.Vfs.Tokens.{
  IsPlain-IsText, strtok_r-blank, strtok_r-last, strtok_r-more, text_at-c_string, drop-length,
}

-- A path is a text of bytes.
abbrev pub IsPath : List ℕ → Type 0
IsPath s = IsText s × IsBytes s

View-plain : (c : ℕ) (s : List ℕ) → c ≢ 0 → c ≢ b'/' → c < 256 → View s → View (c ∷ s)
View-plain c s h0 h1 h2 (blank [] h) = last [] c [] tt ((h0, h1, h2), tt)
View-plain c s h0 h1 h2 (blank (d ∷ front) (hd, h)) =
    rw hd (more [] c [] front tt ((h0, h1, h2), tt))
View-plain c s h0 h1 h2 (last [] d piece h hp) = last [] c (d ∷ piece) tt ((h0, h1, h2), hp)
View-plain c s h0 h1 h2 (last (e ∷ front) d piece (he, h) hp) =
    rw he (more [] c [] (front ++ (d ∷ piece)) tt ((h0, h1, h2), tt))
View-plain c s h0 h1 h2 (more [] d piece t h hp) = more [] c (d ∷ piece) t tt ((h0, h1, h2), hp)
View-plain c s h0 h1 h2 (more (e ∷ front) d piece t (he, h) hp) =
    rw he (more [] c [] (front ++ (d ∷ (piece ++ (b'/' ∷ t)))) tt ((h0, h1, h2), tt))

View-slash : (c : ℕ) (s : List ℕ) → c ≡ b'/' → View s → View (c ∷ s)
View-slash c s e (blank front h) = blank (c ∷ front) (e, h)
View-slash c s e (last front d piece h hp) = last (c ∷ front) d piece (e, h) hp
View-slash c s e (more front d piece t h hp) = more (c ∷ front) d piece t (e, h) hp

view : (s : List ℕ) → IsPath s → View s
view [] h = blank [] tt
view (c ∷ s) ((hc, hs), (bc, bs)) = elim (Bool-cases (c == b'/')) [
  | inl same ↦ View-slash c s (ground arith) (view s (hs, bs))
  | inr other ↦ View-plain c s hc (λ e. ground arith) bc (view s (hs, bs))
]

pub pieces-slashes : (front s : List ℕ) → IsSlashes front → pieces (front ++ s) ≡ pieces s
unfolding pieces
pieces-slashes [] s h = refl
pieces-slashes (c ∷ front) s (hc, h) = rw hc (pieces-slashes front s h)

pieces_plain : (c : ℕ) (s : List ℕ) → c ≢ b'/' → pieces (c ∷ s) ≡ before c s (pieces s)
unfolding pieces
pieces_plain c s h = let c' : (c == b'/') ≡ false = ground arith in rw c' refl

before_same :
    (c d : ℕ) (s p : List ℕ) (ps : List Name) → d ≢ b'/' → before c (d ∷ s) (p ∷ ps) ≡ (c ∷ p) ∷ ps
before_same c d s p ps h = let d' : (d == b'/') ≡ false = ground arith in rw d' refl

before_slash : (c : ℕ) (s : List ℕ) (ps : List Name) → before c (b'/' ∷ s) ps ≡ (c ∷ []) ∷ ps
before_slash c s [] = refl
before_slash c s (p ∷ ps) = refl

pieces_nil : pieces [] ≡ []
unfolding pieces
pieces_nil = refl

pub pieces-last :
    (c : ℕ) (piece : List ℕ) → IsPlain (c ∷ piece) → pieces (c ∷ piece) ≡ (c ∷ piece) ∷ []
pieces-last c [] ((h0, h1, h2), h) = pieces_plain c [] h1 ∙ ap (before c []) pieces_nil
pieces-last c (d ∷ piece) ((h0, h1, h2), ((g0, g1, g2), h)) =
    pieces_plain c (d ∷ piece) h1
    ∙ ap (before c (d ∷ piece)) (pieces-last d piece ((g0, g1, g2), h))
    ∙ before_same c d piece (d ∷ piece) [] g1

pieces_slash : (s : List ℕ) → pieces (b'/' ∷ s) ≡ pieces s
unfolding pieces
pieces_slash s = refl

pub pieces-more :
    (c : ℕ) (piece s : List ℕ)
    → IsPlain (c ∷ piece)
    → pieces (c ∷ (piece ++ (b'/' ∷ s))) ≡ (c ∷ piece) ∷ pieces s
pieces-more c [] s ((h0, h1, h2), h) =
    pieces_plain c (b'/' ∷ s) h1
    ∙ before_slash c s (pieces (b'/' ∷ s))
    ∙ ap (λ ps. (c ∷ []) ∷ ps) (pieces_slash s)
pieces-more c (d ∷ piece) s ((h0, h1, h2), ((g0, g1, g2), h)) =
    pieces_plain c (d ∷ (piece ++ (b'/' ∷ s))) h1
    ∙ ap (before c (d ∷ (piece ++ (b'/' ∷ s)))) (pieces-more d piece s ((g0, g1, g2), h))
    ∙ before_same c d (piece ++ (b'/' ∷ s)) (d ∷ piece) (pieces s) g1

behind :
    (P : ℕ → Type 0) (front : List ℕ) (c : ℕ) (piece s : List ℕ)
    → All P (front ++ (c ∷ (piece ++ (b'/' ∷ s))))
    → All P s
behind P front c piece s h =
    let (_, rest) = All-split P front (c ∷ (piece ++ (b'/' ∷ s))) h in
    let (_, (_, found)) = All-split P (c ∷ piece) (b'/' ∷ s) rest in found

module _ {S : Type 0} (body : Name → S → Turn S) where
  -- what the loop does with the result of its body
  abbrev turned : Bool → ℕ → Option ℕ → Buffer → Turn S → Option S
  turned null_ends fuel lasts text turn = elim turn [
    | stop state ↦ some state
    | next state ↦ elim lasts [
      | none ↦ if null_ends then some state else none
      | some k ↦ for_tokens null_ends body fuel (drop k text) state
    ]
  ]

  for_tokens-token :
      (null_ends : Bool) (fuel : ℕ) (s text : Buffer) (n : ℕ) (lasts : Option ℕ) (state : S)
      → strtok_r s slash ≡ some (record { token = some n; lasts = lasts; text = text })
      → for_tokens null_ends body (suc fuel) s state
        ≡ turned null_ends fuel lasts text (body (text_at (drop n text)) state)
  unfolding for_tokens
  for_tokens-token null_ends fuel s text n lasts state e = rw (for_tokens, e) refl

  for_tokens-none :
      (null_ends : Bool) (fuel : ℕ) (s text : Buffer) (lasts : Option ℕ) (state : S)
      → strtok_r s slash ≡ some (record { token = none; lasts = lasts; text = text })
      → for_tokens null_ends body (suc fuel) s state ≡ some state
  unfolding for_tokens
  for_tokens-none null_ends fuel s text lasts state e = rw (for_tokens, e) refl

  turned-last :
      (fuel : ℕ) (text : Buffer) (p : Name) (state : S) (turn : Turn S)
      → body p state ≡ turn
      → turned true fuel none text turn ≡ some (for_each body (p ∷ []) state)
  unfolding for_each
  turned-last fuel text p state (stop s) e = rw (for_each, e) refl
  turned-last fuel text p state (next s) e = rw (for_each, e) refl

  turned-more :
      (fuel k : ℕ) (text : Buffer) (p : Name) (ps : List Name) (state : S) (turn : Turn S)
      → body p state ≡ turn
      → ((s : S) → for_tokens true body fuel (drop k text) s ≡ some (for_each body ps s))
      → turned true fuel (some k) text turn ≡ some (for_each body (p ∷ ps) state)
  unfolding for_each
  turned-more fuel k text p ps state (stop s) e h = rw (for_each, e) refl
  turned-more fuel k text p ps state (next s) e h = rw (for_each, e) (h s)

  -- the token that starts behind the slashes
  token_text :
      (front p rest : List ℕ)
      → IsText p
      → text_at (drop (length front) (front ++ (c_string p rest))) ≡ p
  token_text front p rest h =
      ap text_at (drop-length front (c_string p rest)) ∙ text_at-c_string p rest h

  -- what stands behind the slash that ends a token
  text_left :
      (front p s : List ℕ) → drop (length front + length p + 1) (front ++ (c_string p s)) ≡ s
  text_left front p s =
      let e : length (front ++ (p ++ (0 ∷ []))) ≡ length front + length p + 1 =
        omega (arith, length-append front (p ++ (0 ∷ [])), length-append p (0 ∷ [])) in
      ap (λ n. drop n (front ++ (c_string p s))) (sym e)
      ∙ ap (drop (length (front ++ (p ++ (0 ∷ []))))) (
          ap (λ t. front ++ t) (sym (append_assoc p (0 ∷ []) s))
          ∙ sym (append_assoc front (p ++ (0 ∷ [])) s))
      ∙ drop-length (front ++ (p ++ (0 ∷ []))) s

  over-View :
      (fuel : ℕ) (path rest : List ℕ) (state : S)
      → View path
      → IsPath path
      → length path < fuel
      → for_tokens true body fuel (c_string path rest) state
        ≡ some (for_each body (pieces path) state)
  unfolding for_each
  over-View zero path rest state v h b = absurd (omega arith)
  over-View (suc fuel) path rest state (blank front hf) h b =
      let e : pieces front ≡ pieces [] =
        ap pieces (sym (append-nil front)) ∙ pieces-slashes front [] hf in
      for_tokens-none true fuel _ _ _ state (strtok_r-blank front rest hf)
      ∙ ap (λ ps. some (for_each body ps state)) (sym (e ∙ pieces_nil))
  over-View (suc fuel) path rest state (last front c piece hf hp) h b =
      let e = pieces-slashes front (c ∷ piece) hf ∙ pieces-last c piece hp in
      let t =
        ap (λ t. text_at (drop (length front) t)) (append_assoc front (c ∷ piece) (0 ∷ rest))
        ∙ token_text front (c ∷ piece) rest (IsPlain-IsText (c ∷ piece) hp) in
      for_tokens-token true fuel _ _ _ _ state (strtok_r-last front c piece rest hf hp)
      ∙ turned-last fuel (c_string (front ++ (c ∷ piece)) rest) (c ∷ piece) state _
          (ap (λ p. body p state) (sym t))
      ∙ ap (λ ps. some (for_each body ps state)) (sym e)
  over-View (suc fuel) path rest state (more front c piece s hf hp) h b =
      let e = pieces-slashes front (c ∷ (piece ++ (b'/' ∷ s))) hf ∙ pieces-more c piece s hp in
      let ht = behind _ front c piece s h.0 in
      let hb = behind _ front c piece s h.1 in
      let l : length s < fuel =
        omega (
          arith,
          length-append front (c ∷ (piece ++ (b'/' ∷ s))),
          length-append piece (b'/' ∷ s),
        ) in
      let t = token_text front (c ∷ piece) (c_string s rest) (IsPlain-IsText (c ∷ piece) hp) in
      for_tokens-token true fuel _ _ _ _ state (strtok_r-more front c piece s rest hf hp ht hb)
      ∙ turned-more fuel (length front + length (c ∷ piece) + 1)
          (front ++ (c_string (c ∷ piece) (c_string s rest))) (c ∷ piece) (pieces s) state _
          (ap (λ p. body p state) (sym t))
          (λ s'.
            ap (λ t. for_tokens true body fuel t s') (text_left front (c ∷ piece) (c_string s rest))
            ∙ over-View fuel s rest s' (view s (ht, hb)) (ht, hb) l)
      ∙ ap (λ ps. some (for_each body ps state)) (sym e)

-- With a NUL byte at address 0, and fuel above the path's length, the loop over the tokens of a path
-- is the loop over its pieces.
pub for_tokens-pieces :
    {S : Type 0} (body : Name → S → Turn S) (fuel : ℕ) (path rest : List ℕ) (state : S)
    → IsPath path
    → length path < fuel
    → for_tokens true body fuel (c_string path rest) state
      ≡ some (for_each body (pieces path) state)
for_tokens-pieces body fuel path rest state h b =
    over-View body fuel path rest state (view path h) h b
