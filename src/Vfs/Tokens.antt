-- ===== src/Vfs/Tokens.antt =====
-- `strtok_r` at the slashes of a path, on the three shapes that a path has.
use hexahedron.Base.{
  ℕ, ◌+◌, ◌≡◌, refl, ap, ◌∙◌, ◌≢◌, Bool, true, false, not, none, some, List, [], ◌∷◌, ◌++◌, arith,
  ◌==◌, All, All-split, length, length-append, get_elem?, drop, append_assoc, sym, append-nil,
  Option, All-append, All-map,
}
use hexahedron.Libc.Strings.{c_string, strspn, strcspn}
use hexahedron.Libc.Strings.Search.{strchr-nul}
use hexahedron.Libc.Strings.Compare.{IsText}
use hexahedron.Libc.Strings.Span.{
  prefix_length, contains, IsBytes, strspn-prefix_length, strcspn-prefix_length,
}
use hexahedron.Libc.Strings.Tokens.{strtok_r, strpbrk, cut, write}
use hexahedron.Vfs.{text_at, slash}
use hexahedron.Vfs.Pieces.{IsSlashes, IsPlain}

abbrev is_slash : ℕ → Bool
is_slash c = c == b'/'

IsSlashes-IsText : (front : List ℕ) → IsSlashes front → IsText front
IsSlashes-IsText [] h = tt
IsSlashes-IsText (c ∷ front) (hc, h) = ((λ e. omega arith), IsSlashes-IsText front h)

prefix_length-slashes :
    (front s : List ℕ) (p : ℕ → Bool)
    → All (λ c. p c ≡ true) front
    → prefix_length p (front ++ s) ≡ length front + prefix_length p s
unfolding prefix_length
prefix_length-slashes [] s p h = ground arith
prefix_length-slashes (c ∷ front) s p (hc, h) = ground (arith, prefix_length-slashes front s p h)

pub drop-length : {A : Type 0} (xs ys : List A) → drop (length xs) (xs ++ ys) ≡ ys
drop-length [] ys = refl
drop-length (x ∷ xs) ys = drop-length xs ys

get_elem?-length :
    (xs : List ℕ) (y : ℕ) (ys : List ℕ) → get_elem? (xs ++ (y ∷ ys)) (length xs) ≡ some y
get_elem?-length [] y ys = refl
get_elem?-length (x ∷ xs) y ys = get_elem?-length xs y ys

write-length :
    (xs : List ℕ) (y d : ℕ) (ys : List ℕ) → write (xs ++ (y ∷ ys)) (length xs) d ≡ xs ++ (d ∷ ys)
write-length [] y d ys = refl
write-length (x ∷ xs) y d ys = ap (λ t. x ∷ t) (write-length xs y d ys)

pub text_at-c_string : (s rest : List ℕ) → IsText s → text_at (c_string s rest) ≡ s
unfolding text_at
text_at-c_string [] rest h = refl
text_at-c_string (c ∷ s) rest (hc, h) = ground (arith, text_at-c_string s rest h)

contains-slash : (c : ℕ) → contains (b'/' ∷ []) c ≡ is_slash c
unfolding contains
contains-slash c = ground arith

front-in : (front : List ℕ) → IsSlashes front → All (λ c. contains (b'/' ∷ []) c ≡ true) front
unfolding contains
front-in [] h = tt
front-in (c ∷ front) (hc, h) = (ground arith, front-in front h)

piece-out : (piece : List ℕ) → IsPlain piece → All (λ c. not (contains (b'/' ∷ []) c) ≡ true) piece
unfolding contains
piece-out [] h = tt
piece-out (c ∷ piece) ((h0, h1, h2), h) = (ground arith, piece-out piece h)

slash-IsText : IsText (b'/' ∷ [])
slash-IsText = ((λ e. omega arith), tt)

slash-IsBytes : IsBytes (b'/' ∷ [])
slash-IsBytes = (omega arith, tt)

-- `strspn` passes the slashes.
strspn-front :
    (front s whole rest : List ℕ)
    → IsSlashes front
    → IsText whole
    → whole ≡ front ++ s
    → prefix_length (contains (b'/' ∷ [])) s ≡ 0
    → strspn (c_string whole rest) slash ≡ some (length front)
strspn-front front s whole rest h ht e none_left =
    strspn-prefix_length whole (b'/' ∷ []) rest [] ht slash-IsText
    ∙ ap some (
        ap (prefix_length (contains (b'/' ∷ []))) e
        ∙ prefix_length-slashes front s _ (front-in front h)
        ∙ omega (arith, none_left))

pub strtok_r-blank :
    (front rest : List ℕ)
    → IsSlashes front
    → strtok_r (c_string front rest) slash
      ≡ some (record { token = none; lasts = some (length front); text = c_string front rest })
unfolding strtok_r prefix_length
strtok_r-blank front rest h =
    let spanned =
      strspn-front front [] front rest h (IsSlashes-IsText front h) (sym (append-nil front)) refl in
    rw (spanned, get_elem?-length front 0 rest) refl

-- the scan for the end of a piece
strcspn-piece :
    (piece s rest : List ℕ)
    → IsPlain piece
    → IsText (piece ++ s)
    → IsBytes (piece ++ s)
    → prefix_length (λ c. not (contains (b'/' ∷ []) c)) s ≡ 0
    → strcspn (c_string (piece ++ s) rest) slash ≡ some (length piece)
strcspn-piece piece s rest h ht hb none_left =
    strcspn-prefix_length (piece ++ s) (b'/' ∷ []) rest [] ht hb slash-IsText slash-IsBytes
    ∙ ap some (prefix_length-slashes piece s _ (piece-out piece h) ∙ omega (arith, none_left))

-- A token starts behind the slashes; its end is then looked for.
strtok_r-token :
    (front : List ℕ) (c : ℕ) (s rest : List ℕ) (k : Option ℕ)
    → IsSlashes front
    → IsText (front ++ (c ∷ s))
    → c ≢ b'/'
    → strpbrk (c_string (c ∷ s) rest) slash ≡ some k
    → strtok_r (c_string (front ++ (c ∷ s)) rest) slash
      ≡ cut (c_string (front ++ (c ∷ s)) rest) (length front) k
unfolding strtok_r prefix_length contains
strtok_r-token front c s rest k h ht hc found =
    let c' : (c == 0) ≡ false = (let (a, (b, _)) = All-split _ front (c ∷ s) ht in ground arith) in
    let spanned = strspn-front front (c ∷ s) _ rest h ht refl (ground arith) in
    let shape : c_string (front ++ (c ∷ s)) rest ≡ front ++ (c ∷ c_string s rest) =
      append_assoc front (c ∷ s) (0 ∷ rest) in
    let there : get_elem? (c_string (front ++ (c ∷ s)) rest) (length front) ≡ some c =
      ap (λ t. get_elem? t (length front)) shape ∙ get_elem?-length front c _ in
    let behind : drop (length front) (c_string (front ++ (c ∷ s)) rest) ≡ c_string (c ∷ s) rest =
      ap (drop (length front)) shape ∙ drop-length front _ in
    rw (spanned, there, c', behind, found) refl

pub IsPlain-IsText : (s : List ℕ) → IsPlain s → IsText s
IsPlain-IsText s h = All-map s (λ c h'. h'.0) h

pub IsPlain-IsBytes : (s : List ℕ) → IsPlain s → IsBytes s
IsPlain-IsBytes s h = All-map s (λ c h'. h'.2) h

-- The last piece is a token, and `lasts` becomes NULL.
pub strtok_r-last :
    (front : List ℕ) (c : ℕ) (piece rest : List ℕ)
    → IsSlashes front
    → IsPlain (c ∷ piece)
    → strtok_r (c_string (front ++ (c ∷ piece)) rest) slash
      ≡ some (record {
        token = some (length front);
        lasts = none;
        text = c_string (front ++ (c ∷ piece)) rest;
      })
unfolding strpbrk cut prefix_length
strtok_r-last front c piece rest h hp =
    let e : (c ∷ piece) ++ [] ≡ c ∷ piece = append-nil (c ∷ piece) in
    let text = IsPlain-IsText (c ∷ piece) hp in
    let bytes = IsPlain-IsBytes (c ∷ piece) hp in
    let scanned : strcspn (c_string (c ∷ piece) rest) slash ≡ some (length (c ∷ piece)) =
      ap (λ t. strcspn (c_string t rest) slash) (sym e)
      ∙ strcspn-piece (c ∷ piece) [] rest hp (All-append _ (c ∷ piece) [] text tt)
          (All-append _ (c ∷ piece) [] bytes tt) refl in
    let found : strpbrk (c_string (c ∷ piece) rest) slash ≡ some none =
      rw (scanned, get_elem?-length (c ∷ piece) 0 rest) refl in
    let started =
      strtok_r-token front c piece rest none h
        (All-append _ front (c ∷ piece) (IsSlashes-IsText front h) text) (hp.0.1) found in
    let behind : drop (length front) (c_string (front ++ (c ∷ piece)) rest)
        ≡ c_string (c ∷ piece) rest =
      ap (drop (length front)) (append_assoc front (c ∷ piece) (0 ∷ rest)) ∙ drop-length front _ in
    started ∙ rw (behind, strchr-nul (c ∷ piece) rest text) refl

-- A piece before a slash is a token, the slash is overwritten, and `lasts` is behind it.
pub strtok_r-more :
    (front : List ℕ) (c : ℕ) (piece s rest : List ℕ)
    → IsSlashes front
    → IsPlain (c ∷ piece)
    → IsText s
    → IsBytes s
    → strtok_r (c_string (front ++ (c ∷ (piece ++ (b'/' ∷ s)))) rest) slash
      ≡ some (record {
        token = some (length front);
        lasts = some (length front + length (c ∷ piece) + 1);
        text = front ++ (c_string (c ∷ piece) (c_string s rest));
      })
unfolding strpbrk cut prefix_length contains
strtok_r-more front c piece s rest h hp ht hb =
    let text : IsText ((c ∷ piece) ++ (b'/' ∷ s)) =
      All-append _ (c ∷ piece) (b'/' ∷ s) (IsPlain-IsText (c ∷ piece) hp) (slash-IsText.0, ht) in
    let bytes : IsBytes ((c ∷ piece) ++ (b'/' ∷ s)) =
      All-append _ (c ∷ piece) (b'/' ∷ s) (IsPlain-IsBytes (c ∷ piece) hp) (omega arith, hb) in
    let scanned : strcspn (c_string ((c ∷ piece) ++ (b'/' ∷ s)) rest) slash
        ≡ some (length (c ∷ piece)) =
      strcspn-piece (c ∷ piece) (b'/' ∷ s) rest hp text bytes refl in
    let tail : c_string ((c ∷ piece) ++ (b'/' ∷ s)) rest ≡ (c ∷ piece) ++ (b'/' ∷ c_string s rest) =
      append_assoc (c ∷ piece) (b'/' ∷ s) (0 ∷ rest) in
    let there : get_elem? (c_string ((c ∷ piece) ++ (b'/' ∷ s)) rest) (length (c ∷ piece))
        ≡ some b'/' =
      ap (λ t. get_elem? t (length (c ∷ piece))) tail
      ∙ get_elem?-length (c ∷ piece) b'/' (c_string s rest) in
    let found : strpbrk (c_string ((c ∷ piece) ++ (b'/' ∷ s)) rest) slash
        ≡ some (some (length (c ∷ piece))) =
      rw (scanned, there) refl in
    let started =
      strtok_r-token front c (piece ++ (b'/' ∷ s)) rest (some (length (c ∷ piece))) h
        (All-append _ front _ (IsSlashes-IsText front h) text) (hp.0.1) found in
    let split : c_string (front ++ ((c ∷ piece) ++ (b'/' ∷ s))) rest
        ≡ (front ++ (c ∷ piece)) ++ (b'/' ∷ c_string s rest) =
      append_assoc front ((c ∷ piece) ++ (b'/' ∷ s)) (0 ∷ rest)
      ∙ ap (λ t. front ++ t) tail
      ∙ sym (append_assoc front (c ∷ piece) (b'/' ∷ c_string s rest)) in
    let size : length (front ++ (c ∷ piece)) ≡ length front + length (c ∷ piece) =
      length-append front (c ∷ piece) in
    let written : write (c_string (front ++ ((c ∷ piece) ++ (b'/' ∷ s))) rest)
          (length front + length (c ∷ piece)) 0
        ≡ front ++ (c_string (c ∷ piece) (c_string s rest)) =
      ap (λ t. write t (length front + length (c ∷ piece)) 0) split
      ∙ ap (λ n. write ((front ++ (c ∷ piece)) ++ (b'/' ∷ c_string s rest)) n 0) (sym size)
      ∙ write-length (front ++ (c ∷ piece)) b'/' 0 (c_string s rest)
      ∙ append_assoc front (c ∷ piece) (0 ∷ c_string s rest) in
    started ∙ rw written refl
