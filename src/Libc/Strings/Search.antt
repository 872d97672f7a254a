-- ===== src/Libc/Strings/Search.antt =====
-- `strchr` and `strrchr`: the first and the last byte that is the character.
use hexahedron.Base.{
  ℕ, zero, suc, ◌+◌, ◌<◌, ◌≡◌, refl, Bool, true, false, Option, none, some, List, [], ◌∷◌, ◌++◌,
  arith, ◌==◌, if◌then◌else◌, Bool-cases, inl, inr, length, length-append, append_assoc,
}
use hexahedron.Base.Int.{ℤ, pos}
use hexahedron.Bitmap.Least.{Least, nothing, here, past}
use hexahedron.Libc.Strings.{c_string, char_value, eq_ℤ, strchr_loop, strchr, strrchr_loop, strrchr}
use hexahedron.Libc.Strings.Compare.{IsText}

-- whether the byte at an offset of the text is the character
unfoldable pub holds : List ℕ → ℤ → ℕ → Bool
holds [] ch i = false
holds (c ∷ s) ch zero = eq_ℤ (char_value c) ch
holds (c ∷ s) ch (suc i) = holds s ch i

holds_at :
    (front : List ℕ) (c : ℕ) (s : List ℕ) (ch : ℤ)
    → holds (front ++ (c ∷ s)) ch (length front) ≡ eq_ℤ (char_value c) ch
unfolding holds
holds_at [] c s ch = refl
holds_at (x ∷ front) c s ch = holds_at front c s ch

next_byte : (front : List ℕ) (c : ℕ) (s : List ℕ) → (front ++ (c ∷ [])) ++ s ≡ front ++ (c ∷ s)
next_byte front c s = append_assoc front (c ∷ []) s

next_length : (front : List ℕ) (c : ℕ) → length (front ++ (c ∷ [])) ≡ suc (length front)
next_length front c = omega (arith, length-append front (c ∷ []))

strchr_loop-Least :
    (front s rest : List ℕ) (ch : ℤ)
    → IsText s
    → (o : Option ℕ) × (strchr_loop (c_string s rest) ch (length front) ≡ some o)
      × Least (holds (front ++ s) ch) (length front) (length (front ++ s)) o
unfolding strchr_loop
strchr_loop-Least front [] rest ch h =
    let e : length (front ++ []) ≡ length front = omega (arith, length-append front []) in
    (none, refl, rw e (nothing (holds (front ++ []) ch)))
strchr_loop-Least front (c ∷ s) rest ch (hc, hs) =
    let c' : (c == 0) ≡ false = ground arith in
    let l = length-append front (c ∷ s) in
    elim (Bool-cases (eq_ℤ (char_value c) ch)) [
      | inl hit ↦ (
        some (length front),
        ground (arith, c'),
        here (holds (front ++ (c ∷ s)) ch) (omega (arith, l)) (rw (holds_at front c s ch) hit),
      )
      | inr miss ↦
          let (o, called, least) = strchr_loop-Least (front ++ (c ∷ [])) s rest ch hs in
          let e = next_length front c in
          let p = next_byte front c s in
          (
            o,
            ground (arith, called, e),
            past (holds (front ++ (c ∷ s)) ch) {mid = suc (length front)} (omega arith)
                (λ i a b.
                  let i' : i ≡ length front = omega arith in rw (i', holds_at front c s ch) miss)
                (rw (p, e) at least),
          )
    ]

-- `strchr` of a terminated text returns the offset of the first byte that equals the character, read
-- as a signed `char`, and NULL if there is none.
pub strchr-Least :
    (s rest : List ℕ) (ch : ℤ)
    → IsText s
    → (o : Option ℕ) × (strchr (c_string s rest) ch ≡ some o) × Least (holds s ch) 0 (length s) o
unfolding strchr
strchr-Least s rest ch h = strchr_loop-Least [] s rest ch h

-- The last offset of a range that passes the test, or none.
pub data Last (p : ℕ → Bool) (hi : ℕ) : Option ℕ → Type 0 where
  nowhere : ((c : ℕ) → c < hi → p c ≡ false) → Last p hi none
  last :
      {r : ℕ} → r < hi → p r ≡ true → ((c : ℕ) → r < c → c < hi → p c ≡ false) → Last p hi (some r)

module _ {p : ℕ → Bool} {n : ℕ} where
  Last-suc_hit : p n ≡ true → Last p (suc n) (some n)
  Last-suc_hit h = last (omega arith) h (λ c a b. absurd (omega arith))

  Last-suc_miss : {o : Option ℕ} → p n ≡ false → Last p n o → Last p (suc n) o
  Last-suc_miss h (nowhere g) = nowhere λ c l. elim (Bool-cases (c == n)) [
    | inl e ↦ let e' : c ≡ n = ground arith in rw e' h
    | inr e ↦ g c (ground arith)
  ]
  Last-suc_miss h (last a b g) = last (omega arith) b λ c x l. elim (Bool-cases (c == n)) [
    | inl e ↦ let e' : c ≡ n = ground arith in rw e' h
    | inr e ↦ g c x (ground arith)
  ]

strrchr_loop-Last :
    (front s rest : List ℕ) (ch : ℤ) (sofar : Option ℕ)
    → IsText s
    → Last (holds (front ++ s) ch) (length front) sofar
    → (o : Option ℕ) × (strrchr_loop (c_string s rest) ch (length front) sofar ≡ some o)
      × Last (holds (front ++ s) ch) (length (front ++ s)) o
unfolding strrchr_loop
strrchr_loop-Last front [] rest ch sofar h now =
    let e : length (front ++ []) ≡ length front = omega (arith, length-append front []) in
    (sofar, refl, rw e now)
strrchr_loop-Last front (c ∷ s) rest ch sofar (hc, hs) now =
    let c' : (c == 0) ≡ false = ground arith in
    let e = next_length front c in
    let p = next_byte front c s in
    let (o, called, final) =
      strrchr_loop-Last (front ++ (c ∷ [])) s rest ch
        (if eq_ℤ (char_value c) ch then some (length front) else sofar) hs
        (rw (p, e) (updated (eq_ℤ (char_value c) ch) (holds_at front c s ch))) in
    (o, ground (arith, called, e), rw p at final)
  where
    updated :
        (b : Bool)
        → holds (front ++ (c ∷ s)) ch (length front) ≡ b
        → Last
            (holds (front ++ (c ∷ s)) ch)
            (suc (length front))
            (if b then some (length front) else sofar)
    updated true h = Last-suc_hit h
    updated false h = Last-suc_miss h now

-- `strrchr` of a terminated text returns the offset of the last byte that equals the character, read
-- as a signed `char`, and NULL if there is none.
pub strrchr-Last :
    (s rest : List ℕ) (ch : ℤ)
    → IsText s
    → (o : Option ℕ) × (strrchr (c_string s rest) ch ≡ some o) × Last (holds s ch) (length s) o
unfolding strrchr
strrchr-Last s rest ch h =
    strrchr_loop-Last [] s rest ch none h (nowhere (λ c l. absurd (omega arith)))

strchr_loop-nul :
    (s rest : List ℕ) (n : ℕ) → IsText s → strchr_loop (c_string s rest) (pos 0) n ≡ some none
unfolding strchr_loop
strchr_loop-nul [] rest n h = refl
strchr_loop-nul (c ∷ s) rest n (hc, h) = ground (arith, strchr_loop-nul s rest (n + 1) h)

-- `strchr` does not find the terminator.
pub strchr-nul : (s rest : List ℕ) → IsText s → strchr (c_string s rest) (pos 0) ≡ some none
unfolding strchr
strchr-nul s rest h = strchr_loop-nul s rest 0 h
