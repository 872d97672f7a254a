-- ===== src/Libc/Strings/Compare.antt =====
-- `strlen`, `strcmp`, `strncmp` and `memcmp` on the texts that the strings hold.
use hexahedron.Base.{
  ℕ, zero, suc, ◌+◌, ◌≤◌, ◌≡◌, refl, ◌≢◌, ◌↔◌, some, List, [], ◌∷◌, arith, ◌==◌, ltb, length, take,
  All, Bool-cases, inl, inr, ◌⊎◌,
}
use hexahedron.Base.Int.{ℤ, pos, negsuc, ◌-ℤ◌}
use hexahedron.Libc.Strings.{c_string, strlen_loop, strlen, strcmp, strncmp_loop, strncmp, memcmp}

-- no byte of the text is NUL
abbrev pub IsText : List ℕ → Type 0
IsText = All (λ c. c ≢ 0)

strlen_loop-c_string :
    (s rest : List ℕ) (n : ℕ) → IsText s → strlen_loop (c_string s rest) n ≡ some (n + length s)
unfolding strlen_loop
strlen_loop-c_string [] rest n h = ground arith
strlen_loop-c_string (c ∷ s) rest n (hc, hs) =
    ground (arith, strlen_loop-c_string s rest (n + 1) hs)

-- `strlen` of a terminated text is its length, and reads no byte behind the terminator.
pub strlen-c_string : (s rest : List ℕ) → IsText s → strlen (c_string s rest) ≡ some (length s)
unfolding strlen
strlen-c_string s rest h = ground (arith, strlen_loop-c_string s rest 0 h)

differ_ne_zero : (a b : ℕ) → a ≢ b → pos a -ℤ pos b ≢ pos 0
unfolding ◌-ℤ◌
differ_ne_zero a b h e = ground arith

same_zero : (a : ℕ) → pos a -ℤ pos a ≡ pos 0
unfolding ◌-ℤ◌
same_zero a = ground arith

-- `strcmp` of two terminated texts returns zero exactly when the texts are equal.
pub strcmp-eq_zero :
    (s t rest rest' : List ℕ)
    → IsText s
    → IsText t
    → (z : ℤ) × (strcmp (c_string s rest) (c_string t rest') ≡ some z) × ((z ≡ pos 0) ↔ (s ≡ t))
unfolding strcmp
strcmp-eq_zero [] [] rest rest' hs ht = (pos 0 -ℤ pos 0, refl, ((λ _. refl), (λ _. same_zero 0)))
strcmp-eq_zero [] (b ∷ t) rest rest' hs (hb, ht) = (
  pos 0 -ℤ pos b,
  refl,
  ((λ e. absurd (differ_ne_zero 0 b (λ e'. hb (ground arith)) e)), (λ e. cc)),
)
strcmp-eq_zero (a ∷ s) [] rest rest' (ha, hs) ht =
    (pos a -ℤ pos 0, ground arith, ((λ e. absurd (differ_ne_zero a 0 ha e)), (λ e. cc)))
strcmp-eq_zero (a ∷ s) (b ∷ t) rest rest' (ha, hs) (hb, ht) = elim (Bool-cases (a == b)) [
  | inl same ↦
      let (z, called, both) = strcmp-eq_zero s t rest rest' hs ht in
      (z, ground arith, ((λ e. ground (arith, both.0 e)), (λ e. both.1 (ground arith))))
  | inr other ↦ (
    pos a -ℤ pos b,
    ground arith,
    ((λ e. absurd (differ_ne_zero a b (λ e'. ground arith) e)), (λ e. ground arith)),
  )
]

strncmp_loop-eq_zero :
    (n : ℕ) (s t rest rest' : List ℕ)
    → IsText s
    → IsText t
    → (z : ℤ) × (strncmp_loop (suc n) (c_string s rest) (c_string t rest') ≡ some z)
      × ((z ≡ pos 0) ↔ (take (suc n) s ≡ take (suc n) t))
unfolding strncmp_loop
strncmp_loop-eq_zero n [] [] rest rest' hs ht =
    (pos 0 -ℤ pos 0, ground arith, ((λ _. refl), (λ _. same_zero 0)))
strncmp_loop-eq_zero n [] (b ∷ t) rest rest' hs (hb, ht) = (
  pos 0 -ℤ pos b,
  ground arith,
  ((λ e. absurd (differ_ne_zero 0 b (λ e'. hb (ground arith)) e)), (λ e. cc)),
)
strncmp_loop-eq_zero n (a ∷ s) [] rest rest' (ha, hs) ht =
    (pos a -ℤ pos 0, ground arith, ((λ e. absurd (differ_ne_zero a 0 ha e)), (λ e. cc)))
strncmp_loop-eq_zero zero (a ∷ s) (b ∷ t) rest rest' (ha, hs) (hb, ht) =
    elim (Bool-cases (a == b)) [
      | inl same ↦
          let e : a ≡ b = ground arith in
          (pos a -ℤ pos b, ground arith, ((λ _. ground arith), (λ _. rw e (same_zero b))))
      | inr other ↦ (
        pos a -ℤ pos b,
        ground arith,
        ((λ e. absurd (differ_ne_zero a b (λ e'. ground arith) e)), (λ e. ground arith)),
      )
    ]
strncmp_loop-eq_zero (suc n) (a ∷ s) (b ∷ t) rest rest' (ha, hs) (hb, ht) =
    elim (Bool-cases (a == b)) [
      | inl same ↦
          let (z, called, both) = strncmp_loop-eq_zero n s t rest rest' hs ht in
          (z, ground arith, ((λ e. ground (arith, both.0 e)), (λ e. both.1 (ground arith))))
      | inr other ↦ (
        pos a -ℤ pos b,
        ground arith,
        ((λ e. absurd (differ_ne_zero a b (λ e'. ground arith) e)), (λ e. ground arith)),
      )
    ]

-- `strncmp` of two terminated texts returns zero exactly when their first n bytes are equal.
pub strncmp-eq_zero :
    (n : ℕ) (s t rest rest' : List ℕ)
    → IsText s
    → IsText t
    → (z : ℤ) × (strncmp (c_string s rest) (c_string t rest') n ≡ some z)
      × ((z ≡ pos 0) ↔ (take n s ≡ take n t))
unfolding strncmp
strncmp-eq_zero zero s t rest rest' hs ht = (pos 0, refl, ((λ _. refl), (λ _. refl)))
strncmp-eq_zero (suc n) s t rest rest' hs ht =
    let (z, called, both) = strncmp_loop-eq_zero n s t rest rest' hs ht in (z, ground arith, both)

-- `memcmp` of two objects of n bytes or more reads inside them, and returns -1, 0 or 1; it is zero
-- exactly when the first n bytes are equal.
pub memcmp-eq_zero :
    (n : ℕ) (s t : List ℕ)
    → n ≤ length s
    → n ≤ length t
    → (z : ℤ) × (memcmp s t n ≡ some z)
      × ((z ≡ negsuc 0) ⊎ (z ≡ pos 0) ⊎ (z ≡ pos 1))
      × ((z ≡ pos 0) ↔ (take n s ≡ take n t))
unfolding memcmp
memcmp-eq_zero zero s t hs ht = (pos 0, refl, inr (inl refl), ((λ _. refl), (λ _. refl)))
memcmp-eq_zero (suc n) [] t hs ht = absurd (omega arith)
memcmp-eq_zero (suc n) (a ∷ s) [] hs ht = absurd (omega arith)
memcmp-eq_zero (suc n) (a ∷ s) (b ∷ t) hs ht = elim (Bool-cases (ltb a b)) [
  | inl below ↦ (negsuc 0, ground arith, inl refl, ((λ e. cc), (λ e. ground arith)))
  | inr not_below ↦ elim (Bool-cases (ltb b a)) [
    | inl above ↦ (pos 1, ground arith, inr (inr refl), ((λ e. ground arith), (λ e. ground arith)))
    | inr not_above ↦
        let (z, called, sign, both) = memcmp-eq_zero n s t (omega arith) (omega arith) in
        let same : a ≡ b = ground arith in
        (z, ground arith, sign, ((λ e. ground (arith, both.0 e)), (λ e. both.1 (ground arith))))
  ]
]
