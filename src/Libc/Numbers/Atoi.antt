-- ===== src/Libc/Numbers/Atoi.antt =====
-- `atoi`: the loop adds a weight for each digit that grows from the first digit on.
use hexahedron.Base.{
  ℕ, ◌+◌, ◌-◌, ◌*◌, ◌%◌, ◌^◌, ◌≤◌, ◌<◌, ◌≡◌, refl, ap, ◌∙◌, Bool, true, false, none, some, List, [],
  ◌∷◌, ◌++◌, arith, ltb, if◌then◌else◌, length, length-append,
}
use native.Mathlib.Nat.{pow-zero, pow-suc, mod-add-mod}
use hexahedron.Libc.Ctype.{is_space, is_digit}
use hexahedron.Libc.Strings.{char_value}
use hexahedron.Libc.Numbers.{skip_blanks, atoi_digits, atoi}
use hexahedron.Libc.Numbers.Digits.{face, value, AreDigits, mod_first}
use hexahedron.Libc.Numbers.Strtol.{
  AreBlanks, Sign, unsigned, plus, minus, signed, read_sign-Sign, face-solid,
}

-- the numeral written backwards
abbrev pub backwards : List ℕ → List ℕ
backwards [] = []
backwards (c ∷ s) = backwards s ++ (c ∷ [])

value-snoc : (b c : ℕ) (s : List ℕ) → value b (s ++ (c ∷ [])) ≡ value b s * b + face c
unfolding value
value-snoc b c [] = grind (arith, pow-zero b)
value-snoc b c (x ∷ s) =
    grind (arith, value-snoc b c s, length-append s (c ∷ []), pow-suc b (length s))

skip_blanks_lem :
    (bl s : List ℕ) (c : ℕ)
    → AreBlanks bl
    → is_space (char_value c) ≡ false
    → skip_blanks (bl ++ (c ∷ s)) ≡ some (c ∷ s)
unfolding skip_blanks is_space
skip_blanks_lem [] s c h hc = ground arith
skip_blanks_lem (b ∷ bl) s c (hb, h) hc = ground (arith, skip_blanks_lem bl s c h hc)

is_digit-face : (c : ℕ) → is_digit (char_value c) ≡ ltb (face c) 10
unfolding is_digit
is_digit-face c = ground arith

face-digit : (c : ℕ) → face c < 10 → c - b'0' ≡ face c
face-digit c h = ground arith

weight_step : (m w : ℕ) → w % m * 10 % m ≡ w * 10 % m
weight_step m w =
    let a : w % m * 10 + 0 ≡ w % m * 10 = omega arith in
    let b : w * 10 + 0 ≡ w * 10 = omega arith in let e = mod_first w 10 0 m in rw (a, b) at e

sum_step :
    (m acc w d v : ℕ) → ((acc + w % m * d) % m + w * 10 * v) % m ≡ (acc + w * (v * 10 + d)) % m
sum_step m acc w d v =
    let x = w * 10 * v in
    let a : acc + w % m * d + x ≡ w % m * d + (acc + x) = grind arith in
    let b : w * d + (acc + x) ≡ acc + w * (v * 10 + d) = grind arith in
    mod-add-mod (acc + w % m * d) m x
    ∙ ap (λ t. t % m) a
    ∙ mod_first w d (acc + x) m
    ∙ ap (λ t. t % m) b

atoi_digits-backwards :
    (s rest : List ℕ) (stop acc w : ℕ)
    → AreDigits 10 s
    → 10 ≤ face stop
    → acc < 2 ^ 32
    → atoi_digits (s ++ (stop ∷ rest)) acc (w % 2 ^ 32)
      ≡ some ((acc + w * value 10 (backwards s)) % 2 ^ 32)
unfolding atoi_digits value
atoi_digits-backwards [] rest stop acc w hs hstop ha =
    let v : is_digit (char_value stop) ≡ false = ground (arith, is_digit-face stop) in
    rw v (ground arith)
atoi_digits-backwards (c ∷ s) rest stop acc w (hc, hs) hstop ha =
    let v : is_digit (char_value c) ≡ true = ground (arith, is_digit-face c) in
    let d = face-digit c hc in
    let acc' = (acc + w % 2 ^ 32 * face c) % 2 ^ 32 in
    let next = atoi_digits-backwards s rest stop acc' (w * 10) hs hstop (omega arith) in
    rw (v, d, weight_step (2 ^ 32) w, next, value-snoc 10 c (backwards s))
      (ap some (sum_step (2 ^ 32) acc w (face c) (value 10 (backwards s))))

skip_blanks-Sign :
    {sg : List ℕ} {m : Bool} (bl s : List ℕ) (c : ℕ)
    → AreBlanks bl
    → Sign sg m
    → face c < 36
    → skip_blanks (bl ++ (sg ++ (c ∷ s))) ≡ some (sg ++ (c ∷ s))
unfolding is_space
skip_blanks-Sign bl s c h unsigned hc = skip_blanks_lem bl s c h (face-solid c hc)
skip_blanks-Sign bl s c h plus hc = skip_blanks_lem bl (c ∷ s) b'+' h refl
skip_blanks-Sign bl s c h minus hc = skip_blanks_lem bl (c ∷ s) b'-' h refl

finish :
    (m : Bool) (v : ℕ)
    → some (if m then (2 ^ 32 - v % 2 ^ 32) % 2 ^ 32 else v % 2 ^ 32) ≡ some (signed 32 m v)
finish true v = refl
finish false v = refl

-- On decimal digits behind blanks and an optional sign, ended by a byte that is no decimal digit,
-- `atoi` returns the value of the digits read from the last to the first, negated for a minus sign,
-- as a 32-bit pattern. It returns 0 for a null pointer.
pub atoi-backwards :
    {sg : List ℕ} {m : Bool} (bl ds rest : List ℕ) (d stop : ℕ)
    → AreBlanks bl
    → Sign sg m
    → AreDigits 10 (d ∷ ds)
    → 10 ≤ face stop
    → (atoi (some (bl ++ (sg ++ ((d ∷ ds) ++ (stop ∷ rest)))))
        ≡ some (signed 32 m (value 10 (backwards (d ∷ ds)))))
      × (atoi none ≡ some 0)
unfolding atoi
atoi-backwards {sg} {m} bl ds rest d stop blanks sign numeral ends =
    let t = ds ++ (stop ∷ rest) in
    let skipped = skip_blanks-Sign bl t d blanks sign (omega (arith, numeral.0)) in
    let signed' = read_sign-Sign t d 0 sign (omega (arith, numeral.0)) in
    let read = atoi_digits-backwards (d ∷ ds) rest stop 0 1 numeral ends (omega arith) in
    let v = value 10 (backwards (d ∷ ds)) in
    let acc : 0 + 1 * v ≡ v = omega arith in (rw (skipped, signed', read, acc) (finish m v), refl)
