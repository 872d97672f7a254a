-- ===== src/Libc/Strings/Tokens.antt =====
-- `strpbrk` and `strtok_r`: the tokens of a string, which is cut in place.
use hexahedron.Base.{
  ℕ, zero, suc, ◌+◌, Option, none, some, [], ◌∷◌, ◌≡◌, refl, ◌==◌, if◌then◌else◌, get_elem?, drop,
}
use hexahedron.Base.Int.{pos}
use hexahedron.Libc.Strings.{Buffer, strspn, strcspn, strchr}

infixl 5 ◌>>=◌
abbrev ◌>>=◌ {ℓ κ} : {A : Type ℓ} {B : Type κ} → Option A → (A → Option B) → Option B
none >>= f = none
some a >>= f = f a

-- the byte at an offset replaced
abbrev pub write : Buffer → ℕ → ℕ → Buffer
write [] i c = []
write (x ∷ s) zero c = c ∷ s
write (x ∷ s) (suc i) c = x ∷ write s i c

unfoldable pub strpbrk : Buffer → Buffer → Option (Option ℕ)
strpbrk str1 str2 = do
  n ← strcspn str1 str2
  c ← get_elem? str1 n
  some (if c == 0 then none else some n)

-- the token, what is stored to `lasts`, and the string as it is left; offsets from the start
pub record Tokenized : Type 0 where
  pub token : Option ℕ
  pub lasts : Option ℕ
  pub text : Buffer

abbrev pub shifted : ℕ → Option ℕ → Option ℕ
shifted n none = none
shifted n (some k) = some (n + k)

-- the end of a token, where `strpbrk` has found one or not
unfoldable pub cut : Buffer → ℕ → Option ℕ → Option Tokenized
cut s n (some k) =
    some (record { token = some n; lasts = some (n + k + 1); text = write s (n + k) 0 })
cut s n none = do
  e ← strchr (drop n s) (pos 0)
  some (record { token = some n; lasts = shifted n e; text = s })

-- `s` is the string, or what `lasts` points to.
unfoldable pub strtok_r : Buffer → Buffer → Option Tokenized
unfolding strpbrk cut
strtok_r s seps = do
  n ← strspn s seps
  c ← get_elem? s n
  if c == 0
      then some (record { token = none; lasts = some n; text = s })
      else (do k ← strpbrk (drop n s) seps; cut s n k)

-- On the last token `lasts` becomes NULL, as `strchr` does not find the terminator.
strtok_r_last :
    strtok_r (b' ' ∷ b'a' ∷ 0 ∷ []) (b' ' ∷ 0 ∷ [])
    ≡ some (record { token = some 1; lasts = none; text = b' ' ∷ b'a' ∷ 0 ∷ [] })
unfolding strtok_r strspn strcspn strchr
strtok_r_last = refl
