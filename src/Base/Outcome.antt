-- ===== src/Base/Outcome.antt =====
-- How a call ends: with a result and a new state, in `kernel_panic`, spinning on a lock for ever, or in
-- an operation that C does not define.
pub data Outcome (S A : Type 0) : Type 0 where
  done : A → S → Outcome S A
  panic : S → Outcome S A
  hang : Outcome S A
  fault : Outcome S A

abbrev pub Op : Type 0 → Type 0 → Type 0
Op S A = S → Outcome S A

abbrev pub pure : {S A : Type 0} → A → Op S A
pure a s = done a s

abbrev pub and_then : {S A B : Type 0} → Outcome S A → (A → Op S B) → Outcome S B
and_then (done a s) f = f a s
and_then (panic s) f = panic s
and_then hang f = hang
and_then fault f = fault

infixl 5 ◌>>=◌ ◌>>◌
abbrev pub ◌>>=◌ : {S A B : Type 0} → Op S A → (A → Op S B) → Op S B
◌>>=◌ m f s = and_then (m s) f

abbrev pub ◌>>◌ : {S B : Type 0} → Op S (Unit {0}) → Op S B → Op S B
m >> k = m >>= λ _. k
