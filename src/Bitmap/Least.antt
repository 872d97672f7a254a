-- ===== src/Bitmap/Least.antt =====
-- The least number of a range that passes a test, or none: what the search loops return.
use hexahedron.Base.{ℕ, ◌≤◌, ◌<◌, ◌≡◌, ◌⊎◌, Bool, true, false, Option, none, some, arith, inl, inr}

pub data Least (p : ℕ → Bool) (lo hi : ℕ) : Option ℕ → Type 0 where
  absent : ((c : ℕ) → lo ≤ c → c < hi → p c ≡ false) → Least p lo hi none
  found :
      {r : ℕ}
      → lo ≤ r
      → r < hi
      → p r ≡ true
      → ((c : ℕ) → lo ≤ c → c < r → p c ≡ false)
      → Least p lo hi (some r)

below_cases : (c m : ℕ) → (c < m) ⊎ (m ≤ c)
below_cases c m = omega arith

module _ (p : ℕ → Bool) {lo : ℕ} where
  pub nothing : Least p lo lo none
  nothing = absent (λ c l m. absurd (omega arith))

  pub here : {hi : ℕ} → lo < hi → p lo ≡ true → Least p lo hi (some lo)
  here l h = found (omega arith) l h (λ c a b. absurd (omega arith))

  -- A range that fails the test, and the rest behind it.
  pub past :
      {mid hi : ℕ} {o : Option ℕ}
      → lo ≤ mid
      → ((c : ℕ) → lo ≤ c → c < mid → p c ≡ false)
      → Least p mid hi o
      → Least p lo hi o
  past {mid} l h (absent g) =
      absent λ c a b. elim (below_cases c mid) [ inl less ↦ h c a less | inr more ↦ g c more b ]
  past {mid} l h (found a b e g) =
      found (omega arith) b e
        λ c x y. elim (below_cases c mid) [ inl less ↦ h c x less | inr more ↦ g c more y ]

  -- What a search of the front part finds, the search of the whole finds.
  pub widen : {mid hi r : ℕ} → mid ≤ hi → Least p lo mid (some r) → Least p lo hi (some r)
  widen l (found a b e g) = found a (omega arith) e g
