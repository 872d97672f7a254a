-- ===== src/Base/Count.antt =====
-- How many numbers below a bound satisfy a test.
use hexahedron.Base.{
  ℕ, zero, suc, ◌+◌, ◌<◌, ◌≤◌, ◌≡◌, refl, Bool, true, false, ◌||◌, arith, ◌==◌, if◌then◌else◌,
  Bool-cases, inl, inr, ltb, leb, ◌&&◌,
}

unfoldable pub count : (ℕ → Bool) → ℕ → ℕ
count p zero = 0
count p (suc n) = count p n + (if p n then 1 else 0)

pub count-le : (p : ℕ → Bool) (n : ℕ) → count p n ≤ n
unfolding count
count-le p zero = omega arith
count-le p (suc n) = ground (arith, count-le p n)

-- Two tests that agree below the bound have one count.
pub count-congr : (p q : ℕ → Bool) (n : ℕ) → ((g : ℕ) → g < n → q g ≡ p g) → count q n ≡ count p n
unfolding count
count-congr p q zero h = refl
count-congr p q (suc n) h =
    ground (arith, count-congr p q n (λ g l. h g (omega arith)), h n (omega arith))

-- A count of n means that every number below n passes.
pub count_full : (p : ℕ → Bool) (n g : ℕ) → count p n ≡ n → g < n → p g ≡ true
unfolding count
count_full p zero g h l = elim l [ ]
count_full p (suc n) g h l = elim (Bool-cases (g == n)) [
  | inl e ↦ ground (arith, count-le p n)
  | inr e ↦ ground (arith, count-le p n, count_full p n g)
]

-- The test that also passes at `f`, where `p` fails, counts one more.
pub count_add :
    (p q : ℕ → Bool) (f n : ℕ)
    → ((g : ℕ) → q g ≡ ((f == g) || p g))
    → p f ≡ false
    → f < n
    → count q n ≡ count p n + 1
unfolding count
count_add p q f zero h pf l = elim l [ ]
count_add p q f (suc n) h pf l = elim (Bool-cases (f == n)) [
  | inl e ↦ ground (arith, h n, count-congr p q n (λ g less. ground (arith, h g)))
  | inr e ↦ ground (arith, h n, count_add p q f n h pf)
]

-- the `n` numbers from `start` on
abbrev pub in_run : ℕ → ℕ → ℕ → Bool
in_run start n g = leb start g && ltb g (start + n)

-- The test that also passes on a run of `n`, where `p` fails throughout, counts `n` more.
pub count_run :
    (n a : ℕ) (p q : ℕ → Bool) (m : ℕ)
    → ((g : ℕ) → q g ≡ (in_run a n g || p g))
    → ((g : ℕ) → in_run a n g ≡ true → p g ≡ false)
    → a + n ≤ m
    → count q m ≡ count p m + n
count_run zero a p q m h out l = omega (arith, count-congr p q m (λ g _. ground (arith, h g)))
count_run (suc n) a p q m h out l = omega (
  arith,
  count_add p (λ g. (a == g) || p g) a m (λ g. refl) (out a (ground arith)) (omega arith),
  count_run n (a + 1) (λ g. (a == g) || p g) q m (λ g. ground (arith, h g))
      (λ g e. ground (arith, out g)) (omega arith),
)

-- Below a bound that the count does not reach, some number fails.
pub count-lt : (p : ℕ → Bool) (n : ℕ) → count p n < n → (f : ℕ) × (f < n) × (p f ≡ false)
unfolding count
count-lt p zero h = elim h [ ]
count-lt p (suc n) h = elim (Bool-cases (p n)) [
  | inl y ↦ let (f, l, e) = count-lt p n (ground arith) in (f, omega arith, e)
  | inr e ↦ (n, omega arith, e)
]
