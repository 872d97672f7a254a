-- ===== src/Libc/Time/Periods.antt =====
-- Periods one behind the other, and the one that the loops of `fill_time` find.
use hexahedron.Base.{
  ℕ, zero, suc, ◌+◌, ◌*◌, ◌^◌, ◌<◌, ◌≤◌, ◌≡◌, refl, false, some, arith, ltb, leb, Bool-cases, inl,
  inr, sym, ltb→lt,
}
use hexahedron.Libc.Time.{find_period}

-- the length of `r` periods from number `i` on
unfoldable pub total : (ℕ → ℕ) → ℕ → ℕ → ℕ
total secs zero i = 0
total secs (suc r) i = secs i + total secs r (i + 1)

pub total_last : (secs : ℕ → ℕ) (k i : ℕ) → total secs (suc k) i ≡ total secs k i + secs (i + k)
unfolding total
total_last secs zero i = let e : i + 0 ≡ i = omega arith in rw e (omega arith)
total_last secs (suc k) i =
    let e : i + 1 + k ≡ i + suc k = omega arith in
    let h : total secs (suc k) (i + 1) ≡ total secs k (i + 1) + secs (i + suc k) =
      rw e at (total_last secs k (i + 1)) in
    omega (arith, h)

pub total_times : (f : ℕ → ℕ) (n k i : ℕ) → total (λ j. f j * n) k i ≡ total f k i * n
unfolding total
total_times f n zero i = omega arith
total_times f n (suc k) i = grind (arith, total_times f n k (i + 1))

pub total_const : (n k i : ℕ) → total (λ _. n) k i ≡ k * n
unfolding total
total_const n zero i = omega arith
total_const n (suc k) i = grind (arith, total_const n k (i + 1))

-- The loop over more than `r` periods, when the time falls into one of the first `r` and no sum over
-- these leaves the 31 bits.
pub find_period-total :
    (secs : ℕ → ℕ) (r more i seconds time : ℕ)
    → seconds ≤ time
    → time < seconds + total secs r i
    → seconds + total secs r i < 2 ^ 31
    → (k : ℕ) × (k < r)
      × (find_period secs (r + more) i seconds time ≡ some (some (i + k, seconds + total secs k i)))
      × (seconds + total secs k i ≤ time)
      × (time < seconds + total secs k i + secs (i + k))
      × (seconds + total secs k i + secs (i + k) ≤ seconds + total secs r i)
unfolding find_period total
find_period-total secs zero more i seconds time h l b = absurd (omega arith)
find_period-total secs (suc r) more i seconds time h l b =
    let rounds : suc r + more ≡ suc (r + more) = omega arith in
    let fits : leb (2 ^ 31) (seconds + secs i) ≡ false = ground arith in
    elim (Bool-cases (ltb time (seconds + secs i))) [
      | inl here ↦
          let number : i + 0 ≡ i = omega arith in
          let start : seconds + 0 ≡ seconds = omega arith in
          (
            0,
            omega arith,
            rw (rounds, fits, here, number, start) refl,
            omega arith,
            rw (number, start) (ltb→lt time (seconds + secs i) here),
            rw (number, start) (omega arith),
          )
      | inr past ↦
          let (k, k', e, low, high, within) =
            find_period-total secs r more (i + 1) (seconds + secs i) time (ground arith)
              (omega arith) (omega arith) in
          let number : i + 1 + k ≡ i + suc k = omega arith in
          let start : seconds + secs i + total secs k (i + 1)
              ≡ seconds + (secs i + total secs k (i + 1)) =
            omega arith in
          (
            suc k,
            omega arith,
            rw (rounds, fits, past, sym number, sym start) e,
            omega arith,
            rw (sym number, sym start) high,
            rw (sym number, sym start) (omega (arith, within)),
          )
    ]
