-- ===== src/Bitmap/Search.antt =====
-- What the two searches return, as the caller reads it: a frame number or -ENOMEM.
use hexahedron.Base.{
  ℕ, zero, suc, ◌+◌, ◌*◌, ◌^◌, ◌≤◌, ◌<◌, ◌≡◌, refl, inl, inr, true, false, Option, arith, ◌==◌,
  Bool-cases, Bool,
}
use hexahedron.Bitmap.{Words, IsWords, neg_enomem, returned, find_first, find_first_run}
use hexahedron.Bitmap.Least.{Least, absent, found}
use hexahedron.Bitmap.Find.{is_free, find_words-Least}
use hexahedron.Bitmap.Runs.{AllFree, run_free, run_free-AllFree, AllFree-run_free, find_runs-Least}

-- `r` is the least start below `m` of `n` free frames, or -ENOMEM if there is none.
pub data FirstRun (w : Words) (n m r : ℕ) : Type 0 where
  no_run : r ≡ neg_enomem → ((g : ℕ) → g < m → ¬ AllFree w g n) → FirstRun w n m r
  run : r < m → AllFree w r n → ((g : ℕ) → g < r → ¬ AllFree w g n) → FirstRun w n m r

-- A test that decides `AllFree` turns a least number into a first run.
FirstRun-of_Least :
    (w : Words) (n m : ℕ) (p : ℕ → Bool)
    → ((g : ℕ) → g < m → p g ≡ true → AllFree w g n)
    → ((g : ℕ) → g < m → AllFree w g n → p g ≡ true)
    → {o : Option ℕ} → Least p 0 m o
    → FirstRun w n m (returned o)
FirstRun-of_Least w n m p to from (absent g) =
    no_run refl λ c l a. cc (g c (omega arith) l, from c l a)
FirstRun-of_Least w n m p to from (found {r} a b e g) =
    run b (to r b e) λ c l x. cc (g c (omega arith) l, from c (omega arith) x)

module _ (w : Words) where
  one_free : (g : ℕ) → is_free w g ≡ true → AllFree w g 1
  one_free g e zero l = let z : g + 0 ≡ g = omega arith in rw z (ground arith)
  one_free g e (suc k) l = absurd (omega arith)

  free_one : (g : ℕ) → AllFree w g 1 → is_free w g ≡ true
  free_one g a =
      let z : g + 0 ≡ g = omega arith in let t = rw z at (a 0 (omega arith)) in ground arith

  pub find_first_lem :
      (words : ℕ) → IsWords w → words * 32 ≤ 2 ^ 32 → FirstRun w 1 (words * 32) (find_first words w)
  unfolding find_first
  find_first_lem words h small =
      FirstRun-of_Least w 1 (words * 32) (is_free w) (λ g l e. one_free g e) (λ g l a. free_one g a)
        (find_words-Least w h words 0 words (omega arith) small)

  pub find_first_run_lem :
      (words n : ℕ)
      → IsWords w
      → 0 < n
      → words * 32 + n ≤ 2 ^ 32
      → FirstRun w n (words * 32) (find_first_run words w n)
  unfolding find_first_run
  find_first_run_lem words n h positive small = elim (Bool-cases (n == 1)) [
    | inl one ↦ let e : n ≡ 1 = ground arith in rw e (find_first_lem words h (omega arith))
    | inr more ↦
        let zero' : (n == 0) ≡ false = ground arith in
        rw (zero', more)
          (FirstRun-of_Least w n (words * 32) (run_free w n)
            (λ g l e. run_free-AllFree w g n (omega arith) e)
            (λ g l a. AllFree-run_free w g n (omega arith) positive a)
            (find_runs-Least w h n positive words 0 words (omega arith) small))
  ]
