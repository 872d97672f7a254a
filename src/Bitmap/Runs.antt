-- ===== src/Bitmap/Runs.antt =====
-- The search for a run of frames returns the least run that is free throughout.
use hexahedron.Base.{
  ℕ, zero, suc, ◌+◌, ◌*◌, ◌^◌, ◌≤◌, ◌<◌, ◌≡◌, refl, inl, inr, true, false, Option, none, some,
  arith, ◌==◌, if◌then◌else◌, Bool-cases, bit_and, Bool, ◌∙◌, sym,
}
use hexahedron.Bitmap.{Words, IsWords, u32, is_taken, window, scan_runs, find_runs}
use hexahedron.Bitmap.Least.{Least, absent, nothing, here, past, widen}
use hexahedron.Bitmap.Find.{is_free, is_free_at, full_frames}

-- The `n` frames from `start` on are all free.
abbrev pub AllFree : Words → ℕ → ℕ → Type 0
AllFree w start n = (k : ℕ) → k < n → is_taken w (start + k) ≡ false

-- the test that the code makes of a window
abbrev pub run_free : Words → ℕ → ℕ → Bool
run_free w n start = window n 0 0 w start n

module _ (w : Words) (start n : ℕ) (small : start + n ≤ 2 ^ 32) where
  window_taken :
      (r check free : ℕ)
      → check + suc r ≡ n
      → free ≤ check
      → is_taken w (start + check) ≡ true
      → window (suc r) check free w start n ≡ window r (check + 1) free w start n
  unfolding window
  window_taken r check free e l t =
      let s : u32 (start + check) ≡ start + check = omega arith in rw (s, t) (ground arith)

  window_free :
      (r check free : ℕ)
      → check + suc r ≡ n
      → is_taken w (start + check) ≡ false
      → window (suc r) check free w start n
        ≡ (if free + 1 == n then true else window r (check + 1) (free + 1) w start n)
  unfolding window
  window_free r check free e t =
      let s : u32 (start + check) ≡ start + check = omega arith in rw (s, t) (ground arith)

  window_sound :
      (r check free : ℕ)
      → check + r ≡ n
      → free ≤ check
      → window r check free w start n ≡ true
      → (free ≡ check) × ((k : ℕ) → check ≤ k → k < n → is_taken w (start + k) ≡ false)
  window_sound zero check free e l h = unfold window in cc
  window_sound (suc r) check free e l h = elim (Bool-cases (is_taken w (start + check))) [
    | inl t ↦
        let (bad, _) =
          window_sound r (check + 1) free (omega arith) (omega arith)
            (sym (window_taken r check free e l t) ∙ h) in
        absurd (omega arith)
    | inr t ↦ elim (Bool-cases (free + 1 == n)) [
      | inl last ↦ (ground arith, λ k a b. let c : k ≡ check = ground arith in rw c t)
      | inr more ↦
          let (same, rest) =
            window_sound r (check + 1) (free + 1) (omega arith) (omega arith)
              (ground (arith, window_free r check free e t)) in
          (
            omega arith,
            λ k a b. elim (Bool-cases (k == check)) [
              | inl c ↦ let c' : k ≡ check = ground arith in rw c' t
              | inr c ↦ rest k (ground arith) b
            ],
          )
    ]
  ]

  window_complete :
      (r check : ℕ)
      → check + suc r ≡ n
      → ((k : ℕ) → check ≤ k → k < n → is_taken w (start + k) ≡ false)
      → window (suc r) check check w start n ≡ true
  window_complete zero check e h =
      ground (arith, window_free 0 check check e (h check (omega arith) (omega arith)))
  window_complete (suc r) check e h = ground (
    arith,
    window_free (suc r) check check e (h check (omega arith) (omega arith)),
    window_complete r (check + 1) (omega arith) (λ k a b. h k (omega arith) b),
  )

  -- The window test passes exactly when the whole window is free.
  pub run_free-AllFree : run_free w n start ≡ true → AllFree w start n
  run_free-AllFree h k l = (window_sound n 0 0 (omega arith) (omega arith) h).1 k (omega arith) l

module _ (w : Words) (start : ℕ) where
  pub AllFree-run_free :
      (n : ℕ) → start + n ≤ 2 ^ 32 → 0 < n → AllFree w start n → run_free w n start ≡ true
  AllFree-run_free zero small l h = elim l [ ]
  AllFree-run_free (suc n) small l h =
      window_complete w start (suc n) small n 0 (omega arith) (λ k a b. h k b)

  -- A window whose first frame is taken does not pass.
  first_taken :
      (n : ℕ) → start + n ≤ 2 ^ 32 → 0 < n → is_free w start ≡ false → run_free w n start ≡ false
  first_taken n small l h = elim (Bool-cases (run_free w n start)) [
    | inl t ↦
        let e : start + 0 ≡ start = omega arith in
        let first = rw e at (run_free-AllFree w start n small t 0 l) in ground arith
    | inr t ↦ t
  ]

module _ (w : Words) (h : IsWords w) (n : ℕ) (positive : 0 < n) where
  scan_runs-Least :
      (r b i : ℕ)
      → b + r ≡ 32
      → suc i * 32 + n ≤ 2 ^ 32
      → Least (run_free w n) (i * 32 + b) (suc i * 32) (scan_runs r b i w n)
  unfolding scan_runs
  scan_runs-Least zero b i e small = absent λ c l m. absurd (omega arith)
  scan_runs-Least (suc r) b i e small =
      let at : u32 (i * 32 + b) ≡ i * 32 + b = omega arith in
      let at' : u32 (i * 4 * 8 + b) ≡ i * 32 + b = omega arith in
      let rest : run_free w n (i * 32 + b) ≡ false
          → Least (run_free w n) (i * 32 + b) (suc i * 32) (scan_runs r (suc b) i w n) =
        λ no'.
          past (run_free w n) {mid = i * 32 + suc b} (omega arith)
            (λ c l m. let c' : c ≡ i * 32 + b = omega arith in rw c' no')
            (scan_runs-Least r (suc b) i (omega arith) small) in
      elim (Bool-cases (bit_and (w i) (2 ^ b) == 0)) [
        | inl clear ↦ elim (Bool-cases (run_free w n (i * 32 + b))) [
          | inl yes' ↦ rw (clear, at, yes', at') (here (run_free w n) (omega arith) yes')
          | inr no' ↦ rw (clear, at, no') (rest no')
        ]
        | inr taken ↦ rw taken (
            rest (
              first_taken w (i * 32 + b) n (omega arith) positive
                (rw (is_free_at w i b (i * 32 + b) h refl (omega arith)) taken)))
      ]

  pub find_runs-Least :
      (r i m : ℕ)
      → i + r ≡ m
      → m * 32 + n ≤ 2 ^ 32
      → Least (run_free w n) (i * 32) (m * 32) (find_runs r i w n)
  unfolding find_runs
  find_runs-Least zero i m e small = let e' : m ≡ i = omega arith in rw e' (nothing (run_free w n))
  find_runs-Least (suc r) i m e small = elim (Bool-cases (w i == 0xFFFFFFFF)) [
    | inl full ↦ rw full (
        past (run_free w n) (omega arith)
          (λ c l k.
            first_taken w c n (omega arith) positive (full_frames w h i (ground arith) c l k))
          (find_runs-Least r (suc i) m (omega arith) small))
    | inr open' ↦ rw open' (
        joined (scan_runs 32 0 i w n) (start_at (scan_runs-Least 32 0 i refl (omega arith)))
          (find_runs-Least r (suc i) m (omega arith) small))
  ]
    where
      start_at :
          {o : Option ℕ}
          → Least (run_free w n) (i * 32 + 0) (suc i * 32) o
          → Least (run_free w n) (i * 32) (suc i * 32) o
      start_at x = let e' : i * 32 + 0 ≡ i * 32 = omega arith in rw e' at x

      joined :
          (o : Option ℕ) {next : Option ℕ}
          → Least (run_free w n) (i * 32) (suc i * 32) o
          → Least (run_free w n) (suc i * 32) (m * 32) next
          → Least (run_free w n) (i * 32) (m * 32) (elim o [ some f ↦ some f | none ↦ next ])
      joined none (absent g) x = past (run_free w n) (omega arith) g x
      joined (some f) y x = widen (run_free w n) (omega arith) y
