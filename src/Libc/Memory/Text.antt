-- ===== src/Libc/Memory/Text.antt =====
-- `strcpy`, `strncpy`, `strcat` and `strncat` on blocks that do not overlap.
use Prim.Native.Nat.{min}
use hexahedron.Base.{
  ℕ, zero, suc, ◌+◌, ◌≤◌, ◌<◌, ◌≡◌, ◌≢◌, ◌∙◌, ◌⊎◌, true, false, arith, ◌==◌, if◌then◌else◌, some,
}
use hexahedron.Libc.Memory.{
  Memory, store, strcpy, strncpy, find_end, append_loop, append_some, strcat, strncat,
}
use hexahedron.Libc.Memory.Copy.{copied, Apart}

-- A string of `n` bytes other than NUL stands at `s`, and then a NUL.
pub record TextAt (m : Memory) (s n : ℕ) : Type 0 where
  pub bytes : (i : ℕ) → i < n → m (s + i) ≢ 0
  pub ends : m (s + n) ≡ 0

TextAt-first : {m : Memory} {s n : ℕ} → TextAt m s (suc n) → (m s == 0) ≡ false
TextAt-first {s} t =
    let e : s + 0 ≡ s = omega arith in let h = rw e at (t.bytes 0 (omega arith)) in ground arith

TextAt-last : {m : Memory} {s : ℕ} → TextAt m s 0 → m s ≡ 0
TextAt-last {s} t = let e : s + 0 ≡ s = omega arith in rw e at t.ends

-- The rest of a string, after a write outside it.
TextAt-rest :
    {m : Memory} {s n : ℕ} (d v : ℕ)
    → TextAt m s (suc n)
    → (d < s) ⊎ (s + suc n < d)
    → TextAt (store m d v) (s + 1) n
TextAt-rest {m} {s} {n} d v t out = record {
  bytes = λ i l.
      let e : s + suc i ≡ s + 1 + i = omega arith in
      let h = rw e at (t.bytes (suc i) (omega arith)) in
      let miss : (s + 1 + i == d) ≡ false = ground arith in rw miss h;
  ends =
      let e : s + suc n ≡ s + 1 + n = omega arith in
      let h = rw e at t.ends in let miss : (s + 1 + n == d) ≡ false = ground arith in rw miss h;
}

-- `strcpy` copies the string with its terminator and changes no other byte.
pub strcpy-copied :
    (n fuel d s : ℕ) (m : Memory)
    → TextAt m s n
    → Apart d s (suc n)
    → n < fuel
    → (m' : Memory) × (strcpy fuel d s m ≡ some m') × ((a : ℕ) → m' a ≡ copied d s (suc n) m a)
unfolding strcpy
strcpy-copied n zero d s m t h l = elim l [ ]
strcpy-copied zero (suc fuel) d s m t h l =
    let end : (m s == 0) ≡ true = ground (arith, TextAt-last t) in
    (store m d (m s), rw end, λ a. ground arith)
strcpy-copied (suc n) (suc fuel) d s m t h l =
    let more = TextAt-first t in
    let (m', called, bytes) =
      strcpy-copied n fuel (d + 1) (s + 1) (store m d (m s)) (TextAt-rest d (m s) t (omega arith))
        (omega arith) (omega arith) in
    (m', rw more called, λ a. ground (arith, bytes a))

-- `strncpy` copies `length` bytes and changes no other byte. It does not stop at a NUL: whatever
-- follows the string is copied as well, where the C standard asks for NUL bytes.
pub strncpy-copied :
    (n d s : ℕ) (m : Memory) → Apart d s n → (a : ℕ) → strncpy d s n m a ≡ copied d s n m a
unfolding strncpy
strncpy-copied zero d s m h a = ground arith
strncpy-copied (suc n) d s m h a =
    ground (arith, strncpy-copied n (d + 1) (s + 1) (store m d (m s)) (omega arith) a)

TextAt-tail : {m : Memory} {s n : ℕ} → TextAt m s (suc n) → TextAt m (s + 1) n
TextAt-tail {s} {n} t = record {
  bytes =
      λ i l. let e : s + suc i ≡ s + 1 + i = omega arith in rw e at (t.bytes (suc i) (omega arith));
  ends = let e : s + suc n ≡ s + 1 + n = omega arith in rw e at t.ends;
}

find_end_lem :
    (n fuel s : ℕ) (m : Memory) → TextAt m s n → n < fuel → find_end fuel s m ≡ some (s + n)
unfolding find_end
find_end_lem n zero s m t l = elim l [ ]
find_end_lem zero (suc fuel) s m t l =
    let end : (m s == 0) ≡ true = ground (arith, TextAt-last t) in rw end (ground arith)
find_end_lem (suc n) (suc fuel) s m t l =
    let more = TextAt-first t in
    rw more (ground (arith, find_end_lem n fuel (s + 1) m (TextAt-tail t)))

append_loop-copied :
    (n fuel d s : ℕ) (m : Memory)
    → TextAt m s n
    → Apart d s (suc n)
    → n < fuel
    → (m' : Memory) × (append_loop fuel d s m ≡ some m') × ((a : ℕ) → m' a ≡ copied d s (suc n) m a)
unfolding append_loop
append_loop-copied n zero d s m t h l = elim l [ ]
append_loop-copied zero (suc fuel) d s m t h l =
    let end : (m s == 0) ≡ true = ground (arith, TextAt-last t) in
    (store m d 0, rw end, λ a. ground (arith, TextAt-last t))
append_loop-copied (suc n) (suc fuel) d s m t h l =
    let more = TextAt-first t in
    let (m', called, bytes) =
      append_loop-copied n fuel (d + 1) (s + 1) (store m d (m s))
        (TextAt-rest d (m s) t (omega arith)) (omega arith) (omega arith) in
    (m', rw more called, λ a. ground (arith, bytes a))

-- `strcat` puts the source with its terminator over the terminator of the destination and changes no
-- other byte, if the source lies outside the destination as it will be.
pub strcat-copied :
    (k n fuel d s : ℕ) (m : Memory)
    → TextAt m d k
    → TextAt m s n
    → (d + k + suc n ≤ s) ⊎ (s + suc n ≤ d)
    → k < fuel
    → n < fuel
    → (m' : Memory) × (strcat fuel d s m ≡ some m')
      × ((a : ℕ) → m' a ≡ copied (d + k) s (suc n) m a)
strcat-copied k n fuel d s m front t h l l' =
    let (m', called, bytes) = append_loop-copied n fuel (d + k) s m t (omega arith) l' in
    (m', unfold strcat in (rw (find_end_lem k fuel d m front l) called), bytes)

-- The bytes appended, and a NUL behind them.
abbrev pub appended : ℕ → ℕ → ℕ → Memory → Memory
appended d s n m a = if a == d + n then 0 else copied d s n m a

shifted :
    (n d s : ℕ) (m : Memory)
    → (d < s) ⊎ (s + suc n < d)
    → (a : ℕ) → appended (d + 1) (s + 1) n (store m d (m s)) a ≡ appended d s (suc n) m a
shifted n d s m h a = ground arith

append_some-appended :
    (left n d s : ℕ) (m : Memory)
    → TextAt m s n
    → Apart d s (suc n)
    → (a : ℕ) → append_some left d s m a ≡ appended d s (min left n) m a
unfolding append_some
append_some-appended zero n d s m t h a = let e : min 0 n ≡ 0 = omega arith in rw e (ground arith)
append_some-appended (suc left) zero d s m t h a =
    let e : min (suc left) 0 ≡ 0 = omega arith in
    let end : (m s == 0) ≡ true = ground (arith, TextAt-last t) in rw (e, end) (ground arith)
append_some-appended (suc left) (suc n) d s m t h a =
    let e : min (suc left) (suc n) ≡ suc (min left n) = omega arith in
    let more = TextAt-first t in
    let rest =
      append_some-appended left n (d + 1) (s + 1) (store m d (m s))
        (TextAt-rest d (m s) t (omega arith)) (omega arith) a in
    rw (e, more) (rest ∙ shifted (min left n) d s m (omega arith) a)

-- `strncat` appends at most n bytes of the source and then a NUL, and changes no other byte, if the
-- source lies outside the destination as it will be.
pub strncat-appended :
    (k n fuel d s limit : ℕ) (m : Memory)
    → TextAt m d k
    → TextAt m s n
    → (d + k + suc n ≤ s) ⊎ (s + suc n ≤ d)
    → k < fuel
    → (m' : Memory) × (strncat fuel d s limit m ≡ some m')
      × ((a : ℕ) → m' a ≡ appended (d + k) s (min limit n) m a)
strncat-appended k n fuel d s limit m front t h l = (
  append_some limit (d + k) s m,
  unfold strncat in (rw (find_end_lem k fuel d m front l)),
  λ a. append_some-appended limit n (d + k) s m t (omega arith) a,
)
