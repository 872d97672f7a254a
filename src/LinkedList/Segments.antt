-- ===== src/LinkedList/Segments.antt =====
-- Segments of a list: where they meet, and what a write at their ends does.
use hexahedron.Base.{ℕ, ◌≡◌, refl, ◌≢◌, List, [], ◌∷◌, ◌++◌, arith, All, All-append, All-split}
use hexahedron.LinkedList.{Node}
use hexahedron.LinkedList.Linked.{Seg, Apart, last_other}

module _ (n : ℕ → Node) where
  pub Seg-split :
      (p x : ℕ) (xs ys : List ℕ) (y t : ℕ)
      → Seg n p x (xs ++ ys) y t
      → (mid q : ℕ) × Seg n p x xs mid q × Seg n q mid ys y t
  Seg-split p x [] ys y t h = (x, p, (refl, refl), h)
  Seg-split p x (a ∷ xs) ys y t (hx, ha, hp, h) =
      let (mid, q, front, back) = Seg-split a (n a).next xs ys y t h in
      (mid, q, (hx, ha, hp, front), back)

  pub Seg-join :
      (p x : ℕ) (xs ys : List ℕ) (mid q y t : ℕ)
      → Seg n p x xs mid q
      → Seg n q mid ys y t
      → Seg n p x (xs ++ ys) y t
  Seg-join p x [] ys mid q y t (hx, hq) back = rw (hx, ← hq) back
  Seg-join p x (a ∷ xs) ys mid q y t (hx, ha, hp, front) back =
      (hx, ha, hp, Seg-join a (n a).next xs ys mid q y t front back)

-- Nodes whose links are the same form the same segment.
module _ (n m : ℕ → Node) where
  abbrev pub Same : ℕ → Type 0
  Same b = ((m b).prev ≡ (n b).prev) × ((m b).next ≡ (n b).next)

  pub Seg-same :
      (p x : ℕ) (xs : List ℕ) (y q : ℕ) → All Same xs → Seg n p x xs y q → Seg m p x xs y q
  Seg-same p x [] y q same h = h
  Seg-same p x (a ∷ rest) y q ((e, e'), same) (hx, ha, hp, h) =
      let back : (m a).prev ≡ p = rw e hp in
      let tail : Seg m a (m a).next rest y q = rw e' (Seg-same a (n a).next rest y q same h) in
      (hx, ha, back, tail)

  -- The last node gets another successor.
  pub Seg-end :
      (p x c : ℕ) (cs : List ℕ) (y y' q : ℕ)
      → Apart (c ∷ cs)
      → ((m q).prev ≡ (n q).prev)
      → ((m q).next ≡ y')
      → All (λ b. b ≢ q → Same b) (c ∷ cs)
      → Seg n p x (c ∷ cs) y q
      → Seg m p x (c ∷ cs) y' q
  Seg-end p x c [] y y' q apart kept end same (hx, hc, hp, (hn, hq)) =
      let kept' : (m c).prev ≡ (n c).prev = rw hq at kept in
      let end' : (m c).next ≡ y' = rw hq at end in (hx, hc, ground (arith, kept', hp), (end', hq))
  Seg-end p x c (d ∷ ds) y y' q (first, apart) kept end (same, rest) (hx, hc, hp, h) =
      let (_, _, _, after) = h in
      let nq : q ≢ c = last_other n d (n d).next ds y q c first.1 first.0 after in
      let (e, e') = same (λ e. nq (ground arith)) in
      let back : (m c).prev ≡ p = rw e hp in
      let tail : Seg m c (m c).next (d ∷ ds) y' q =
        rw e' (Seg-end c (n c).next d ds y y' q apart kept end rest h) in
      (hx, hc, back, tail)

  -- The first node gets another predecessor.
  pub Seg-start :
      (p p' x c : ℕ) (cs : List ℕ) (y q : ℕ)
      → ((m c).prev ≡ p')
      → ((m c).next ≡ (n c).next)
      → All Same cs
      → Seg n p x (c ∷ cs) y q
      → Seg m p' x (c ∷ cs) y q
  Seg-start p p' x c cs y q start kept same (hx, hc, hp, h) =
      let tail : Seg m c (m c).next cs y q = rw kept (Seg-same c (n c).next cs y q same h) in
      (hx, hc, start, tail)

-- Of two parts of a list, neither has a node of the other.
pub Apart-split :
    (xs ys : List ℕ) → Apart (xs ++ ys) → Apart xs × Apart ys × All (λ x. All (λ y. y ≢ x) ys) xs
Apart-split [] ys h = (tt, h, tt)
Apart-split (x ∷ xs) ys (first, h) =
    let (left, right) = All-split (λ b. b ≢ x) xs ys first in
    let (a, b, c) = Apart-split xs ys h in ((left, a), b, (right, c))

pub Apart-join :
    (xs ys : List ℕ) → Apart xs → Apart ys → All (λ x. All (λ y. y ≢ x) ys) xs → Apart (xs ++ ys)
Apart-join [] ys a b c = b
Apart-join (x ∷ xs) ys (first, a) b (right, c) =
    (All-append _ xs ys first right, Apart-join xs ys a b c)

-- No node is NULL.
pub Seg-real :
    (n : ℕ → Node) (p x : ℕ) (xs : List ℕ) (y q : ℕ) → Seg n p x xs y q → All (λ b. b ≢ 0) xs
Seg-real n p x [] y q h = tt
Seg-real n p x (a ∷ rest) y q (hx, ha, hp, h) = (ha, Seg-real n a (n a).next rest y q h)

-- What holds of all nodes holds of the last one.
pub Seg-last {κ} :
    (P : ℕ → Type κ) (n : ℕ → Node) (p x c : ℕ) (cs : List ℕ) (y q : ℕ)
    → All P (c ∷ cs)
    → Seg n p x (c ∷ cs) y q
    → P q
Seg-last P n p x c [] y q (h, _) (hx, hc, hp, (hn, hq)) = rw hq h
Seg-last P n p x c (d ∷ ds) y q (_, h) (hx, hc, hp, s) = Seg-last P n c (n c).next d ds y q h s

-- the first node of a segment, or what stands behind it
pub Seg-first :
    (n : ℕ → Node) (p x : ℕ) (xs : List ℕ) (y q : ℕ) (b : ℕ)
    → All (λ c. c ≢ b) xs
    → y ≢ b
    → Seg n p x xs y q
    → x ≢ b
Seg-first n p x [] y q b h hy (hx, hq) = λ e. hy (ground arith)
Seg-first n p x (a ∷ rest) y q b (ha, h) hy (hx, _, _, s) = λ e. ha (ground arith)
