-- ===== src/LinkedList/Delete.antt =====
-- `list_delete`, and the pops that call it.
use hexahedron.Base.{
  ℕ, ◌+◌, ◌-◌, ◌%◌, ◌^◌, ◌<◌, ◌≡◌, refl, ◌≢◌, Bool, true, false, none, some, List, [], ◌∷◌, ◌++◌,
  arith, ◌==◌, if◌then◌else◌, length, length-append, All, All-map,
}
use hexahedron.LinkedList.{
  Node, Heap, delete, set_next, set_prev, set_owner, put_head, put_tail, put_length,
}
use hexahedron.LinkedList.Linked.{Seg, Apart, IsList, last_other}
use hexahedron.LinkedList.Segments.{
  Seg-split, Seg-join, Same, Seg-end, Seg-start, Seg-last, Seg-real, Seg-first, Apart-split,
  Apart-join,
}

-- the heap after the node `a` has been taken out
links_cut : ℕ → ℕ → Heap → Heap
links_cut l a h =
    let h1 = if a == (h.lists l).head then put_head l (h.nodes a).next h else h in
    let h2 = if a == (h1.lists l).tail then put_tail l (h1.nodes a).prev h1 else h1 in
    let h3 =
      if (h2.nodes a).next == 0 then h2 else set_prev (h2.nodes a).next (h2.nodes a).prev h2 in
    if (h3.nodes a).prev == 0 then h3 else set_next (h3.nodes a).prev (h3.nodes a).next h3

taken_out : ℕ → ℕ → Heap → Heap
unfolding links_cut
taken_out l a h =
    let h7 = set_owner a 0 (set_next a 0 (set_prev a 0 (links_cut l a h))) in
    put_length l ((h7.lists l).length + 2 ^ 32 - 1) h7

-- Writes under a test that do not go through NULL.
some_if :
    (t z : Bool) (x y : Heap)
    → z ≡ false
    → (if t then (if z then none else some x) else some y) ≡ some (if t then x else y)
some_if true z x y e = rw e
some_if false z x y e = refl

guard_if :
    (z : Bool) (x y : Heap)
    → (if z then some y else (if z then none else some x)) ≡ some (if z then y else x)
guard_if true x y = refl
guard_if false x y = refl

delete-taken_out :
    (l a : ℕ) (h : Heap)
    → a ≢ 0
    → (h.nodes a).next ≢ a
    → (h.nodes a).prev ≢ a
    → delete l a h ≡ some (taken_out l a h)
unfolding delete taken_out
delete-taken_out l a h real nn np =
    let z : (a == 0) ≡ false = ground arith in
    let h1 = if a == (h.lists l).head then put_head l (h.nodes a).next h else h in
    let h2 = if a == (h1.lists l).tail then put_tail l (h1.nodes a).prev h1 else h1 in
    let h3 =
      if (h2.nodes a).next == 0 then h2 else set_prev (h2.nodes a).next (h2.nodes a).prev h2 in
    rw
      (
        some_if (a == (h.lists l).head) (a == 0) (put_head l (h.nodes a).next h) h z,
        some_if (a == (h1.lists l).tail) (a == 0) (put_tail l (h1.nodes a).prev h1) h1 z,
        z,
        guard_if ((h2.nodes a).next == 0) (set_prev (h2.nodes a).next (h2.nodes a).prev h2) h2,
        guard_if ((h3.nodes a).prev == 0) (set_next (h3.nodes a).prev (h3.nodes a).next h3) h3,
      )
      refl

-- What the heap looks like.
module _ (l a : ℕ) (h : Heap) (nn : (h.nodes a).next ≢ a) (np : (h.nodes a).prev ≢ a) where
  next_of :
      (b : ℕ)
      → ((taken_out l a h).nodes b).next ≡ (
          if b == a
          then 0
          else if b == (h.nodes a).prev
          then (if b == 0 then (h.nodes b).next else (h.nodes a).next)
          else (h.nodes b).next)
  unfolding taken_out
  next_of b = ground arith

  prev_of :
      (b : ℕ)
      → ((taken_out l a h).nodes b).prev ≡ (
          if b == a
          then 0
          else if b == (h.nodes a).next
          then (if b == 0 then (h.nodes b).prev else (h.nodes a).prev)
          else (h.nodes b).prev)
  unfolding taken_out
  prev_of b = ground arith

  value_of : (b : ℕ) → ((taken_out l a h).nodes b).value ≡ (h.nodes b).value
  unfolding taken_out
  value_of b = ground arith

  head_of :
      ((taken_out l a h).lists l).head
      ≡ (if a == (h.lists l).head then (h.nodes a).next else (h.lists l).head)
  unfolding taken_out
  head_of = ground arith

  tail_of :
      ((taken_out l a h).lists l).tail
      ≡ (if a == (h.lists l).tail then (h.nodes a).prev else (h.lists l).tail)
  unfolding taken_out
  tail_of = ground arith

  length_of : ((taken_out l a h).lists l).length ≡ ((h.lists l).length + 2 ^ 32 - 1) % 2 ^ 32
  unfolding taken_out
  length_of = ground arith

module _ (l a q : ℕ) (h : Heap) (real : a ≢ 0) (nn : (h.nodes a).next ≢ a)
    (back : (h.nodes a).prev ≡ q) (na : q ≢ a) where
  np : (h.nodes a).prev ≢ a
  np e = na (ground arith)

  abbrev cut : Heap
  cut = taken_out l a h

  -- A node that is neither the one taken out nor a neighbour of it keeps its links.
  keeps : (b : ℕ) → b ≢ a → b ≢ q → b ≢ (h.nodes a).next → Same h.nodes cut.nodes b
  keeps b e f g = (ground (arith, prev_of l a h nn np b), ground (arith, next_of l a h nn np b))

  front :
      (mid : ℕ) (ys : List ℕ)
      → Seg h.nodes 0 (h.lists l).head ys mid q
      → mid ≡ a
      → Apart ys
      → All (λ b. b ≢ a) ys
      → All (λ b. b ≢ (h.nodes a).next) ys
      → Seg cut.nodes 0 (cut.lists l).head ys (h.nodes a).next q
  front mid [] (e, eq) e' apart out other = (ground (arith, head_of l a h nn np), eq)
  front mid (c ∷ cs) s e' apart out other =
      let first : (h.lists l).head ≢ a = λ e. out.0 (ground (arith, s.0)) in
      let head : (cut.lists l).head ≡ (h.lists l).head = ground (arith, head_of l a h nn np) in
      let nq =
        Seg-last (λ b. b ≢ 0) h.nodes 0 (h.lists l).head c cs mid q
          (Seg-real h.nodes 0 (h.lists l).head (c ∷ cs) mid q s) s in
      let ny = Seg-last (λ b. b ≢ (h.nodes a).next) h.nodes 0 (h.lists l).head c cs mid q other s in
      rw head (
        Seg-end h.nodes cut.nodes 0 (h.lists l).head c cs mid (h.nodes a).next q apart
          (ground (arith, prev_of l a h nn np q)) (ground (arith, next_of l a h nn np q))
          (both (c ∷ cs) out other) s)
    where
      both :
          (xs : List ℕ)
          → All (λ b. b ≢ a) xs
          → All (λ b. b ≢ (h.nodes a).next) xs
          → All (λ b. b ≢ q → Same h.nodes (taken_out l a h).nodes b) xs
      both [] o o' = tt
      both (b ∷ bs) (o, os) (o', os') = ((λ f. keeps b o f o'), both bs os os')

  rear :
      (zs : List ℕ)
      → Seg h.nodes a (h.nodes a).next zs 0 (h.lists l).tail
      → Apart zs
      → All (λ b. b ≢ a) zs
      → All (λ b. b ≢ q) zs
      → Seg cut.nodes q (h.nodes a).next zs 0 (cut.lists l).tail
  rear [] (e, et) apart out other = (e, ground (arith, tail_of l a h nn np))
  rear (d ∷ ds) s (first, apart) out other =
      let last = Seg-last (λ b. b ≢ a) h.nodes a (h.nodes a).next d ds 0 (h.lists l).tail out s in
      let tail : (cut.lists l).tail ≡ (h.lists l).tail = ground (arith, tail_of l a h nn np) in
      let e : (h.nodes a).next ≡ d = s.0 in
      rw tail (
        Seg-start h.nodes cut.nodes a q (h.nodes a).next d ds 0 (h.lists l).tail
          (ground (arith, prev_of l a h nn np d, s.1))
          (ground (arith, next_of l a h nn np d, other.0)) (both ds first out.1 other.1 e) s)
    where
      both :
          (xs : List ℕ)
          → All (λ b. b ≢ d) xs
          → All (λ b. b ≢ a) xs
          → All (λ b. b ≢ q) xs
          → (h.nodes a).next ≡ d
          → All (Same h.nodes (taken_out l a h).nodes) xs
      both [] o o' o'' e = tt
      both (b ∷ bs) (o, os) (o', os') (o'', os'') e =
          (keeps b o' o'' (λ f. o (ground arith)), both bs os os' os'' e)

-- No node before `a` is the one behind it, and none behind it is the last one before it.
module _ (n : ℕ → Node) (a x mid q t : ℕ) where
  next_apart :
      (ys zs : List ℕ)
      → All (λ b. (a ≢ b) × All (λ c. c ≢ b) zs) ys
      → Seg n a (n a).next zs 0 t
      → Seg n 0 x ys mid q
      → All (λ b. b ≢ (n a).next) ys
  next_apart ys [] cross (e, _) s =
      All-map ys (λ b p eq. p (ground arith)) (Seg-real n 0 x ys mid q s)
  next_apart ys (d ∷ ds) cross (e, _, _, _) s = All-map ys (λ b p eq. p.1.0 (ground arith)) cross

  last_apart :
      (ys zs : List ℕ)
      → All (λ b. (a ≢ b) × All (λ c. c ≢ b) zs) ys
      → Seg n 0 x ys mid q
      → Seg n a (n a).next zs 0 t
      → All (λ b. b ≢ q) zs
  last_apart [] zs cross (_, eq) s =
      All-map zs (λ b p e. p (ground arith)) (Seg-real n a (n a).next zs 0 t s)
  last_apart (c ∷ cs) zs cross s s' =
      Seg-last (λ b. All (λ d. d ≢ b) zs) n 0 x c cs mid q (All-map (c ∷ cs) (λ b p. p.1) cross) s

-- A node in the middle of a list, taken out: the list has the other nodes in their order, and no value
-- of a node changes.
pub delete_lem :
    {l : ℕ} {h : Heap} (ys zs : List ℕ) (a : ℕ)
    → IsList l (ys ++ (a ∷ zs)) h
    → length (ys ++ (a ∷ zs)) < 2 ^ 32
    → (g : Heap) × (delete l a h ≡ some g)
      × IsList l (ys ++ zs) g
      × ((b : ℕ) → (g.nodes b).value ≡ (h.nodes b).value)
delete_lem {l} {h} ys zs a v small =
    let n = h.nodes in
    let (mid, q, before, (e, real, back, behind)) =
      Seg-split n 0 (h.lists l).head ys (a ∷ zs) 0 (h.lists l).tail v.linked in
    let (apart_ys, (out, apart_zs), cross) = Apart-split ys (a ∷ zs) v.apart in
    let out_ys : All (λ b. b ≢ a) ys = All-map ys (λ x p eq. p.0 (ground arith)) cross in
    let nn =
      Seg-first n a (n a).next zs 0 (h.lists l).tail a out (λ eq. real (ground arith)) behind in
    let na = last_other n 0 (h.lists l).head ys mid q a out_ys (λ eq. real (ground arith)) before in
    let not_next : All (λ b. b ≢ (n a).next) ys =
      next_apart n a (h.lists l).head mid q (h.lists l).tail ys zs cross behind before in
    let not_last : All (λ b. b ≢ q) zs =
      last_apart n a (h.lists l).head mid q (h.lists l).tail ys zs cross before behind in
    (
      taken_out l a h,
      delete-taken_out l a h real nn (λ eq. na (ground arith)),
      record {
        linked =
            Seg-join (taken_out l a h).nodes 0 ((taken_out l a h).lists l).head ys zs (n a).next q 0
              ((taken_out l a h).lists l).tail
              (front l a q h real nn back na mid ys before e apart_ys out_ys not_next)
              (rear l a q h real nn back na zs behind apart_zs out not_last);
        apart = Apart-join ys zs apart_ys apart_zs (All-map ys (λ x p. p.1) cross);
        counted = ground (
          arith,
          length_of l a h nn (λ eq. na (ground arith)),
          v.counted,
          length-append ys zs,
          length-append ys (a ∷ zs),
        );
      },
      value_of l a h nn (λ eq. na (ground arith)),
    )
