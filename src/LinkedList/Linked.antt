-- ===== src/LinkedList/Linked.antt =====
-- Which heaps hold a list of nodes, and that `list_append_node` puts a node at its end.
use hexahedron.Base.{
  ℕ, ◌+◌, ◌^◌, ◌<◌, ◌≡◌, refl, ◌≢◌, some, List, [], ◌∷◌, ◌++◌, arith, length, length-append, All,
  All-append,
}
use hexahedron.LinkedList.{
  Node, Heap, append_node, set_next, set_prev, set_owner, put_head, put_tail, put_length,
}

-- The nodes from `x` on are those of the list, each linked back to the one before it, from `p` on;
-- `q` is the last one, and `y` stands behind it.
abbrev pub Seg : (ℕ → Node) → ℕ → ℕ → List ℕ → ℕ → ℕ → Type 0
Seg nodes p x [] y q = (x ≡ y) × (q ≡ p)
Seg nodes p x (a ∷ rest) y q =
    (x ≡ a) × (a ≢ 0) × ((nodes a).prev ≡ p) × Seg nodes a (nodes a).next rest y q

-- a list that ends, with its last node
abbrev pub Linked : (ℕ → Node) → ℕ → ℕ → List ℕ → ℕ → Type 0
Linked nodes p x xs t = Seg nodes p x xs 0 t

-- no address occurs twice
abbrev pub Apart : List ℕ → Type 0
Apart [] = Unit
Apart (a ∷ rest) = All (λ b. b ≢ a) rest × Apart rest

pub record IsList (l : ℕ) (xs : List ℕ) (h : Heap) : Type 0 where
  pub linked : Linked h.nodes 0 (h.lists l).head xs (h.lists l).tail
  pub apart : Apart xs
  pub counted : (h.lists l).length ≡ length xs

-- The last node is one of the list's.
pub last_other :
    (n : ℕ → Node) (p x : ℕ) (xs : List ℕ) (y q b : ℕ)
    → All (λ c. c ≢ b) xs
    → p ≢ b
    → Seg n p x xs y q
    → q ≢ b
last_other n p x [] y q b other hp (_, e) = λ e'. hp (ground arith)
last_other n p x (a ∷ rest) y q b (ha, other) hp (_, _, _, h) =
    last_other n a (n a).next rest y q b other ha h

-- A node `a` is linked behind the last node `t` of a list that has one.
module _ (n m : ℕ → Node) (a t : ℕ) (real : a ≢ 0) (ends : (m a).next ≡ 0) (back : (m a).prev ≡ t)
    (forth : (m t).next ≡ a) (kept : (m t).prev ≡ (n t).prev)
    (same : (b : ℕ) → b ≢ a → b ≢ t → m b ≡ n b) where
  Linked-snoc :
      (p x b : ℕ) (bs : List ℕ)
      → Linked n p x (b ∷ bs) t
      → Apart (b ∷ bs)
      → All (λ c. c ≢ a) (b ∷ bs)
      → Linked m p x ((b ∷ bs) ++ (a ∷ [])) a
  Linked-snoc p x b [] (hx, hb, hp, (hn, ht)) apart other =
      let e : t ≡ b = ht in
      let kept' : (m b).prev ≡ (n b).prev = rw e at kept in
      let forth' : (m b).next ≡ a = rw e at forth in
      (hx, hb, ground (arith, kept', hp), (forth', real, ground (arith, back), (ends, refl)))
  Linked-snoc p x b (c ∷ cs) (hx, hb, hp, h) (first, apart) (other, others) =
      let (_, _, _, after) = h in
      let nt : t ≢ b = last_other n c (n c).next cs 0 t b first.1 first.0 after in
      let same' : m b ≡ n b = same b other (λ e. nt (ground arith)) in
      let rest : Linked m b (n b).next ((c ∷ cs) ++ (a ∷ [])) a =
        Linked-snoc b (n b).next c cs h apart others in
      let hp' : (m b).prev ≡ p = rw same' hp in
      let rest' : Linked m b (m b).next ((c ∷ cs) ++ (a ∷ [])) a = rw same' rest in
      (hx, hb, hp', rest')

Apart-snoc : (xs : List ℕ) (a : ℕ) → Apart xs → All (λ c. c ≢ a) xs → Apart (xs ++ (a ∷ []))
Apart-snoc [] a apart other = (tt, tt)
Apart-snoc (b ∷ bs) a (first, apart) (other, others) =
    (All-append _ bs (a ∷ []) first ((λ e. other (ground arith)), tt), Apart-snoc bs a apart others)

tail_real : (n : ℕ → Node) (p x b : ℕ) (bs : List ℕ) (t : ℕ) → Linked n p x (b ∷ bs) t → t ≢ 0
tail_real n p x b [] t (hx, hb, hp, (hn, ht)) = λ e. hb (ground arith)
tail_real n p x b (c ∷ cs) t (hx, hb, hp, h) = tail_real n b (n b).next c cs t h

last_in :
    (n : ℕ → Node) (p x b : ℕ) (bs : List ℕ) (t a : ℕ)
    → All (λ c. c ≢ a) (b ∷ bs)
    → Linked n p x (b ∷ bs) t
    → t ≢ a
last_in n p x b [] t a (other, others) (hx, hb, hp, (hn, ht)) = λ e. other (ground arith)
last_in n p x b (c ∷ cs) t a (other, others) (hx, hb, hp, h) =
    last_in n b (n b).next c cs t a others h

moved :
    (n : ℕ → Node) (p : ℕ) (xs : List ℕ) {x x' t t' : ℕ}
    → x' ≡ x
    → t' ≡ t
    → Linked n p x xs t
    → Linked n p x' xs t'
moved n p xs e e' h = rw (e, e') h

-- the heap after the node `a` has been linked behind the last node
abbrev behind : ℕ → ℕ → Heap → Heap
behind l a h =
    let h1 = set_owner a l h in
    let t = (h1.lists l).tail in
    let h2 = set_next a 0 (set_prev a t (set_next t a h1)) in
    put_length l ((h2.lists l).length + 1) (put_tail l a h2)

abbrev alone : ℕ → ℕ → Heap → Heap
alone l a h =
    let h2 = put_head l a (set_prev a 0 (set_next a 0 (set_owner a l h))) in
    put_length l ((h2.lists l).length + 1) (put_tail l a h2)

-- A node that is not in the list, appended: the list has its nodes and that one behind them, and no
-- value of a node changes.
pub append_node_lem :
    {l : ℕ} {xs : List ℕ} {h : Heap} (a : ℕ)
    → IsList l xs h
    → a ≢ 0
    → All (λ c. c ≢ a) xs
    → length xs + 1 < 2 ^ 32
    → (g : Heap) × (append_node l a h ≡ some g)
      × IsList l (xs ++ (a ∷ [])) g
      × ((b : ℕ) → (g.nodes b).value ≡ (h.nodes b).value)
unfolding append_node
append_node_lem {l} {xs = []} {h} a v real other room = (
  alone l a h,
  ground (arith, v.linked.1),
  record {
    linked = (ground arith, real, ground arith, (ground arith, ground arith));
    apart = (tt, tt);
    counted = ground (arith, v.counted);
  },
  λ b. ground arith,
)
append_node_lem {l} {xs = b ∷ bs} {h} a v real other room =
    let t = (h.lists l).tail in
    let nt = tail_real h.nodes 0 (h.lists l).head b bs t v.linked in
    let na = last_in h.nodes 0 (h.lists l).head b bs t a other v.linked in
    let m = (behind l a h).nodes in
    let snoc =
      Linked-snoc h.nodes m a t real (ground (arith, na)) (ground (arith, na)) (ground (arith, na))
        (ground (arith, na)) (λ c ca ct. ground arith) 0 (h.lists l).head b bs v.linked v.apart
        other in
    (
      behind l a h,
      ground (arith, nt),
      record {
        linked = moved m 0 ((b ∷ bs) ++ (a ∷ [])) (ground arith) (ground arith) snoc;
        apart = Apart-snoc (b ∷ bs) a v.apart other;
        counted = ground (arith, v.counted, length-append (b ∷ bs) (a ∷ []));
      },
      λ c. ground arith,
    )
