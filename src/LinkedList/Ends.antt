-- ===== src/LinkedList/Ends.antt =====
-- `list_pop` and `list_popleft`.
use hexahedron.Base.{
  ap, ℕ, ◌+◌, ◌^◌, ◌<◌, ◌≡◌, ◌≢◌, none, some, List, [], ◌∷◌, ◌++◌, arith, length, length-append,
  append-nil,
}
use hexahedron.LinkedList.{Node, Heap, delete, pop, popleft, walk, delete_index}
use hexahedron.LinkedList.Linked.{Seg, IsList}
use hexahedron.LinkedList.Segments.{Seg-split, Seg-real, Seg-last}
use hexahedron.LinkedList.Delete.{delete_lem}

-- the values of the nodes stay
abbrev pub SameValues : Heap → Heap → Type 0
SameValues h g = (b : ℕ) → (g.nodes b).value ≡ (h.nodes b).value

-- `list_pop` of a list takes out its last node and returns it; of an empty list it returns NULL and
-- changes nothing. `list_popleft` does so with the first node.
pub pop_lem :
    {l : ℕ} {h : Heap}
    → ((ys : List ℕ) (a : ℕ)
        → IsList l (ys ++ (a ∷ [])) h
        → length (ys ++ (a ∷ [])) < 2 ^ 32
        → (g : Heap) × (pop l h ≡ some (a, g)) × IsList l ys g × SameValues h g)
      × ((a : ℕ) (zs : List ℕ)
          → IsList l (a ∷ zs) h
          → length (a ∷ zs) < 2 ^ 32
          → (g : Heap) × (popleft l h ≡ some (a, g)) × IsList l zs g × SameValues h g)
      × (IsList l [] h → (pop l h ≡ some (0, h)) × (popleft l h ≡ some (0, h)))
unfolding pop popleft
pop_lem {l} {h} = (
  (λ ys a v small.
      let (mid, q, before, (_, real, _, (_, last))) =
        Seg-split h.nodes 0 (h.lists l).head ys (a ∷ []) 0 (h.lists l).tail v.linked in
      let (g, called, listed, same) = delete_lem ys [] a v small in
      let listed' : IsList l ys g = rw append-nil at listed in
      (g, ground (arith, last, called), listed', same)),
  (λ a zs v small.
      let (g, called, listed, same) = delete_lem [] zs a v small in
      (g, ground (arith, v.linked.0, v.linked.1, called), listed, same)),
  (λ v. (ground (arith, v.linked.1), ground (arith, v.linked.0))),
)

walk-Seg :
    (h : Heap) (p x : ℕ) (ys : List ℕ) (mid q i : ℕ)
    → Seg h.nodes p x ys mid q
    → walk (length ys) i x h ≡ (mid, i + length ys)
unfolding walk
walk-Seg h p x [] mid q i (e, _) = ground arith
walk-Seg h p x (a ∷ rest) mid q i (e, real, _, s) =
    ground (arith, walk-Seg h a (h.nodes a).next rest mid q (i + 1) s)

delete-null : (l : ℕ) (h : Heap) → (h.lists l).head ≢ 0 → (h.lists l).tail ≢ 0 → delete l 0 h ≡ none
unfolding delete
delete-null l h a b = ground arith

ends_real :
    (n : ℕ → Node) (x t a : ℕ) (ys zs : List ℕ) → Seg n 0 x (ys ++ (a ∷ zs)) 0 t → (x ≢ 0) × (t ≢ 0)
ends_real n x t a [] zs s = (
  (λ e. s.1 (ground arith)),
  Seg-last (λ b. b ≢ 0) n 0 x a zs 0 t (Seg-real n 0 x (a ∷ zs) 0 t s) s,
)
ends_real n x t a (c ∷ cs) zs s = (
  (λ e. s.1 (ground arith)),
  Seg-last (λ b. b ≢ 0) n 0 x c (cs ++ (a ∷ zs)) 0 t (Seg-real n 0 x (c ∷ (cs ++ (a ∷ zs))) 0 t s)
      s,
)

-- `list_delete_index` of an index below the length deletes the node that stands there. Of the length
-- itself, in a list that is not empty, it reads through NULL; of a larger index it does nothing.
pub delete_index_lem :
    {l : ℕ} {h : Heap} (ys zs : List ℕ) (a : ℕ)
    → IsList l (ys ++ (a ∷ zs)) h
    → (delete_index l (length ys) h ≡ delete l a h)
      × (delete_index l (length (ys ++ (a ∷ zs))) h ≡ none)
      × ((i : ℕ) → length (ys ++ (a ∷ zs)) < i → delete_index l i h ≡ some h)
unfolding delete_index
delete_index_lem {l} {h} ys zs a v =
    let (mid, q, before, (e, real, back, behind)) =
      Seg-split h.nodes 0 (h.lists l).head ys (a ∷ zs) 0 (h.lists l).tail v.linked in
    let walked = walk-Seg h 0 (h.lists l).head ys mid q 0 before in
    let all = walk-Seg h 0 (h.lists l).head (ys ++ (a ∷ zs)) 0 (h.lists l).tail 0 v.linked in
    let (first, last) = ends_real h.nodes (h.lists l).head (h.lists l).tail a ys zs v.linked in
    (
      ground (arith, walked, v.counted, length-append ys (a ∷ zs)),
      ground (arith, all, v.counted, delete-null l h first last),
      λ i less. ground (arith, v.counted),
    )

-- In a list that is not empty, of which `a` is the first node and `b` the last: `list_pop` takes out
-- and returns `b`, `list_popleft` takes out and returns `a`, the other nodes stay in their order, and
-- no value of a node changes.
pub pop-popleft :
    {l : ℕ} {h : Heap} (a b : ℕ) (ys zs : List ℕ)
    → a ∷ zs ≡ ys ++ (b ∷ [])
    → IsList l (a ∷ zs) h
    → length (a ∷ zs) < 2 ^ 32
    → ((g : Heap) × (pop l h ≡ some (b, g)) × IsList l ys g × SameValues h g)
      × ((g : Heap) × (popleft l h ≡ some (a, g)) × IsList l zs g × SameValues h g)
pop-popleft {l} {h} a b ys zs e v small =
    let (at_end, at_front, _) = pop_lem {l = l} {h = h} in
    let v' : IsList l (ys ++ (b ∷ [])) h = rw e at v in
    let small' : length (ys ++ (b ∷ [])) < 2 ^ 32 = omega (arith, small, ap length e) in
    (at_end ys b v' small', at_front a zs v small)
