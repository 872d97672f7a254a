-- ===== src/Vfs/Growth.antt =====
-- How a mount changes the tree: nodes are created below others, and no name and no child is lost.
use hexahedron.Base.{
  ℕ, ◌+◌, ◌<◌, ◌≤◌, ◌≡◌, refl, ap, ◌∙◌, sym, true, false, Option, none, some, List, [], ◌∷◌, ◌++◌,
  arith, ◌==◌, if◌then◌else◌, All, All-append, All-map, append_assoc, append-nil, Bool-cases, inl,
  inr,
}
use hexahedron.Hashmap.{same_key}
use hexahedron.Vfs.{Name}
use hexahedron.Vfs.Tree.{Entry, Tree, tree_insert_child, find_child}

-- every child of an allocated node is allocated
unfoldable pub Allocated : Tree → Type 0
Allocated tree = (j : ℕ) → j < tree.fresh → All (λ c. c < tree.fresh) (tree.heap j).children

-- the node that the names lead to from a node
unfoldable pub lookup : Tree → ℕ → List Name → Option ℕ
lookup tree n [] = some n
lookup tree n (p ∷ ps) = elim (find_child tree.heap (tree.heap n).children p) [
  | none ↦ none
  | some child ↦ lookup tree child ps
]

-- The root is kept, the allocated nodes keep their names, and children are only put behind those that they have.
unfoldable pub Grows : Tree → Tree → Type 0
Grows t u =
    ((t.fresh ≤ u.fresh) × (u.root ≡ t.root))
    × ((j : ℕ)
        → j < t.fresh
        → ((u.heap j).value.name ≡ (t.heap j).value.name)
          × ((more : List ℕ) × ((u.heap j).children ≡ (t.heap j).children ++ more)))

pub Grows-refl : (t : Tree) → Grows t t
unfolding Grows
Grows-refl t = ((omega arith, refl), λ j h. (refl, ([], sym (append-nil (t.heap j).children))))

pub Grows-trans : (t u v : Tree) → Grows t u → Grows u v → Grows t v
unfolding Grows
Grows-trans t u v ((a, r), f) ((b, r'), g) = (
  (omega arith, r' ∙ r),
  λ j h.
      let (name, (xs, x)) = f j h in
      let (name', (ys, y)) = g j (omega arith) in
      (name' ∙ name, (xs ++ ys, y ∙ ap (λ c. c ++ ys) x ∙ append_assoc (t.heap j).children xs ys)),
)

-- What is found among the children is found among more of them, first.
pub find_child-append :
    (t u : Tree) (cs more : List ℕ) (p : Name)
    → Grows t u
    → All (λ c. c < t.fresh) cs
    → (o : Option ℕ) → find_child t.heap cs p ≡ o
    → find_child u.heap (cs ++ more) p
      ≡ elim o [ none ↦ find_child u.heap more p | some c ↦ some c ]
unfolding find_child Grows
find_child-append t u [] more p g h o e = rw (sym e) refl
find_child-append t u (c ∷ cs) more p g (hc, h) o e =
    let same : (u.heap c).value.name ≡ (t.heap c).value.name = (g.1 c hc).0 in
    elim (Bool-cases (same_key (t.heap c).value.name p)) [
      | inl hit ↦ let o' : some c ≡ o = rw hit at e in rw (same, hit, sym o') refl
      | inr miss ↦
          let e' : find_child t.heap cs p ≡ o = rw miss at e in
          rw (same, miss) (find_child-append t u cs more p g h o e')
    ]

module _ (t : Tree) (parent : ℕ) (e : Entry) (below : parent < t.fresh) where
  abbrev pub inserted : Tree
  inserted = (tree_insert_child t parent e).1

  -- what the allocated nodes have after the insertion
  pub inserted_old :
      (j : ℕ)
      → j < t.fresh
      → ((inserted.heap j).value ≡ (t.heap j).value)
        × ((inserted.heap j).children
            ≡ (t.heap j).children ++ (if parent == j then t.fresh ∷ [] else []))
  unfolding tree_insert_child
  inserted_old j h =
      let other : (t.fresh == j) ≡ false = ground arith in
      let other' : (t.fresh == parent) ≡ false = ground arith in
      elim (Bool-cases (parent == j)) [
        | inl same ↦
            let p : parent ≡ j = ground arith in
            rw (same, other')
              (ap (λ k. (t.heap k).value) p, ap (λ k. (t.heap k).children ++ (t.fresh ∷ [])) p)
        | inr apart ↦ rw (apart, other) (refl, sym (append-nil (t.heap j).children))
      ]

  pub inserted_new : ((inserted.heap t.fresh).value ≡ e) × ((inserted.heap t.fresh).children ≡ [])
  unfolding tree_insert_child
  inserted_new =
      let apart : (parent == t.fresh) ≡ false = ground arith in
      let same : (t.fresh == t.fresh) ≡ true = ground arith in rw (apart, same) (refl, refl)

  pub inserted_fresh : inserted.fresh ≡ t.fresh + 1
  unfolding tree_insert_child
  inserted_fresh = refl

  pub inserted-Grows : Grows t inserted
  unfolding Grows tree_insert_child
  inserted-Grows = (
    (omega (arith, inserted_fresh), refl),
    λ j h. let (v, c) = inserted_old j h in (ap (λ x. x.name) v, (_, c)),
  )

  pub inserted-Allocated : Allocated t → Allocated inserted
  unfolding Allocated
  inserted-Allocated a j h = elim (Bool-cases (t.fresh == j)) [
    | inl same ↦
        let p : t.fresh ≡ j = ground arith in
        let none_yet : (inserted.heap j).children ≡ [] =
          ap (λ k. (inserted.heap k).children) (sym p) ∙ inserted_new.1 in
        rw none_yet tt
    | inr apart ↦
        let old : j < t.fresh = ground (arith, inserted_fresh) in
        let kept : All (λ c. c < inserted.fresh) (t.heap j).children =
          All-map (t.heap j).children (λ c h'. omega (arith, inserted_fresh)) (a j old) in
        rw ((inserted_old j old).1) (
          All-append _ (t.heap j).children _ kept (elim (Bool-cases (parent == j)) [
            | inl at_parent ↦ rw at_parent (omega (arith, inserted_fresh), tt)
            | inr elsewhere ↦ rw elsewhere tt
          ]))
  ]
