-- ===== src/Vfs/Mounts.antt =====
-- The walk of `vfs_mount` creates the nodes of a path that are missing, and keeps the others.
use hexahedron.Base.{
  ℕ, ◌<◌, ◌≡◌, refl, ap, ◌∙◌, sym, true, Option, none, some, List, [], ◌∷◌, ◌++◌, arith, ◌==◌,
  if◌then◌else◌, ==_of_eq, All, Bool-cases, Option-cases, inl, inr,
}
use hexahedron.Libc.Strings.Compare.{IsText}
use hexahedron.Hashmap.{same_key}
use hexahedron.Hashmap.Chains.{same_key_iff}
use hexahedron.Vfs.{Name}
use hexahedron.Vfs.Pieces.{for_each}
use hexahedron.Vfs.Tree.{Entry, TreeNode, Tree, tree_insert_child, find_child, Walk, mount_part}
use hexahedron.Vfs.Growth.{
  Allocated, lookup, Grows, Grows-refl, Grows-trans, find_child-append, inserted, inserted_old,
  inserted_new, inserted_fresh, inserted-Grows, inserted-Allocated,
}

abbrev or_zero : Option ℕ → ℕ
or_zero none = 0
or_zero (some n) = n

pub some-injective : (a b : ℕ) → some a ≡ some b → a ≡ b
some-injective a b e = ap or_zero e

find_child-All :
    (P : ℕ → Type 0) (heap : ℕ → TreeNode) (cs : List ℕ) (p : Name) (c : ℕ)
    → All P cs
    → find_child heap cs p ≡ some c
    → P c
unfolding find_child
find_child-All P heap [] p c h e = ground arith
find_child-All P heap (d ∷ cs) p c (hd, h) e = elim (Bool-cases (same_key (heap d).value.name p)) [
  | inl hit ↦ let e' : some d ≡ some c = rw hit at e in rw (sym (some-injective d c e')) hd
  | inr miss ↦ find_child-All P heap cs p c h (rw miss at e)
]

-- A child that is found is still found, first, in a tree that has grown.
found-Grows :
    (t u : Tree) (n : ℕ) (p : Name) (c : ℕ)
    → Allocated t
    → Grows t u
    → n < t.fresh
    → find_child t.heap (t.heap n).children p ≡ some c
    → find_child u.heap (u.heap n).children p ≡ some c
unfolding Grows Allocated
found-Grows t u n p c a g h e =
    let (more, split) = (g.1 n h).1 in
    rw split (find_child-append t u (t.heap n).children more p g (a n h) (some c) e)

lookup_step :
    (t : Tree) (n : ℕ) (p : Name) (c : ℕ) (ps : List Name)
    → find_child t.heap (t.heap n).children p ≡ some c
    → lookup t n (p ∷ ps) ≡ lookup t c ps
unfolding lookup
lookup_step t n p c ps e = rw (lookup, e) refl

-- What a list of names leads to stays, in a tree that has grown.
pub lookup-Grows :
    (ps : List Name) (t u : Tree) (n k : ℕ)
    → Allocated t
    → Grows t u
    → n < t.fresh
    → lookup t n ps ≡ some k
    → (lookup u n ps ≡ some k) × (k < t.fresh)
unfolding lookup Allocated
lookup-Grows [] t u n k a g h e = (e, rw (sym (some-injective n k e)) h)
lookup-Grows (p ∷ ps) t u n k a g h e =
    elim (Option-cases (find_child t.heap (t.heap n).children p)) [
      | inl missing ↦ let e' : none ≡ some k = rw (lookup, missing) at e in ground arith
      | inr (c, found) ↦
          let e' : lookup t c ps ≡ some k = rw (lookup, found) at e in
          let bound : c < t.fresh = find_child-All _ t.heap (t.heap n).children p c (a n h) found in
          let (rest, k') = lookup-Grows ps t u c k a g bound e' in
          (lookup_step u n p c ps (found-Grows t u n p c a g h found) ∙ rest, k')
    ]

module _ (t : Tree) where
  -- the nodes that were allocated keep their values
  abbrev pub Keeps : Tree → Type 0
  Keeps u = (j : ℕ) → j < t.fresh → (u.heap j).value ≡ (t.heap j).value

-- A node that is inserted where the name was missing is found by it.
found_inserted :
    (t : Tree) (n : ℕ) (p : Name) (b : n < t.fresh)
    → Allocated t
    → IsText p
    → find_child t.heap (t.heap n).children p ≡ none
    → find_child
        (inserted t n (record { name = p; fs_type = none; node = none }) b).heap
        ((inserted t n (record { name = p; fs_type = none; node = none }) b).heap n).children
        p
      ≡ some t.fresh
unfolding find_child Allocated
found_inserted t n p b a hp missing =
    let entry : Entry = record { name = p; fs_type = none; node = none } in
    let u = inserted t n entry b in
    let here : (n == n) ≡ true = ==_of_eq n n refl in
    let children : (u.heap n).children ≡ (t.heap n).children ++ (t.fresh ∷ []) =
      (inserted_old t n entry b n b).1
      ∙ ap (λ x. (t.heap n).children ++ (if x then t.fresh ∷ [] else [])) here in
    let named : same_key (u.heap t.fresh).value.name p ≡ true =
      ap (λ v. same_key v.name p) (inserted_new t n entry b).0 ∙ (same_key_iff p p hp hp).1 refl in
    ap (λ cs. find_child u.heap cs p) children
    ∙ find_child-append t u (t.heap n).children (t.fresh ∷ []) p (inserted-Grows t n entry b)
        (a n b) none missing
    ∙ rw named refl

mount_found :
    (t : Tree) (n : ℕ) (p : Name) (c : ℕ) (ps : List Name)
    → find_child t.heap (t.heap n).children p ≡ some c
    → for_each mount_part (p ∷ ps) (record { tree = t; parent_node = n })
      ≡ for_each mount_part ps (record { tree = t; parent_node = c })
unfolding for_each mount_part
mount_found t n p c ps e = rw (for_each, e) refl

mount_missing :
    (t : Tree) (n : ℕ) (p : Name) (b : n < t.fresh) (ps : List Name)
    → find_child t.heap (t.heap n).children p ≡ none
    → for_each mount_part (p ∷ ps) (record { tree = t; parent_node = n })
      ≡ for_each mount_part ps (record {
        tree = inserted t n (record { name = p; fs_type = none; node = none }) b;
        parent_node = t.fresh;
      })
unfolding for_each mount_part tree_insert_child
mount_missing t n p b ps e = rw (for_each, e) refl

-- Where the walk along the names ends.
pub walked :
    (ps : List Name) (t : Tree) (n : ℕ)
    → All IsText ps
    → Allocated t
    → n < t.fresh
    → (w : Walk) × (for_each mount_part ps (record { tree = t; parent_node = n }) ≡ w)
      × Grows t w.tree
      × Allocated w.tree
      × (w.parent_node < w.tree.fresh)
      × (lookup w.tree n ps ≡ some w.parent_node)
      × Keeps t w.tree
unfolding for_each mount_part lookup Allocated
walked [] t n h a b =
    (record { tree = t; parent_node = n }, refl, Grows-refl t, a, b, refl, λ j _. refl)
walked (p ∷ ps) t n (hp, h) a b = elim (Option-cases (find_child t.heap (t.heap n).children p)) [
  | inr (c, found) ↦
      let bound : c < t.fresh = find_child-All _ t.heap (t.heap n).children p c (a n b) found in
      let (w, e, g, a', b', l, k) = walked ps t c h a bound in
      (
        w,
        mount_found t n p c ps found ∙ e,
        g,
        a',
        b',
        lookup_step w.tree n p c ps (found-Grows t w.tree n p c a g b found) ∙ l,
        k,
      )
  | inl missing ↦
      let entry : Entry = record { name = p; fs_type = none; node = none } in
      let u = inserted t n entry b in
      let bound : t.fresh < u.fresh = omega (arith, inserted_fresh t n entry b) in
      let (w, e, g, a', b', l, k) =
        walked ps u t.fresh h (inserted-Allocated t n entry b a) bound in
      let at : find_child u.heap (u.heap n).children p ≡ some t.fresh =
        found_inserted t n p b a hp missing in
      (
        w,
        mount_missing t n p b ps missing ∙ e,
        Grows-trans t u w.tree (inserted-Grows t n entry b) g,
        a',
        b',
        lookup_step w.tree n p t.fresh ps (
              found-Grows u w.tree n p t.fresh (inserted-Allocated t n entry b a) g (omega arith)
                at)
            ∙ l,
        λ j hj. k j (omega arith) ∙ (inserted_old t n entry b j hj).0,
      )
]
