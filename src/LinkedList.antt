-- ===== src/LinkedList.antt =====
-- libkstructures/list/list.c: doubly linked lists over a heap of nodes and list headers. An address is a
-- number, 0 for NULL; `none` is an access through NULL. Memory from `kmalloc` keeps what stood there.
pub mod Linked
pub mod Segments
pub mod Delete
pub mod Ends
mod Examples
use hexahedron.Base.{
  ℕ, zero, suc, ◌+◌, ◌-◌, ◌%◌, ◌^◌, Bool, true, false, not, ◌&&◌, Option, none, some, ◌==◌, ltb,
  if◌then◌else◌,
}

pub record Node : Type 0 where
  pub next : ℕ
  pub prev : ℕ
  pub value : ℕ
  pub owner : ℕ

pub record Header : Type 0 where
  pub head : ℕ
  pub tail : ℕ
  pub length : ℕ

pub record Heap : Type 0 where
  pub nodes : ℕ → Node
  pub lists : ℕ → Header

infixl 5 ◌>>=◌
abbrev pub ◌>>=◌ {ℓ κ} : {A : Type ℓ} {B : Type κ} → Option A → (A → Option B) → Option B
none >>= f = none
some a >>= f = f a

abbrev pub put_node : ℕ → Node → Heap → Heap
put_node a n h = record h { nodes = λ b. if b == a then n else h.nodes b }

abbrev pub put_list : ℕ → Header → Heap → Heap
put_list l x h = record h { lists = λ k. if k == l then x else h.lists k }

-- `node->next = x` and the like, for a pointer that is not NULL
abbrev pub set_next : ℕ → ℕ → Heap → Heap
set_next a x h = put_node a (record (h.nodes a) { next = x }) h

abbrev pub set_prev : ℕ → ℕ → Heap → Heap
set_prev a x h = put_node a (record (h.nodes a) { prev = x }) h

abbrev pub set_value : ℕ → ℕ → Heap → Heap
set_value a x h = put_node a (record (h.nodes a) { value = x }) h

abbrev pub set_owner : ℕ → ℕ → Heap → Heap
set_owner a x h = put_node a (record (h.nodes a) { owner = x }) h

abbrev pub put_next : ℕ → ℕ → Heap → Option Heap
put_next a x h = if a == 0 then none else some (set_next a x h)

abbrev pub put_prev : ℕ → ℕ → Heap → Option Heap
put_prev a x h = if a == 0 then none else some (set_prev a x h)

abbrev pub put_value : ℕ → ℕ → Heap → Option Heap
put_value a x h = if a == 0 then none else some (set_value a x h)

abbrev pub put_owner : ℕ → ℕ → Heap → Option Heap
put_owner a x h = if a == 0 then none else some (set_owner a x h)

-- `list->head = x`, `list->tail = x` and `list->length++`
abbrev pub put_head : ℕ → ℕ → Heap → Heap
put_head l x h = put_list l (record (h.lists l) { head = x }) h

abbrev pub put_tail : ℕ → ℕ → Heap → Heap
put_tail l x h = put_list l (record (h.lists l) { tail = x }) h

abbrev pub put_length : ℕ → ℕ → Heap → Heap
put_length l n h = put_list l (record (h.lists l) { length = n % 2 ^ 32 }) h

-- `fresh` is the address that `kmalloc` returns.
unfoldable pub create : ℕ → Heap → Heap
create fresh h = put_list fresh (record { head = 0; tail = 0; length = 0 }) h

unfoldable pub append_node : ℕ → ℕ → Heap → Option Heap
append_node l node h = do
  h1 ← put_owner node l h
  h2 ←
      if not ((h1.lists l).tail == 0)
      then (do
        g ← put_next (h1.lists l).tail node h1
        g' ← put_prev node (h1.lists l).tail g
        put_next node 0 g')
      else (do g ← put_next node 0 h1; g' ← put_prev node 0 g; some (put_head l node g'))
  some (put_length l ((h2.lists l).length + 1) (put_tail l node h2))

unfoldable pub append : ℕ → ℕ → ℕ → Heap → Option Heap
unfolding append_node
append fresh l item h = do h1 ← put_value fresh item h; append_node l fresh h1

-- `list_append_node_after`, once the owner is set
unfoldable pub link_after : ℕ → ℕ → ℕ → Heap → Option Heap
link_after l append_to node h1 =
    if append_to == 0
    then (do
      g ← put_next node (h1.lists l).head h1
      g' ← put_prev (g.lists l).head node g
      some (put_length l ((g'.lists l).length + 1) (put_head l node g')))
    else (do
      h2 ← if append_to == (h1.lists l).tail then some (put_tail l node h1) else (do
        g ← put_prev (h1.nodes append_to).next node h1
        put_next node (g.nodes append_to).next g)
      h3 ← put_prev node append_to h2
      h4 ← put_next append_to node h3
      some (put_length l ((h4.lists l).length + 1) h4))

unfoldable pub append_node_after : ℕ → ℕ → ℕ → Heap → Option Heap
unfolding link_after
append_node_after l append_to node h = do h1 ← put_owner node l h; link_after l append_to node h1

unfoldable pub append_after : ℕ → ℕ → ℕ → ℕ → Heap → Option Heap
unfolding append_node_after
append_after fresh l append_to item h = do
  h1 ← put_value fresh item h
  append_node_after l append_to fresh h1

-- `list_append_node_before`, once the owner is set
unfoldable pub link_before : ℕ → ℕ → ℕ → Heap → Option Heap
link_before l append_before node h1 =
    if append_before == 0
    then (do
      g ← put_next node 0 h1
      g' ← put_prev node (g.lists l).tail g
      g'' ← put_next (g'.lists l).tail node g'
      some (put_length l ((g''.lists l).length + 1) (put_tail l node g'')))
    else (do
      h2 ← if append_before == (h1.lists l).head then some (put_head l node h1) else (do
        g ← put_next (h1.nodes append_before).prev node h1
        put_prev node (g.nodes append_before).prev g)
      h3 ← put_next node append_before h2
      h4 ← put_prev append_before node h3
      some (put_length l ((h4.lists l).length + 1) h4))

unfoldable pub append_node_before : ℕ → ℕ → ℕ → Heap → Option Heap
unfolding link_before
append_node_before l append_before node h = do
  h1 ← put_owner node l h
  link_before l append_before node h1

unfoldable pub append_before : ℕ → ℕ → ℕ → ℕ → Heap → Option Heap
unfolding append_node_before
append_before fresh l before item h = do
  h1 ← put_value fresh item h
  append_node_before l before fresh h1

-- The walk of `list_find`, on fuel; `none` means that it ran out.
unfoldable pub find_from : ℕ → ℕ → ℕ → Heap → Option ℕ
find_from zero node item h = none
find_from (suc fuel) node item h =
    let rest = find_from fuel (h.nodes node).next item h in
    if node == 0 then some 0 else if (h.nodes node).value == item then some node else rest

unfoldable pub find : ℕ → ℕ → ℕ → Heap → Option ℕ
unfolding find_from
find fuel l item h = find_from fuel (h.lists l).head item h

unfoldable pub delete : ℕ → ℕ → Heap → Option Heap
delete l node h = do
  h1 ←
      if node == (h.lists l).head
      then (if node == 0 then none else some (put_head l (h.nodes node).next h))
      else some h
  h2 ←
      if node == (h1.lists l).tail
      then (if node == 0 then none else some (put_tail l (h1.nodes node).prev h1))
      else some h1
  h3 ←
      if node == 0
      then none
      else if (h2.nodes node).next == 0
      then some h2
      else put_prev (h2.nodes node).next (h2.nodes node).prev h2
  h4 ←
      if (h3.nodes node).prev == 0
      then some h3
      else put_next (h3.nodes node).prev (h3.nodes node).next h3
  h5 ← put_prev node 0 h4
  h6 ← put_next node 0 h5
  h7 ← put_owner node 0 h6
  some (put_length l ((h7.lists l).length + 2 ^ 32 - 1) h7)

-- The walk of `list_delete_index`, at most `index` rounds: where it ends and how far it came.
unfoldable pub walk : ℕ → ℕ → ℕ → Heap → ℕ × ℕ
walk zero i node h = (node, i)
walk (suc index) i node h =
    let rest = walk index (i + 1) (h.nodes node).next h in if node == 0 then (node, i) else rest

unfoldable pub delete_index : ℕ → ℕ → Heap → Option Heap
unfolding walk delete
delete_index l index h =
    if ltb (h.lists l).length index
    then some h
    else (let (node, i) = walk index 0 (h.lists l).head h in
        if i == index then delete l node h else some h)

unfoldable pub pop : ℕ → Heap → Option (ℕ × Heap)
unfolding delete
pop l h =
    if (h.lists l).tail == 0
    then some (0, h)
    else (do g ← delete l (h.lists l).tail h; some ((h.lists l).tail, g))

unfoldable pub popleft : ℕ → Heap → Option (ℕ × Heap)
unfolding delete
popleft l h =
    if (h.lists l).head == 0
    then some (0, h)
    else (do g ← delete l (h.lists l).head h; some ((h.lists l).head, g))
