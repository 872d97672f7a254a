-- ===== src/LinkedList/Examples.antt =====
-- Runs of list_delete_index and of the operations' theorems on a list with one node, at address 8, or
-- two, at 8 and 16, whose header stands at 4.
use hexahedron.Base.{ℕ, ◌+◌, ◌≡◌, refl, none, some, [], ◌∷◌, arith, ◌==◌, if◌then◌else◌}
use hexahedron.LinkedList.{Heap, append_node, delete, delete_index}
use hexahedron.LinkedList.Delete.{delete_lem}
use hexahedron.LinkedList.Linked.{IsList, append_node_lem}

abbrev heap : Heap
heap = record {
  nodes = λ a. record { next = 0; prev = 0; value = a + 100; owner = 4 };
  lists = λ l. record { head = 8; tail = 8; length = 1 };
}

heap-IsList : IsList 4 (8 ∷ []) heap
heap-IsList = record {
  linked = (refl, omega arith, refl, (refl, refl));
  apart = (tt, tt);
  counted = refl;
}

-- the index that is the length of the list
delete_index_run : delete_index 4 1 heap ≡ none
unfolding delete_index
delete_index_run = refl

-- the same with a second node behind the first
abbrev two : Heap
two = record {
  nodes = λ a.
      if a == 8
      then record { next = 16; prev = 0; value = 108; owner = 4 }
      else record { next = 0; prev = 8; value = a + 100; owner = 4 };
  lists = λ l. record { head = 8; tail = 16; length = 2 };
}

two-IsList : IsList 4 (8 ∷ 16 ∷ []) two
two-IsList = record {
  linked = (refl, omega arith, refl, (refl, omega arith, refl, (refl, refl)));
  apart = ((omega arith, tt), (tt, tt));
  counted = refl;
}

delete_example :
    (g : Heap) × (delete 4 8 two ≡ some g)
    × IsList 4 (16 ∷ []) g
    × ((b : ℕ) → (g.nodes b).value ≡ (two.nodes b).value)
delete_example = delete_lem [] (16 ∷ []) 8 two-IsList (omega arith)

append_node_example :
    (g : Heap) × (append_node 4 16 heap ≡ some g)
    × IsList 4 (8 ∷ 16 ∷ []) g
    × ((b : ℕ) → (g.nodes b).value ≡ b + 100)
append_node_example = append_node_lem 16 heap-IsList (omega arith) ((omega arith, tt)) (omega arith)
