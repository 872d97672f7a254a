-- ===== src/Hashmap.antt =====
-- libkstructures/hashmap: a chained hash table with strings for keys. A key is the bytes of its
-- string, without the NUL; a value is a pointer, 0 for NULL. A chain of nodes belongs to one bucket
-- alone and is a list. `none` is the division by zero of a table of no buckets.
pub mod Chains
pub mod Map
pub mod Listing
mod Examples
use hexahedron.Base.{
  ℕ, zero, suc, ◌+◌, ◌-◌, ◌*◌, ◌%◌, ◌^◌, Bool, true, false, Option, none, some, List, [], ◌∷◌, ◌++◌,
  ◌==◌, ltb, if◌then◌else◌,
}
use hexahedron.Base.Int.{pos}
use hexahedron.Libc.Strings.{c_string, eq_ℤ, strcmp}

abbrev pub Key : Type 0
Key = List ℕ

abbrev pub Chain : Type 0
Chain = List (Key × ℕ)

pub record Hashmap : Type 0 where
  pub size : ℕ
  pub entries : ℕ → Chain

-- a `char` converted to an `unsigned long` of 32 bits
abbrev pub sign_extend : ℕ → ℕ
sign_extend c = if ltb c 128 then c else c + (2 ^ 32 - 256)

hash_loop : Key → ℕ → ℕ
hash_loop [] hash = hash
hash_loop (c ∷ key) hash =
    hash_loop key ((sign_extend c + hash * 2 ^ 6 + hash * 2 ^ 16 + 2 ^ 32 - hash) % 2 ^ 32)

unfoldable pub hash : Key → ℕ
unfolding hash_loop
hash key = hash_loop key 0

-- `!strcmp(a, b)`
unfoldable pub same_key : Key → Key → Bool
same_key a b = elim (strcmp (c_string a []) (c_string b [])) [
  | none ↦ false
  | some z ↦ eq_ℤ z (pos 0)
]

unfoldable pub bucket : Hashmap → Key → Option ℕ
bucket map key = if map.size == 0 then none else some (hash key % map.size)

abbrev pub with_chain : Hashmap → ℕ → Chain → Hashmap
with_chain map i c = record map { entries = λ j. if i == j then c else map.entries j }

unfoldable pub create : ℕ → Hashmap
create size = record { size = size; entries = λ i. [] }

-- The walk of `hashmap_set`: the first node with the key is updated, or a node is put at the end.
unfoldable pub set_chain : Key → ℕ → Chain → Chain
set_chain key value [] = (key, value) ∷ []
set_chain key value ((k, v) ∷ next) =
    if same_key k key then (k, value) ∷ next else (k, v) ∷ set_chain key value next

unfoldable pub set : Hashmap → Key → ℕ → Option Hashmap
unfolding bucket set_chain
set map key value = elim (bucket map key) [
  | none ↦ none
  | some i ↦ some (with_chain map i (set_chain key value (map.entries i)))
]

unfoldable pub get_chain : Key → Chain → ℕ
get_chain key [] = 0
get_chain key ((k, v) ∷ next) = if same_key k key then v else get_chain key next

unfoldable pub get : Hashmap → Key → Option ℕ
unfolding bucket get_chain
get map key = elim (bucket map key) [ none ↦ none | some i ↦ some (get_chain key (map.entries i)) ]

-- The first node with the key is unlinked, at the start of the chain or behind its predecessor.
unfoldable pub remove_chain : Key → Chain → ℕ × Chain
remove_chain key [] = (0, [])
remove_chain key ((k, v) ∷ next) =
    let rest = remove_chain key next in
    if same_key k key then (v, next) else (rest.0, (k, v) ∷ rest.1)

unfoldable pub remove : Hashmap → Key → Option (ℕ × Hashmap)
unfolding bucket remove_chain
remove map key = elim (bucket map key) [
  | none ↦ none
  | some i ↦
      let (output, chain) = remove_chain key (map.entries i) in
      some (output, with_chain map i chain)
]

unfoldable pub has_chain : Key → Chain → ℕ
has_chain key [] = 0
has_chain key ((k, v) ∷ next) = if same_key k key then 1 else has_chain key next

unfoldable pub has : Hashmap → Key → Option ℕ
unfolding bucket has_chain
has map key = elim (bucket map key) [ none ↦ none | some i ↦ some (has_chain key (map.entries i)) ]

chain_keys : Chain → List Key
chain_keys [] = []
chain_keys ((k, v) ∷ next) = k ∷ chain_keys next

chain_values : Chain → List ℕ
chain_values [] = []
chain_values ((k, v) ∷ next) = v ∷ chain_values next

-- The loops over the buckets, with the buckets left.
keys_from : ℕ → ℕ → Hashmap → List Key
keys_from zero i map = []
keys_from (suc n) i map = chain_keys (map.entries i) ++ keys_from n (i + 1) map

values_from : ℕ → ℕ → Hashmap → List ℕ
values_from zero i map = []
values_from (suc n) i map = chain_values (map.entries i) ++ values_from n (i + 1) map

unfoldable pub keys : Hashmap → List Key
unfolding keys_from chain_keys
keys map = keys_from map.size 0 map

unfoldable pub values : Hashmap → List ℕ
unfolding values_from chain_values
values map = values_from map.size 0 map
