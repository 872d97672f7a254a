-- ===== src/Hashmap/Examples.antt =====
-- The hash table with two keys in one bucket.
use hexahedron.Base.{
  ◌%◌, ◌==◌, Bool-cases, inl, inr, ◌≡◌, refl, none, some, [], ◌∷◌, arith, if◌then◌else◌,
}
use hexahedron.Base.Int.{◌-ℤ◌}
use hexahedron.Libc.Strings.{strcmp}
use hexahedron.Libc.Strings.Compare.{IsText}
use hexahedron.Hashmap.{Hashmap, Key, create, set, get, remove, same_key, hash}
use hexahedron.Hashmap.Map.{IsValid, value_of, create-IsValid, set_lem, remove_lem}
use hexahedron.Hashmap.Chains.{or_null, Distinct, find}

abbrev cat : Key
cat = b'c' ∷ b'a' ∷ b't' ∷ []

cat-IsText : IsText cat
cat-IsText = (omega arith, (omega arith, (omega arith, tt)))

abbrev empty : Hashmap
empty = create 3

empty-IsValid : IsValid empty
empty-IsValid = (create-IsValid 3 (omega arith)).0

set_run : (m : Hashmap) × (set empty cat 7 ≡ some m) × (get m cat ≡ some 7)
unfolding set create get hash same_key strcmp ◌-ℤ◌
set_run = (_, refl, refl)

set_lem_example :
    (t : Hashmap) × (set empty cat 7 ≡ some t)
    × ((j : Key) → IsText j → value_of t j ≡ (if same_key cat j then some 7 else value_of empty j))
    × IsValid t
set_lem_example = set_lem cat 7 empty-IsValid cat-IsText

-- a table that holds the key
abbrev filled : Hashmap
filled = record { size = 3; entries = λ i. if i == hash cat % 3 then (cat, 7) ∷ [] else [] }

filled-IsValid : IsValid filled
unfolding Distinct find
filled-IsValid = record {
  positive = omega arith;
  texts = λ i. elim (Bool-cases (i == hash cat % 3)) [
    | inl e ↦ rw e (cat-IsText, tt)
    | inr e ↦ rw e tt
  ];
  distinct =
      λ i. elim (Bool-cases (i == hash cat % 3)) [ inl e ↦ rw e (refl, tt) | inr e ↦ rw e tt ];
  placed = λ i. elim (Bool-cases (i == hash cat % 3)) [
    | inl e ↦ let e' : hash cat % 3 ≡ i = ground arith in rw e (e', tt)
    | inr e ↦ rw e tt
  ];
}

remove_lem_example :
    (t : Hashmap) × (remove filled cat ≡ some (or_null (value_of filled cat), t))
    × ((j : Key) → IsText j → value_of t j ≡ (if same_key cat j then none else value_of filled j))
    × IsValid t
remove_lem_example = remove_lem cat filled-IsValid cat-IsText
