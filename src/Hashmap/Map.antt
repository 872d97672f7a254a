-- ===== src/Hashmap/Map.antt =====
-- The table as a finite map: what each operation does to the value of every key.
use hexahedron.Base.{
  ℕ, ◌%◌, ◌<◌, ◌≡◌, refl, ap, inl, inr, true, false, Option, none, some, arith, ◌==◌, if◌then◌else◌,
  Bool-cases,
}
use hexahedron.Libc.Strings.Compare.{IsText}
use hexahedron.Hashmap.{
  Key, Chain, Hashmap, hash, same_key, with_chain, create, set_chain, set, get, remove_chain,
  remove, has,
}
use hexahedron.Hashmap.Chains.{
  same_key_iff, find, or_null, is_some, AllKeys, Texts, Distinct, get_chain-find, has_chain-find,
  find-set_chain, set_chain-AllKeys, set_chain-Distinct, remove_chain-find, find-remove_chain,
  remove_chain-AllKeys, remove_chain-Distinct,
}

-- There are buckets, and each chain holds strings of its own bucket, each once.
pub record IsValid (m : Hashmap) : Type 0 where
  pub positive : 0 < m.size
  pub texts : (i : ℕ) → Texts (m.entries i)
  pub distinct : (i : ℕ) → Distinct (m.entries i)
  pub placed : (i : ℕ) → AllKeys (λ k. hash k % m.size ≡ i) (m.entries i)

-- the finite map that the table stands for
unfoldable pub value_of : Hashmap → Key → Option ℕ
value_of m key = find key (m.entries (hash key % m.size))

some_buckets : {m : Hashmap} → IsValid m → (m.size == 0) ≡ false
some_buckets v = ground (arith, v.positive)

with_chain-IsValid :
    {m : Hashmap} (i : ℕ) (c : Chain)
    → IsValid m
    → Texts c
    → Distinct c
    → AllKeys (λ k. hash k % m.size ≡ i) c
    → IsValid (with_chain m i c)
with_chain-IsValid {m} i c v t d p = record {
  positive = v.positive;
  texts = λ j. elim (Bool-cases (i == j)) [ inl e ↦ rw e t | inr e ↦ rw e (v.texts j) ];
  distinct = λ j. elim (Bool-cases (i == j)) [ inl e ↦ rw e d | inr e ↦ rw e (v.distinct j) ];
  placed = λ j. elim (Bool-cases (i == j)) [
    | inl e ↦ let e' : j ≡ i = ground arith in rw (e, e') p
    | inr e ↦ rw e (v.placed j)
  ];
}

-- One chain is exchanged: keys of other buckets keep their values.
value_of-with_chain :
    (m : Hashmap) (key j : Key) (c : Chain)
    → value_of (with_chain m (hash key % m.size) c) j
      ≡ (if hash key % m.size == hash j % m.size then find j c else value_of m j)
unfolding value_of
value_of-with_chain m key j c = elim (Bool-cases (hash key % m.size == hash j % m.size)) [
  | inl e ↦ rw e refl
  | inr e ↦ rw e refl
]

-- Equal keys have one bucket.
same_bucket :
    (m : Hashmap) (key j : Key)
    → IsText key
    → IsText j
    → same_key key j ≡ true
    → (hash key % m.size == hash j % m.size) ≡ true
same_bucket m key j hk hj e = let e' = (same_key_iff key j hk hj).0 e in rw e' (ground arith)

-- A new table holds no key.
pub create-IsValid :
    (size : ℕ) → 0 < size → IsValid (create size) × ((j : Key) → value_of (create size) j ≡ none)
unfolding create value_of Distinct find
create-IsValid size h =
    (record { positive = h; texts = λ i. tt; distinct = λ i. tt; placed = λ i. tt }, λ j. refl)

-- `hashmap_set` gives the key the value, leaves the value of every other key, and keeps the table
-- well-formed.
pub set_lem :
    {m : Hashmap} (key : Key) (value : ℕ)
    → IsValid m
    → IsText key
    → (t : Hashmap) × (set m key value ≡ some t)
      × ((j : Key)
          → IsText j
          → value_of t j ≡ (if same_key key j then some value else value_of m j))
      × IsValid t
set_lem {m} key value v text =
    let i = hash key % m.size in
    let c = set_chain key value (m.entries i) in
    (
      with_chain m i c,
      unfold set in (rw (some_buckets v, set) refl),
      (λ j hj. rw (value_of-with_chain m key j c) (elim (Bool-cases (i == hash j % m.size)) [
        | inl e ↦
            let e' : i ≡ hash j % m.size = ground arith in
            rw (e, find-set_chain key value text j (m.entries i) hj (v.texts i))
              (unfold value_of in (rw e' refl))
        | inr e ↦ rw e (ground (arith, same_bucket m key j text hj))
      ])),
      with_chain-IsValid i c v
          (set_chain-AllKeys key value text IsText (m.entries i) text (v.texts i))
          (set_chain-Distinct key value text (m.entries i) (v.texts i) (v.distinct i))
          (set_chain-AllKeys key value text _ (m.entries i) refl (v.placed i)),
    )

-- `hashmap_remove` returns the value of the key, or NULL if the key is not there, makes the key
-- absent, leaves the value of every other key, and keeps the table well-formed.
pub remove_lem :
    {m : Hashmap} (key : Key)
    → IsValid m
    → IsText key
    → (t : Hashmap) × (remove m key ≡ some (or_null (value_of m key), t))
      × ((j : Key) → IsText j → value_of t j ≡ (if same_key key j then none else value_of m j))
      × IsValid t
remove_lem {m} key v text =
    let i = hash key % m.size in
    let c = (remove_chain key (m.entries i)).1 in
    (
      with_chain m i c,
      unfold remove value_of in
          (rw (some_buckets v, remove) (ground (arith, remove_chain-find key text (m.entries i)))),
      (λ j hj. rw (value_of-with_chain m key j c) (elim (Bool-cases (i == hash j % m.size)) [
        | inl e ↦
            let e' : i ≡ hash j % m.size = ground arith in
            rw (e, find-remove_chain key text j (m.entries i) hj (v.texts i) (v.distinct i))
              (unfold value_of in (rw e' refl))
        | inr e ↦ rw e (ground (arith, same_bucket m key j text hj))
      ])),
      with_chain-IsValid i c v (remove_chain-AllKeys key text IsText (m.entries i) (v.texts i))
          (remove_chain-Distinct key text (m.entries i) (v.texts i) (v.distinct i))
          (remove_chain-AllKeys key text _ (m.entries i) (v.placed i)),
    )

-- `hashmap_get` returns the value of the key, NULL if there is none, and `hashmap_has` tells an
-- absent key from one whose value is NULL.
pub get-has :
    {m : Hashmap} (key : Key)
    → IsValid m
    → (get m key ≡ some (or_null (value_of m key))) × (has m key ≡ some (is_some (value_of m key)))
unfolding get has value_of
get-has {m} key v =
    rw (some_buckets v, get, has)
      (
        ap some (get_chain-find key (m.entries (hash key % m.size))),
        ap some (has_chain-find key (m.entries (hash key % m.size))),
      )
