-- ===== src/Hashmap/Listing.antt =====
-- `hashmap_keys` lists exactly the keys of the table.
use hexahedron.Base.{
  ℕ, zero, suc, ◌+◌, ◌%◌, ◌≡◌, refl, Bool, true, false, ◌||◌, ◌&&◌, Option, none, some, List, [],
  ◌∷◌, ◌++◌, arith, ◌==◌, ltb, leb, Bool-cases, inl, inr,
}
use hexahedron.Libc.Strings.Compare.{IsText}
use hexahedron.Hashmap.{Key, Chain, Hashmap, hash, same_key, chain_keys, keys_from, keys}
use hexahedron.Hashmap.Chains.{find, find-none}
use hexahedron.Hashmap.Map.{IsValid, value_of}

-- whether a key stands in a list of keys
unfoldable pub listed : Key → List Key → Bool
listed key [] = false
listed key (k ∷ ks) = same_key k key || listed key ks

abbrev pub present : Option ℕ → Bool
present none = false
present (some v) = true

listed-append :
    (key : Key) (xs ys : List Key) → listed key (xs ++ ys) ≡ (listed key xs || listed key ys)
unfolding listed
listed-append key [] ys = refl
listed-append key (x ∷ xs) ys = ground (arith, listed-append key xs ys)

listed-chain_keys : (key : Key) (c : Chain) → listed key (chain_keys c) ≡ present (find key c)
unfolding listed chain_keys find
listed-chain_keys key [] = refl
listed-chain_keys key ((k, v) ∷ next) = ground (arith, listed-chain_keys key next)

-- The buckets from `i` on list the key if its own is among them.
listed-keys_from :
    {m : Hashmap} (key : Key) (n i : ℕ)
    → IsValid m
    → IsText key
    → listed key (keys_from n i m)
      ≡ ((leb i (hash key % m.size) && ltb (hash key % m.size) (i + n)) && present (value_of m key))
unfolding keys_from listed
listed-keys_from key zero i v text = ground arith
listed-keys_from {m} key (suc n) i v text =
    rw
      (
        listed-append key (chain_keys (m.entries i)) (keys_from n (i + 1) m),
        listed-chain_keys key (m.entries i),
        listed-keys_from key n (i + 1) v text,
      )
      (elim (Bool-cases (hash key % m.size == i)) [
        | inl e ↦
            let e' : hash key % m.size ≡ i = ground arith in
            let own : value_of m key ≡ find key (m.entries i) = unfold value_of in rw e' in
            ground (arith, own)
        | inr e ↦
            let out =
              find-none (λ k. hash k % m.size ≡ i) key (m.entries i) text (v.texts i) (v.placed i)
                (λ e'. ground arith) in
            ground (arith, out)
      ])

-- A key is listed by `hashmap_keys` exactly when the table has a value for it.
pub listed-keys :
    {m : Hashmap} (key : Key)
    → IsValid m
    → IsText key
    → listed key (keys m) ≡ present (value_of m key)
unfolding keys
listed-keys {m} key v text = ground (arith, listed-keys_from key m.size 0 v text, v.positive)
