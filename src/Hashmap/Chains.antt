-- ===== src/Hashmap/Chains.antt =====
-- A chain as a finite map from keys to values.
use hexahedron.Base.{
  ℕ, ◌≡◌, refl, ◌↔◌, inl, inr, true, Option, none, some, [], ◌∷◌, arith, if◌then◌else◌, All,
  Bool-cases,
}
use hexahedron.Libc.Strings.Compare.{IsText, strcmp-eq_zero}
use hexahedron.Hashmap.{Key, Chain, same_key, set_chain, get_chain, remove_chain, has_chain}

-- On strings the comparison decides equality.
pub same_key_iff : (a b : Key) → IsText a → IsText b → (same_key a b ≡ true) ↔ (a ≡ b)
unfolding same_key
same_key_iff a b ha hb =
    let (z, called, both) = strcmp-eq_zero a b [] [] ha hb in
    rw (called, same_key) ((λ e. both.0 (ground arith)), (λ e. let z' = both.1 e in rw z' refl))

-- the value of the first node with the key
unfoldable pub find : Key → Chain → Option ℕ
find key [] = none
find key ((k, v) ∷ next) = if same_key k key then some v else find key next

abbrev pub or_null : Option ℕ → ℕ
or_null none = 0
or_null (some v) = v

abbrev pub is_some : Option ℕ → ℕ
is_some none = 0
is_some (some v) = 1

abbrev pub AllKeys : (Key → Type 0) → Chain → Type 0
AllKeys P = All (λ e. P e.0)

-- every key is a string
abbrev pub Texts : Chain → Type 0
Texts = AllKeys IsText

-- no key stands twice
unfoldable pub Distinct : Chain → Type 0
Distinct [] = Unit
Distinct ((k, v) ∷ next) = (find k next ≡ none) × Distinct next

pub get_chain-find : (key : Key) (c : Chain) → get_chain key c ≡ or_null (find key c)
unfolding get_chain find
get_chain-find key [] = refl
get_chain-find key ((k, v) ∷ next) = ground (arith, get_chain-find key next)

pub has_chain-find : (key : Key) (c : Chain) → has_chain key c ≡ is_some (find key c)
unfolding has_chain find
has_chain-find key [] = refl
has_chain-find key ((k, v) ∷ next) = ground (arith, has_chain-find key next)

module _ (key : Key) (value : ℕ) (text : IsText key) where
  pub find-set_chain :
      (j : Key) (c : Chain)
      → IsText j
      → Texts c
      → find j (set_chain key value c) ≡ (if same_key key j then some value else find j c)
  unfolding find set_chain
  find-set_chain j [] hj h = refl
  find-set_chain j ((k, v) ∷ next) hj (hk, h) = ground (
    arith,
    find-set_chain j next hj h,
    same_key_iff k key hk text,
    same_key_iff k j hk hj,
    same_key_iff key j text hj,
  )

  -- What holds of the keys of a chain and of the new key holds afterwards.
  pub set_chain-AllKeys :
      (P : Key → Type 0) (c : Chain) → P key → AllKeys P c → AllKeys P (set_chain key value c)
  unfolding set_chain
  set_chain-AllKeys P [] p h = (p, tt)
  set_chain-AllKeys P ((k, v) ∷ next) p (hk, h) = elim (Bool-cases (same_key k key)) [
    | inl e ↦ rw e (hk, h)
    | inr e ↦ rw e (hk, set_chain-AllKeys P next p h)
  ]

  pub set_chain-Distinct : (c : Chain) → Texts c → Distinct c → Distinct (set_chain key value c)
  unfolding set_chain Distinct find
  set_chain-Distinct [] h d = (refl, tt)
  set_chain-Distinct ((k, v) ∷ next) (hk, h) (fresh, d) = elim (Bool-cases (same_key k key)) [
    | inl e ↦ rw e (fresh, d)
    | inr e ↦ rw e (
      ground (
        arith,
        find-set_chain k next hk h,
        same_key_iff key k text hk,
        same_key_iff k key hk text,
      ),
      set_chain-Distinct next h d,
    )
  ]

module _ (key : Key) (text : IsText key) where
  pub remove_chain-find : (c : Chain) → (remove_chain key c).0 ≡ or_null (find key c)
  unfolding remove_chain find
  remove_chain-find [] = refl
  remove_chain-find ((k, v) ∷ next) = ground (arith, remove_chain-find next)

  pub find-remove_chain :
      (j : Key) (c : Chain)
      → IsText j
      → Texts c
      → Distinct c
      → find j (remove_chain key c).1 ≡ (if same_key key j then none else find j c)
  unfolding find remove_chain Distinct
  find-remove_chain j [] hj h d = ground arith
  find-remove_chain j ((k, v) ∷ next) hj (hk, h) (fresh, d) = elim (Bool-cases (same_key k key)) [
    | inl e ↦ rw e (elim (Bool-cases (same_key k j)) [
      | inl e' ↦
          let a = (same_key_iff k key hk text).0 e in
          let b = (same_key_iff k j hk hj).0 e' in
          let c' = (same_key_iff key j text hj).1 (cc) in
          let f : find j next ≡ none = rw b at fresh in rw (c', f) refl
      | inr e' ↦
          ground
            (arith, same_key_iff k key hk text, same_key_iff k j hk hj, same_key_iff key j text hj)
    ])
    | inr e ↦ rw e (
        ground (
          arith,
          find-remove_chain j next hj h d,
          same_key_iff k key hk text,
          same_key_iff k j hk hj,
          same_key_iff key j text hj,
        ))
  ]

  pub remove_chain-AllKeys :
      (P : Key → Type 0) (c : Chain) → AllKeys P c → AllKeys P (remove_chain key c).1
  unfolding remove_chain
  remove_chain-AllKeys P [] h = tt
  remove_chain-AllKeys P ((k, v) ∷ next) (hk, h) = elim (Bool-cases (same_key k key)) [
    | inl e ↦ rw e h
    | inr e ↦ rw e (hk, remove_chain-AllKeys P next h)
  ]

  pub remove_chain-Distinct : (c : Chain) → Texts c → Distinct c → Distinct (remove_chain key c).1
  unfolding remove_chain Distinct
  remove_chain-Distinct [] h d = tt
  remove_chain-Distinct ((k, v) ∷ next) (hk, h) (fresh, d) = elim (Bool-cases (same_key k key)) [
    | inl e ↦ rw e d
    | inr e ↦
        rw e
          (ground (arith, find-remove_chain k next hk h d, fresh), remove_chain-Distinct next h d)
  ]

-- A key that its chain's keys exclude is not found.
pub find-none :
    (P : Key → Type 0) (key : Key) (c : Chain)
    → IsText key
    → Texts c
    → AllKeys P c
    → ¬ P key
    → find key c ≡ none
unfolding find
find-none P key [] text t h out = refl
find-none P key ((k, v) ∷ next) text (tk, t) (hk, h) out = elim (Bool-cases (same_key k key)) [
  | inl e ↦ let e' = (same_key_iff k key tk text).0 e in absurd (out (rw e' at hk))
  | inr e ↦ rw e (find-none P key next text t h out)
]
