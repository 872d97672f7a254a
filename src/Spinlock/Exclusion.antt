-- ===== src/Spinlock/Exclusion.antt =====
-- What holds in every reachable state of the processors around one lock.
use hexahedron.Base.{ℕ, ◌≡◌, ◌≢◌, ◌==◌, refl, true, arith, inl, inr, Bool-cases, ap}
use hexahedron.Spinlock.{
  outside, spinning, holding, System, move, create, acquire_round, release, Step, call, spin, leave,
  Reach, here, next, IsProperStep, IsProper,
}

-- The flag is set exactly while a processor holds the lock, and one at most does.
record IsValid (s : System) : Type 0 where
  unique : (i j : ℕ) → s.pc i ≡ holding → s.pc j ≡ holding → i ≡ j
  locked : (i : ℕ) → s.pc i ≡ holding → s.lock ≡ true
  held : s.lock ≡ true → (i : ℕ) × (s.pc i ≡ holding)

create-IsValid : IsValid create
create-IsValid = record {
  unique = λ i j h k. absurd (ground arith);
  locked = λ i h. absurd (ground arith);
  held = λ h. absurd (ground arith);
}

module _ {s : System} (v : IsValid s) (i : ℕ) where
  call-IsValid : s.pc i ≡ outside → IsValid (move s i s.lock spinning)
  call-IsValid e = record {
    unique = λ j k hj hk. ground (arith, v.unique j k);
    locked = λ j hj. ground (arith, v.locked j);
    held = λ h. let (j, hj) = v.held h in (j, ground arith);
  }

  spin-IsValid : s.pc i ≡ spinning → IsValid (acquire_round i s)
  unfolding acquire_round
  spin-IsValid e = elim (Bool-cases s.lock) [
    | inl taken ↦ record {
      unique = λ j k hj hk. ground (arith, v.unique j k);
      locked = λ j hj. refl;
      held = λ h. let (j, hj) = v.held taken in (j, ground arith);
    }
    | inr free ↦ record {
      unique = λ j k hj hk. ground (arith, v.locked j, v.locked k);
      locked = λ j hj. refl;
      held = λ h. (i, ground arith);
    }
  ]

  leave-IsValid : s.pc i ≡ holding → IsValid (release i s)
  unfolding release
  leave-IsValid e = record {
    unique = λ j k hj hk. ground (arith, v.unique j k);
    locked = λ j hj. absurd (ground (arith, v.unique i j));
    held = λ h. absurd (ground arith);
  }

Step-IsValid : {s t : System} (st : Step s t) → IsProperStep st → IsValid s → IsValid t
Step-IsValid (call i e) p v = call-IsValid v i p
Step-IsValid (spin i e) p v = spin-IsValid v i e
Step-IsValid (leave i e) p v = leave-IsValid v i p

Reach-IsValid : {s : System} (r : Reach create s) → IsProper r → IsValid s
Reach-IsValid here p = create-IsValid
Reach-IsValid (next r st) p = Step-IsValid st p.1 (Reach-IsValid r p.0)

-- As long as each processor asks for the lock only when it does not hold it and releases it only when it
-- does, which neither function tests, two processors never hold it together, in whatever order the
-- steps come.
pub mutual_exclusion :
    {s : System} (r : Reach create s)
    → IsProper r
    → (i j : ℕ) → s.pc i ≡ holding
    → s.pc j ≡ holding
    → i ≡ j
mutual_exclusion r p i j = (Reach-IsValid r p).unique i j

-- A release by a processor that does not hold the lock is enough against that: from every reachable state in
-- which one processor holds the lock, another spins, and a third does neither, the release by the third
-- and one round of the loop lead to a state in which both of the others hold the lock.
pub exclusion_lost :
    {s : System}
    → Reach create s
    → (i j k : ℕ) → s.pc i ≡ spinning
    → s.pc j ≡ holding
    → s.pc k ≡ outside
    → Reach create (acquire_round i (release k s))
      × ((acquire_round i (release k s)).pc i ≡ holding)
      × ((acquire_round i (release k s)).pc j ≡ holding)
      × (i ≢ j)
unfolding acquire_round release
exclusion_lost {s} r i j k hi hj hk =
    let still : (release k s).pc i ≡ spinning = ground arith in
    (
      next (next r (leave k (λ e. cc))) (spin i still),
      ground arith,
      ground arith,
      λ e. let x = ap s.pc e in cc,
    )

-- A processor that spins, where each asked for the lock only when it did not hold it and released it only
-- when it did: if no processor holds the lock, its next round takes it. If one holds it, a round leaves
-- every processor where it is and the flag set; the holder can release it, and the spinning processor's
-- round that follows takes it, which then is the only holder.
pub acquire_progress :
    {s : System} (r : Reach create s)
    → IsProper r
    → (i : ℕ) → s.pc i ≡ spinning
    → (((j : ℕ) → s.pc j ≢ holding) → (acquire_round i s).pc i ≡ holding)
      × ((j : ℕ)
          → s.pc j ≡ holding
          → ((k : ℕ) → (acquire_round i s).pc k ≡ s.pc k)
            × ((acquire_round i s).lock ≡ true)
            × Step s (release j s)
            × Step (release j s) (acquire_round i (release j s))
            × ((acquire_round i (release j s)).pc i ≡ holding)
            × ((k : ℕ) → (acquire_round i (release j s)).pc k ≡ holding → k ≡ i))
unfolding acquire_round release
acquire_progress {s} r p i e =
    let v = Reach-IsValid r p in
    (
      λ none_holds. elim (Bool-cases s.lock) [
        | inl taken ↦ let (j, hj) = v.held taken in absurd (none_holds j hj)
        | inr free ↦ ground arith
      ],
      λ j hj.
          let l = v.locked j hj in
          let still : (release j s).pc i ≡ spinning = ground arith in
          (
            λ k. elim (Bool-cases (k == i)) [
              | inl y ↦ let x : k ≡ i = ground arith in let z = ap s.pc x in ground (arith, l)
              | inr n ↦ ground arith
            ],
            refl,
            leave j (λ x. cc),
            spin i still,
            ground arith,
            λ k hk. ground (arith, v.unique k j),
          ),
    )
