-- ===== src/Rounds/Abandoned.antt =====
-- The map of abandoned rounds and its bound.
use reference_app.Prelude.{
  Bool-cases, Dict, [], arith, inl, inr, keys, length, length-delete, lookup, lookup-delete, ltb,
  nat_eq, none, refl, some, string_eq, suc, zero, ℕ, ◌+◌, ◌==◌, ◌∷◌, ◌≡◌, ◌≤◌, ◌⊎◌,
}
use reference_app.Rounds.{PendingBag, abandoned_rounds_kept, drop_oldest, least, trim}

abbrev Found : Dict ℕ PendingBag → ℕ → Type 0
Found d k = (p : PendingBag) × (lookup d k ≡ some p)

Found-cons :
    (n : ℕ) (p : PendingBag) (d : Dict ℕ PendingBag) (k : ℕ) → Found d k → Found ((n, p) ∷ d) k
unfolding lookup
Found-cons n p d k (q, e) = elim (Bool-cases (n == k)) [
  | inl same ↦ (p, ground arith)
  | inr other ↦ (q, ground arith)
]

-- the least of some keys is the first of them or one that is in the map
least-Found : (d : Dict ℕ PendingBag) (m : ℕ) → (least m (keys d) ≡ m) ⊎ Found d (least m (keys d))
unfolding lookup
least-Found [] m = inl refl
least-Found ((n, p) ∷ d) m = elim (Bool-cases (ltb n m)) [
  | inl smaller ↦
      rw (smaller, least)
        (elim (least-Found d n) [
          | inl e ↦ inr (p, ground arith)
          | inr f ↦ inr (Found-cons n p d (least n (keys d)) f)
        ])
  | inr larger ↦
      rw (larger, least)
        (elim (least-Found d m) [
          | inl e ↦ inl e
          | inr f ↦ inr (Found-cons n p d (least m (keys d)) f)
        ])
]

oldest-Found :
    (n : ℕ) (p : PendingBag) (d : Dict ℕ PendingBag) → Found ((n, p) ∷ d) (least n (keys d))
unfolding lookup
oldest-Found n p d = elim (least-Found d n) [
  | inl e ↦ (p, ground arith)
  | inr f ↦ Found-cons n p d (least n (keys d)) f
]

-- one pass of the loop drops an entry
length-drop_oldest :
    (n : ℕ) (p : PendingBag) (d : Dict ℕ PendingBag)
    → length (drop_oldest ((n, p) ∷ d)) + 1 ≤ length {A = ℕ × PendingBag} ((n, p) ∷ d)
length-drop_oldest n p d =
    let (q, e) = oldest-Found n p d in length-delete ((n, p) ∷ d) (least n (keys d)) q e

-- As many passes as there are entries beyond the bound are enough.
pub length-trim :
    (fuel : ℕ) (d : Dict ℕ PendingBag)
    → length d ≤ fuel + abandoned_rounds_kept
    → length (trim fuel d) ≤ abandoned_rounds_kept
unfolding trim
length-trim zero d h = omega arith
length-trim (suc fuel) [] h = omega arith
length-trim (suc fuel) ((n, p) ∷ d) h =
    ground (arith, length-drop_oldest n p d, length-trim fuel (drop_oldest ((n, p) ∷ d)))

lookup-drop_oldest :
    (d : Dict ℕ PendingBag) (k : ℕ)
    → (lookup (drop_oldest d) k ≡ none) ⊎ (lookup (drop_oldest d) k ≡ lookup d k)
lookup-drop_oldest [] k = inr refl
lookup-drop_oldest ((n, p) ∷ d) k = elim (Bool-cases (least n (keys d) == k)) [
  | inl same ↦ inl (ground (arith, lookup-delete ((n, p) ∷ d) (least n (keys d)) k))
  | inr other ↦ inr (ground (arith, lookup-delete ((n, p) ∷ d) (least n (keys d)) k))
]

-- What is left is what was there.
pub lookup-trim :
    (fuel : ℕ) (d : Dict ℕ PendingBag) (k : ℕ)
    → (lookup (trim fuel d) k ≡ none) ⊎ (lookup (trim fuel d) k ≡ lookup d k)
unfolding trim
lookup-trim zero d k = inr refl
lookup-trim (suc fuel) d k =
    ground (arith, lookup-trim fuel (drop_oldest d) k, lookup-drop_oldest d k)

-- up to the bound nothing is dropped
pub trim_small :
    (fuel : ℕ) (d : Dict ℕ PendingBag) → length d ≤ abandoned_rounds_kept → trim fuel d ≡ d
unfolding trim
trim_small zero d h = refl
trim_small (suc fuel) d h = ground arith
