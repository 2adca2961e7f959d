-- ===== src/Prelude/Dictionary.antt =====
-- `Map` of the source: an association list in the order of insertion. Writing a key that is there
-- keeps its place, as in JavaScript.
use Prim.Native.Nat.{◌≤◌, ◌+◌}
use mathlib.Core.Path.{◌≡◌, refl}
use mathlib.Core.Bool.{Bool}
use mathlib.Core.Option.{Option, none, some}
use mathlib.Core.List.{List, [], ◌∷◌, map}
use native.Mathlib.Omega.{arith}
use reference_app.Prelude.Tests.{if◌then◌else◌, Equality, ◌==◌}
use reference_app.Prelude.Lists.{is_some, length}

abbrev pub Dict {ℓ κ} : Type ℓ → Type κ → Type (ℓ ⊔ κ)
Dict K V = List (K × V)

module _ {ℓ κ} {K : Type ℓ} {V : Type κ} ⦃e : Equality K⦄ where
  unfoldable pub lookup : Dict K V → K → Option V
  lookup [] k = none
  lookup ((j, v) ∷ m) k = if j == k then some v else lookup m k

  unfoldable pub insert : Dict K V → K → V → Dict K V
  insert [] k v = (k, v) ∷ []
  insert ((j, w) ∷ m) k v = if j == k then (j, v) ∷ m else (j, w) ∷ insert m k v

  unfoldable pub delete : Dict K V → K → Dict K V
  delete [] k = []
  delete ((j, w) ∷ m) k = let rest = delete m k in if j == k then rest else (j, w) ∷ rest

  abbrev pub has : Dict K V → K → Bool
  has m k = is_some (lookup m k)

  abbrev pub keys : Dict K V → List K
  keys = map (λ kv. kv.0)

  abbrev pub values : Dict K V → List V
  values = map (λ kv. kv.1)

  pub lookup-insert :
      (m : Dict K V) (k : K) (v : V) (j : K)
      → lookup (insert m k v) j ≡ (if k == j then some v else lookup m j)
  unfolding lookup insert
  lookup-insert [] k v j = refl
  lookup-insert ((i, w) ∷ m) k v j = ground (
    arith,
    lookup-insert m k v j,
    e.equal_iff i k,
    e.equal_iff i j,
    e.equal_iff k j,
    e.equal_iff k k,
  )

  pub lookup-delete :
      (m : Dict K V) (k j : K) → lookup (delete m k) j ≡ (if k == j then none else lookup m j)
  unfolding lookup delete
  lookup-delete [] k j = ground arith
  lookup-delete ((i, w) ∷ m) k j =
      ground (arith, lookup-delete m k j, e.equal_iff i k, e.equal_iff i j, e.equal_iff k j)

  pub length-delete-le : (m : Dict K V) (k : K) → length (delete m k) ≤ length m
  unfolding delete
  length-delete-le [] k = omega arith
  length-delete-le (kv ∷ m) k = ground (arith, length-delete-le m k)

  -- deleting a key that is there makes the map smaller
  pub length-delete :
      (m : Dict K V) (k : K) (v : V) → lookup m k ≡ some v → length (delete m k) + 1 ≤ length m
  unfolding delete lookup
  length-delete [] k v h = cc
  length-delete ((i, w) ∷ m) k v h = ground (arith, length-delete m k v, length-delete-le m k)

  pub length-insert-le : (m : Dict K V) (k : K) (v : V) → length (insert m k v) ≤ length m + 1
  unfolding insert
  length-insert-le [] k v = omega arith
  length-insert-le (kv ∷ m) k v = ground (arith, length-insert-le m k v)

  -- no key stands twice
  abbrev pub Distinct : Dict K V → Type κ
  Distinct [] = Unit
  Distinct ((k, v) ∷ m) = (lookup m k ≡ none) × Distinct m

  pub Distinct-insert : (m : Dict K V) (k : K) (v : V) → Distinct m → Distinct (insert m k v)
  unfolding insert lookup
  Distinct-insert [] k v d = (refl, tt)
  Distinct-insert ((i, w) ∷ m) k v d =
      ground
        (arith, lookup-insert m k v i, Distinct-insert m k v d.1, e.equal_iff i k, e.equal_iff k i)

  pub Distinct-delete : (m : Dict K V) (k : K) → Distinct m → Distinct (delete m k)
  unfolding delete
  Distinct-delete [] k d = tt
  Distinct-delete ((i, w) ∷ m) k d = ground (arith, lookup-delete m k i, Distinct-delete m k d.1)

  -- writing a key twice keeps the second value
  pub insert-insert : (m : Dict K V) (k : K) (v w : V) → insert (insert m k v) k w ≡ insert m k w
  unfolding insert
  insert-insert [] k v w = ground (arith, e.equal_iff k k)
  insert-insert ((i, u) ∷ m) k v w = ground (arith, insert-insert m k v w)
