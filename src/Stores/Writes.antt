-- ===== src/Stores/Writes.antt =====
-- What it says of a chain of writes that it succeeds.
use reference_app.Prelude.{
  Bool-cases, Equality, List, [], arith, if◌then◌else◌, includes, inl, inr, nat_eq, option_eq,
  pair_eq, refl, string_eq, ◌++◌, ◌∷◌, ◌≡◌,
}
use reference_app.Stores.{
  Browser, LocalStorage, Outcome, add_to_index, and_then, done, quota_exceeded, store_item,
}

-- a write that succeeds leaves what was written
pub store_item-done : (b : Browser) (s w s' : LocalStorage) → store_item b s w ≡ done s' tt → s' ≡ w
unfolding store_item
store_item-done b s w s' h = elim (Bool-cases (b.has_room s w)) [
  | inl room ↦ ground (arith, h, room)
  | inr full ↦ absurd (ground (arith, h, full))
]

pub add_to_index-done :
    {A : Type 0} ⦃e : Equality A⦄ (b : Browser) (s : LocalStorage) (index : List A) (x : A)
    (put : List A → LocalStorage) (s' : LocalStorage)
    → add_to_index b s index x put ≡ done s' tt
    → (s' ≡ (if includes index x then s else put (index ++ x ∷ [])))
unfolding add_to_index
add_to_index-done b s index x put s' h = elim (Bool-cases (includes index x)) [
  | inl there ↦ ground (arith, h, there)
  | inr gone ↦ ground (arith, h, gone, store_item-done b s (put (index ++ x ∷ [])) s')
]

pub and_then-done :
    {A B : Type 0} (o : Outcome A) (f : LocalStorage → A → Outcome B) (s' : LocalStorage) (y : B)
    → and_then o f ≡ done s' y
    → (s1 : LocalStorage) × (x : A) × (o ≡ done s1 x) × (f s1 x ≡ done s' y)
and_then-done (done s1 x) f s' y h = (s1, x, refl, h)
and_then-done (quota_exceeded s1) f s' y h = absurd (cc)
