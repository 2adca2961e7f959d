-- ===== src/Prelude/Lists.antt =====
-- The array operations of the source over Boolean tests, and native lengths.
use Prim.Native.Nat.{ℕ, zero, suc, ◌+◌, ◌≤◌}
use mathlib.Core.Path.{◌≡◌, refl}
use mathlib.Core.Bool.{Bool, true, false, not, ◌&&◌, ◌||◌}
use mathlib.Core.Option.{Option, none, some}
use mathlib.Core.List.{List, [], ◌∷◌, ◌++◌, map}
use native.Mathlib.Omega.{arith}
use reference_app.Prelude.Tests.{if◌then◌else◌, Equality, ◌==◌}

-- `o ?? d`
abbrev pub or_else {ℓ} : {A : Type ℓ} → Option A → A → A
or_else none d = d
or_else (some a) d = a

abbrev pub is_some {ℓ} : {A : Type ℓ} → Option A → Bool
is_some none = false
is_some (some a) = true

module _ {ℓ} {A : Type ℓ} where
  abbrev pub length : List A → ℕ
  length [] = 0
  length (x ∷ xs) = suc (length xs)

  abbrev pub take : ℕ → List A → List A
  take zero xs = []
  take (suc n) [] = []
  take (suc n) (x ∷ xs) = x ∷ take n xs

  abbrev pub filter : (A → Bool) → List A → List A
  filter p [] = []
  filter p (x ∷ xs) = let rest = filter p xs in if p x then x ∷ rest else rest

  abbrev pub find : (A → Bool) → List A → Option A
  find p [] = none
  find p (x ∷ xs) = if p x then some x else find p xs

  -- `xs.some(p)` and `xs.every(p)`
  abbrev pub any : (A → Bool) → List A → Bool
  any p [] = false
  any p (x ∷ xs) = p x || any p xs

  abbrev pub all : (A → Bool) → List A → Bool
  all p [] = true
  all p (x ∷ xs) = p x && all p xs

  -- `xs.at(-1)`
  abbrev pub last? : List A → Option A
  last? [] = none
  last? (x ∷ []) = some x
  last? (x ∷ y ∷ xs) = last? (y ∷ xs)

  abbrev pub All {κ} : (A → Type κ) → List A → Type κ
  All P [] = Unit
  All P (x ∷ xs) = P x × All P xs

-- `xs.includes(a)`, and sets as lists in the order of insertion
module _ {ℓ} {A : Type ℓ} ⦃e : Equality A⦄ where
  abbrev pub includes : List A → A → Bool
  includes xs a = any (λ x. x == a) xs

  -- `set.add(a)`
  abbrev pub set_add : List A → A → List A
  set_add xs a = if includes xs a then xs else xs ++ a ∷ []

  -- `set.delete(a)`
  abbrev pub set_delete : List A → A → List A
  set_delete xs a = filter (λ x. not (x == a)) xs

  -- `new Set(xs)`, on top of what `acc` holds
  abbrev pub set_of : List A → List A → List A
  set_of acc [] = acc
  set_of acc (x ∷ xs) = set_of (set_add acc x) xs

module _ {ℓ} {A : Type ℓ} where
  pub length-append : (xs ys : List A) → length (xs ++ ys) ≡ length xs + length ys
  length-append [] ys = omega arith
  length-append (x ∷ xs) ys = omega (arith, length-append xs ys)

  pub length-map {κ} : {B : Type κ} (f : A → B) (xs : List A) → length (map f xs) ≡ length xs
  length-map f [] = omega arith
  length-map f (x ∷ xs) = omega (arith, length-map f xs)

  pub any-append : (p : A → Bool) (xs ys : List A) → any p (xs ++ ys) ≡ (any p xs || any p ys)
  any-append p [] ys = refl
  any-append p (x ∷ xs) ys = ground (arith, any-append p xs ys)

  pub length-filter-le : (p : A → Bool) (xs : List A) → length (filter p xs) ≤ length xs
  length-filter-le p [] = omega arith
  length-filter-le p (x ∷ xs) = ground (arith, length-filter-le p xs)

  -- a test that implies `p` fails everywhere where `p` was filtered out
  pub any-filter_none :
      (p q : A → Bool) (xs : List A)
      → ((x : A) → p x ≡ true → q x ≡ false)
      → any q (filter p xs) ≡ false
  any-filter_none p q [] h = refl
  any-filter_none p q (x ∷ xs) h = ground (arith, h x, any-filter_none p q xs h)

  pub any-filter_kept :
      (p q : A → Bool) (xs : List A)
      → ((x : A) → q x ≡ true → p x ≡ true)
      → any q (filter p xs) ≡ any q xs
  any-filter_kept p q [] h = refl
  any-filter_kept p q (x ∷ xs) h = ground (arith, h x, any-filter_kept p q xs h)

  pub find-filter_kept :
      (p q : A → Bool) (xs : List A)
      → ((x : A) → q x ≡ true → p x ≡ true)
      → find q (filter p xs) ≡ find q xs
  find-filter_kept p q [] h = refl
  find-filter_kept p q (x ∷ xs) h = ground (arith, h x, find-filter_kept p q xs h)

  pub find-filter-none :
      (p q : A → Bool) (xs : List A)
      → ((x : A) → p x ≡ true → q x ≡ false)
      → find q (filter p xs) ≡ none
  find-filter-none p q [] h = refl
  find-filter-none p q (x ∷ xs) h = ground (arith, h x, find-filter-none p q xs h)

  pub filter-filter_self : (p : A → Bool) (xs : List A) → filter p (filter p xs) ≡ filter p xs
  filter-filter_self p [] = refl
  filter-filter_self p (x ∷ xs) = ground (arith, filter-filter_self p xs)

  -- what a search finds passes the test
  pub find-holds : (p : A → Bool) (xs : List A) (x : A) → find p xs ≡ some x → p x ≡ true
  find-holds p [] y h = cc
  find-holds p (x ∷ xs) y h = ground (arith, find-holds p xs y)

  pub any_of_find : (p : A → Bool) (xs : List A) (x : A) → find p xs ≡ some x → any p xs ≡ true
  any_of_find p [] y h = cc
  any_of_find p (x ∷ xs) y h = ground (arith, any_of_find p xs y)

  pub All-filter {κ} :
      (P : A → Type κ) (p : A → Bool) (xs : List A) → All P xs → All P (filter p xs)
  All-filter P p [] h = tt
  All-filter P p (x ∷ xs) h = ground (arith, All-filter P p xs h.1)

  pub All-weaken {κ μ} :
      (P : A → Type κ) (Q : A → Type μ) (xs : List A) → ((x : A) → P x → Q x) → All P xs → All Q xs
  All-weaken P Q [] w h = tt
  All-weaken P Q (x ∷ xs) w h = (w x h.0, All-weaken P Q xs w h.1)

module _ {ℓ} {A : Type ℓ} ⦃e : Equality A⦄ (x : A) where
  pub includes-set_add :
      (ys : List A) (y : A) → includes (set_add ys y) x ≡ (includes ys x || y == x)
  includes-set_add ys y = ground (arith, e.equal_iff y x, any-append (λ z. z == x) ys (y ∷ []))

  pub includes-set_of :
      (acc ys : List A) → includes (set_of acc ys) x ≡ (includes acc x || includes ys x)
  includes-set_of acc [] = ground arith
  includes-set_of acc (y ∷ ys) =
      ground (arith, includes-set_of (set_add acc y) ys, includes-set_add acc y)

  pub includes-filter :
      (p : A → Bool) (ys : List A) → includes (filter p ys) x ≡ (includes ys x && p x)
  includes-filter p [] = refl
  includes-filter p (y ∷ ys) = ground (arith, e.equal_iff y x, includes-filter p ys)

  pub includes-set_delete :
      (ys : List A) (y : A) → includes (set_delete ys y) x ≡ (includes ys x && not (x == y))
  includes-set_delete ys y = includes-filter (λ z. not (z == y)) ys

  -- a filter that keeps the length keeps everything
  pub filter_kept_all :
      (p : A → Bool) (ys : List A)
      → length (filter p ys) ≡ length ys
      → includes ys x ≡ true
      → p x ≡ true
  filter_kept_all p [] same there = cc
  filter_kept_all p (y ∷ ys) same there =
      ground (arith, e.equal_iff y x, filter_kept_all p ys, length-filter-le p ys)
