-- ===== src/KeepList/Newest.antt =====
-- The newest versions that `keepListFor` (apps/web/src/vault/keepList.ts) takes from the sorted list.
use reference_app.Bag.{committed_versions_of}
use reference_app.KeepList.{descending, keep_list_for, newest_committed, persisted_open}
use reference_app.KeepList.Laws.{includes-keep_list_parts, includes-sort, includes-sort_insert}
use reference_app.Prelude.{
  Bool, Bool-cases, List, String, [], arith, filter, includes, includes-filter, inl, inr, length,
  ltb, nat_eq, not, option_eq, pair_eq, refl, some, sort, sort_insert, string_eq, suc, take, true,
  zero, ℕ, ◌&&◌, ◌++◌, ◌==◌, ◌||◌, ◌∙◌, ◌∷◌, ◌≡◌, ◌≤◌,
}
use reference_app.Types.{Vault}

-- how many of the numbers are larger
abbrev pub count_larger : ℕ → List ℕ → ℕ
count_larger x xs = length (filter (λ y. ltb x y) xs)

abbrev IsDescending : List ℕ → Type 0
IsDescending [] = Unit
IsDescending (y ∷ ys) = ((x : ℕ) → includes ys x ≡ true → x ≤ y) × IsDescending ys

none_larger :
    (x : ℕ) (ys : List ℕ) → ((y : ℕ) → includes ys y ≡ true → y ≤ x) → count_larger x ys ≡ 0
none_larger x [] h = refl
none_larger x (y ∷ ys) h =
    let first : y ≤ x = h y (ground arith) in
    let rest : count_larger x ys ≡ 0 = none_larger x ys (λ z g. h z (ground (arith, g))) in
    ground (arith, first, rest)

-- a number is among the first `n` exactly when fewer than `n` are larger
includes-take :
    (x n : ℕ) (ys : List ℕ)
    → IsDescending ys
    → includes (take n ys) x ≡ (includes ys x && ltb (count_larger x ys) n)
includes-take x zero ys d = ground arith
includes-take x (suc n) [] d = refl
includes-take x (suc n) (y ∷ ys) d = elim (Bool-cases (y == x)) [
  | inl same ↦
      let e : y ≡ x = ground (arith, same) in
      let top : count_larger x ys ≡ 0 = none_larger x ys (λ z g. ground (arith, e, d.0 z g)) in
      ground (arith, same, e, top)
  | inr other ↦ ground (arith, other, d.0 x, includes-take x n ys d.1)
]

sort_insert-IsDescending :
    (y : ℕ) (ys : List ℕ) → IsDescending ys → IsDescending (sort_insert descending y ys)
unfolding sort_insert
sort_insert-IsDescending y [] d = (λ x h. absurd (cc), tt)
sort_insert-IsDescending y (z ∷ ys) d = elim (Bool-cases (descending y z)) [
  | inl first ↦ rw (sort_insert, first) (λ x h. ground (arith, first, h, d.0 x), d)
  | inr later ↦
      rw (sort_insert, later)
        (
          λ x h. ground (arith, later, h, d.0 x, includes-sort_insert x y ys),
          sort_insert-IsDescending y ys d.1,
        )
]

sort-IsDescending : (ys : List ℕ) → IsDescending (sort descending ys)
unfolding sort
sort-IsDescending [] = tt
sort-IsDescending (y ∷ ys) = sort_insert-IsDescending y (sort descending ys) (sort-IsDescending ys)

filter-IsDescending : (p : ℕ → Bool) (ys : List ℕ) → IsDescending ys → IsDescending (filter p ys)
filter-IsDescending p [] d = tt
filter-IsDescending p (y ∷ ys) d = elim (Bool-cases (p y)) [
  | inl kept_it ↦
      rw kept_it
        (λ x h. d.0 x (ground (arith, h, includes-filter x p ys)), filter-IsDescending p ys d.1)
  | inr dropped ↦ rw dropped (filter-IsDescending p ys d.1)
]

module _ (q : ℕ → Bool) where
  count-sort_insert :
      (y : ℕ) (ys : List ℕ)
      → length (filter q (sort_insert descending y ys)) ≡ length (filter q (y ∷ ys))
  unfolding sort_insert
  count-sort_insert y [] = refl
  count-sort_insert y (z ∷ ys) = ground (arith, count-sort_insert y ys)

  count-sort : (ys : List ℕ) → length (filter q (sort descending ys)) ≡ length (filter q ys)
  unfolding sort
  count-sort [] = refl
  count-sort (y ∷ ys) = count-sort_insert y (sort descending ys) ∙ ground (arith, count-sort ys)

count-filter :
    (q p : ℕ → Bool) (ys : List ℕ)
    → length (filter q (filter p ys)) ≡ length (filter (λ y. q y && p y) ys)
count-filter q p [] = refl
count-filter q p (y ∷ ys) = ground (arith, count-filter q p ys)

-- how many committed versions, other than the round's own, are newer than `x`
abbrev pub newer_committed : Vault → ℕ → ℕ → ℕ
newer_committed vault version x =
    length (filter (λ v. ltb x v && not (v == version)) (committed_versions_of vault.secret_bag))

includes-newest_committed :
    (vault : Vault) (version x : ℕ)
    → includes (newest_committed vault version) x ≡ (
        includes (committed_versions_of vault.secret_bag) x
        && not (x == version)
        && ltb (newer_committed vault version x) 3)
includes-newest_committed vault version x =
    let committed = committed_versions_of vault.secret_bag in
    let other : ℕ → Bool = λ v. not (v == version) in
    let sorted = sort descending committed in
    includes-take x 3 (filter other sorted)
      (filter-IsDescending other sorted (sort-IsDescending committed))
    ∙ ground (
      arith,
      includes-filter x other sorted,
      includes-sort x committed,
      count-filter (λ y. ltb x y) other sorted,
      count-sort (λ y. ltb x y && other y) committed,
    )

-- The list that the vault answers with holds exactly the committed versions, without the round's own,
-- that fewer than three such versions are newer than, and every open round, tracked or persisted, that
-- is older than the round's.
pub includes-keep_list_for :
    (vault : Vault) (secret_id : String) (version : ℕ) (open_versions kept : List ℕ) (x : ℕ)
    → keep_list_for vault secret_id version open_versions ≡ some kept
    → includes kept x ≡ (
        includes (committed_versions_of vault.secret_bag) x
          && not (x == version)
          && ltb (newer_committed vault version x) 3
        || (ltb x version && includes (open_versions ++ persisted_open vault) x))
includes-keep_list_for vault secret_id version open_versions kept x h =
    includes-keep_list_parts vault secret_id version open_versions kept x h
    ∙ ground (arith, includes-newest_committed vault version x)
