-- ===== src/KeepList/Laws.antt =====
-- What the list of kept versions holds.
use reference_app.Bag.{committed_versions_of, version_numbers}
use reference_app.Bag.Order.{Below, IsOrdered}
use reference_app.KeepList.{add_open, descending, keep_list_for, newest_committed, persisted_open}
use reference_app.Prelude.{
  Bool-cases, List, Option, String, [], ap, arith, eq_iff, includes, includes-set_add,
  includes-set_of, inl, inr, length, length-append, ltb, map, nat_beq, nat_eq, none, option_eq,
  pair_eq, refl, set_add, set_of, some, sort, sort_insert, string_eq, suc, true, ℕ, ◌&&◌, ◌++◌, ◌<◌,
  ◌==◌, ◌||◌, ◌↔◌, ◌∙◌, ◌∷◌, ◌≡◌, ◌≢◌, ◌≤◌, ◌⊎◌,
}
use reference_app.Types.{BagVersion, SecretBag, Vault}

module _ (x : ℕ) where
  pub includes-sort_insert :
      (y : ℕ) (ys : List ℕ) → includes (sort_insert descending y ys) x ≡ (y == x || includes ys x)
  unfolding sort_insert
  includes-sort_insert y [] = refl
  includes-sort_insert y (z ∷ ys) = ground (arith, includes-sort_insert y ys)

  pub includes-sort : (ys : List ℕ) → includes (sort descending ys) x ≡ includes ys x
  unfolding sort
  includes-sort [] = refl
  includes-sort (y ∷ ys) =
      includes-sort_insert y (sort descending ys) ∙ ap (λ b. y == x || b) (includes-sort ys)

  includes-add_open :
      (version : ℕ) (kept others : List ℕ)
      → includes (add_open version kept others) x
        ≡ (includes kept x || (ltb x version && includes others x))
  includes-add_open version kept [] = ground arith
  includes-add_open version kept (o ∷ others) = ground (
    arith,
    includes-add_open version (set_add kept o) others,
    includes-add_open version kept others,
    includes-set_add x kept o,
  )

-- The list that the vault answers with, by the two sets that it is made of.
pub includes-keep_list_parts :
    (vault : Vault) (secret_id : String) (version : ℕ) (open_versions kept : List ℕ) (x : ℕ)
    → keep_list_for vault secret_id version open_versions ≡ some kept
    → includes kept x ≡ (
        includes (newest_committed vault version) x
        || (ltb x version && includes (open_versions ++ persisted_open vault) x))
unfolding keep_list_for
includes-keep_list_parts vault secret_id version open_versions kept x h = ground (
  arith,
  includes-sort x (
      add_open version (set_of [] (newest_committed vault version))
        (open_versions ++ persisted_open vault)),
  includes-add_open x version (set_of [] (newest_committed vault version))
      (open_versions ++ persisted_open vault),
  includes-set_of x [] (newest_committed vault version),
)

length-sort_insert : (y : ℕ) (ys : List ℕ) → length (sort_insert descending y ys) ≡ suc (length ys)
unfolding sort_insert
length-sort_insert y [] = refl
length-sort_insert y (z ∷ ys) = ground (arith, length-sort_insert y ys)

length-sort : (ys : List ℕ) → length (sort descending ys) ≡ length ys
unfolding sort
length-sort [] = refl
length-sort (y ∷ ys) = length-sort_insert y (sort descending ys) ∙ ap suc (length-sort ys)

length-set_add-le : (acc : List ℕ) (y : ℕ) → length acc ≤ length (set_add acc y)
length-set_add-le acc y = ground (arith, length-append acc (y ∷ []))

length-set_of-le : (acc ys : List ℕ) → length acc ≤ length (set_of acc ys)
length-set_of-le acc [] = omega arith
length-set_of-le acc (y ∷ ys) =
    omega (arith, length-set_add-le acc y, length-set_of-le (set_add acc y) ys)

some_committed : (bag : SecretBag) → 0 < length (committed_versions_of (some bag))
unfolding committed_versions_of
some_committed bag = omega (
  arith,
  length-set_of-le (bag.current_version.version ∷ []) (map (λ v. v.version) bag.previous_versions),
)

committed_empty_iff :
    (held : Option SecretBag)
    → (nat_beq (length (sort descending (committed_versions_of held))) 0 ≡ true) ↔ (held ≡ none)
committed_empty_iff none = (λ h. refl, λ h. unfold committed_versions_of sort in refl)
committed_empty_iff (some bag) = (
  λ h. absurd (ground (arith, some_committed bag, length-sort (committed_versions_of (some bag)))),
  λ h. cc,
)

-- No list is sent, so that helpers keep everything, exactly when the round is for another secret
-- than the vault's own or no committed version is known.
pub keep_list_for-eq-none_iff :
    (vault : Vault) (secret_id : String) (version : ℕ) (open_versions : List ℕ)
    → (keep_list_for vault secret_id version open_versions ≡ none)
      ↔ ((secret_id ≢ vault.secret_id) ⊎ (vault.secret_bag ≡ none))
unfolding keep_list_for
keep_list_for-eq-none_iff vault secret_id version open_versions =
    ground (arith, eq_iff secret_id vault.secret_id, committed_empty_iff vault.secret_bag)

sort_insert_top :
    (m : ℕ) (ys : List ℕ)
    → ((x : ℕ) → includes ys x ≡ true → x ≤ m)
    → (rest : List ℕ) × (sort_insert descending m ys ≡ m ∷ rest)
unfolding sort_insert
sort_insert_top m [] h = ([], refl)
sort_insert_top m (y ∷ ys) h = (y ∷ ys, ground (arith, h y))

sort_insert_below :
    (m y : ℕ) (ys : List ℕ)
    → y ≤ m
    → (rest : List ℕ) × (sort_insert descending y (m ∷ ys) ≡ m ∷ rest)
unfolding sort_insert
sort_insert_below m y ys h = elim (Bool-cases (descending y m)) [
  | inl first ↦ (m ∷ ys, ground arith)
  | inr later ↦ (sort_insert descending y ys, ground arith)
]

-- the largest of some numbers is the first of them in descending order
sort_top :
    (m : ℕ) (ys : List ℕ)
    → ((x : ℕ) → includes ys x ≡ true → x ≤ m)
    → includes ys m ≡ true
    → (rest : List ℕ) × (sort descending ys ≡ m ∷ rest)
unfolding sort
sort_top m [] h i = absurd (cc)
sort_top m (y ∷ ys) h i = elim (Bool-cases (includes ys m)) [
  | inl there ↦
      let (rest, e) = sort_top m ys (λ x g. h x (ground arith)) there in
      rw e (sort_insert_below m y rest (h y (ground arith)))
  | inr gone ↦
      let same : y ≡ m = ground arith in
      rw same
        (sort_insert_top m (sort descending ys) (λ x g. h x (ground (arith, includes-sort x ys))))
]

includes-Below :
    (n x : ℕ) (vs : List BagVersion)
    → Below n vs
    → includes (map (λ v. v.version) vs) x ≡ true
    → x < n
includes-Below n x [] b h = cc
includes-Below n x (v ∷ vs) b h = ground (arith, includes-Below n x vs b.1)

committed_top :
    (bag : SecretBag)
    → IsOrdered bag
    → (rest : List ℕ) × (sort descending (committed_versions_of (some bag))
        ≡ bag.current_version.version ∷ rest)
unfolding committed_versions_of
committed_top bag o =
    let current = bag.current_version.version in
    sort_top current (set_of [] (version_numbers bag))
      (λ x h. ground (
        arith,
        includes-set_of x [] (version_numbers bag),
        includes-Below current x bag.previous_versions o.0,
      ))
      (ground (arith, includes-set_of current [] (version_numbers bag)))

-- Where the bag's versions are newest first with no number twice, its current version is always on
-- the list, unless it is the round's own: no helper is told to drop the latest committed version.
pub current-keep_list_for :
    (vault : Vault) (bag : SecretBag) (secret_id : String) (version : ℕ)
    (open_versions kept : List ℕ)
    → vault.secret_bag ≡ some bag
    → IsOrdered bag
    → bag.current_version.version ≢ version
    → keep_list_for vault secret_id version open_versions ≡ some kept
    → includes kept bag.current_version.version ≡ true
current-keep_list_for vault bag secret_id version open_versions kept b o d h =
    let (rest, e) = committed_top bag o in
    rw
      (
        includes-keep_list_parts vault secret_id version open_versions kept
            bag.current_version.version h,
        b,
        e,
      )
      (ground arith)
