-- ===== src/Bag/Order.antt =====
-- A bag lists its versions newest first, with no number twice. What the operations of the bag do
-- to that order.
use reference_app.Bag.{at_version, newest_first}
use reference_app.Prelude.{
  All, Bool, List, [], arith, filter, find, none, refl, sort, sort_insert, ℕ, ◌<◌, ◌∷◌, ◌≡◌, ◌≤◌,
}
use reference_app.Types.{BagVersion, SecretBag}

-- every version is older than `n`
abbrev pub Below : ℕ → List BagVersion → Type 0
Below n = All (λ v. v.version < n)

abbrev pub Descends : List BagVersion → Type 0
Descends [] = Unit
Descends (v ∷ vs) = Below v.version vs × Descends vs

abbrev pub IsOrdered : SecretBag → Type 0
IsOrdered bag = Descends (bag.current_version ∷ bag.previous_versions)

pub Below-weaken : {m n : ℕ} (vs : List BagVersion) → m ≤ n → Below m vs → Below n vs
Below-weaken [] h b = tt
Below-weaken (v ∷ vs) h b = (omega arith, Below-weaken vs h b.1)

pub Below-filter :
    (n : ℕ) (p : BagVersion → Bool) (vs : List BagVersion) → Below n vs → Below n (filter p vs)
Below-filter n p [] b = tt
Below-filter n p (v ∷ vs) b = ground (arith, Below-filter n p vs b.1)

pub Descends-filter :
    (p : BagVersion → Bool) (vs : List BagVersion) → Descends vs → Descends (filter p vs)
Descends-filter p [] d = tt
Descends-filter p (v ∷ vs) d =
    ground (arith, Below-filter v.version p vs d.0, Descends-filter p vs d.1)

-- where every version is older, one with the number itself is not found
pub find-Below :
    {n : ℕ} (w : ℕ) (vs : List BagVersion) → Below n vs → n ≤ w → find (at_version w) vs ≡ none
find-Below w [] b h = refl
find-Below w (v ∷ vs) b h = ground (arith, find-Below w vs b.1 h)

module _ (x : BagVersion) where
  pub Below-sort_insert :
      {n : ℕ} (vs : List BagVersion)
      → x.version < n
      → Below n vs
      → Below n (sort_insert newest_first x vs)
  unfolding sort_insert
  Below-sort_insert [] h b = (h, tt)
  Below-sort_insert (v ∷ vs) h b = ground (arith, Below-sort_insert vs h b.1)

  pub Descends-sort_insert :
      (vs : List BagVersion)
      → find (at_version x.version) vs ≡ none
      → Descends vs
      → Descends (sort_insert newest_first x vs)
  unfolding sort_insert
  Descends-sort_insert [] f d = (tt, tt)
  Descends-sort_insert (v ∷ vs) f d = ground (
    arith,
    Below-weaken {m = v.version} {n = x.version} vs,
    Below-sort_insert {n = v.version} vs,
    Descends-sort_insert vs,
  )

  pub find-sort_insert :
      (w : ℕ) (vs : List BagVersion)
      → find (at_version w) (sort_insert newest_first x vs) ≡ find (at_version w) (x ∷ vs)
  unfolding sort_insert
  find-sort_insert w [] = refl
  find-sort_insert w (v ∷ vs) = ground (arith, find-sort_insert w vs)

-- a list in order is sorted already
pub sort-Descends : (vs : List BagVersion) → Descends vs → sort newest_first vs ≡ vs
unfolding sort
sort-Descends [] d = refl
sort-Descends (v ∷ []) d = refl
sort-Descends (v ∷ u ∷ vs) d = rw (sort-Descends (u ∷ vs) d.1) (ground arith)

module _ (u v : BagVersion) (us vs : List BagVersion) (d : Descends (u ∷ us))
    (e : Descends (v ∷ vs))
    (h : (w : ℕ) → find (at_version w) (u ∷ us) ≡ find (at_version w) (v ∷ vs)) where
  same_head : u ≡ v
  same_head = ground (
    arith,
    h v.version,
    h u.version,
    find-Below {n = u.version} v.version us d.0,
    find-Below {n = v.version} u.version vs e.0,
  )

  same_tails : (w : ℕ) → find (at_version w) us ≡ find (at_version w) vs
  same_tails w = ground (
    arith,
    same_head,
    h w,
    find-Below {n = u.version} w us d.0,
    find-Below {n = v.version} w vs e.0,
  )

-- Two lists in order that hold the same version under each number are one list.
pub Descends-ext :
    (us vs : List BagVersion)
    → Descends us
    → Descends vs
    → ((w : ℕ) → find (at_version w) us ≡ find (at_version w) vs)
    → us ≡ vs
Descends-ext [] [] d e h = refl
Descends-ext [] (v ∷ vs) d e h = ground (arith, h v.version)
Descends-ext (u ∷ us) [] d e h = ground (arith, h u.version)
Descends-ext (u ∷ us) (v ∷ vs) d e h =
    cc (same_head u v us vs d e h, Descends-ext us vs d.1 e.1 (same_tails u v us vs d e h))
