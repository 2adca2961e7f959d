-- ===== src/Bag/Commit.antt =====
-- Committing the rounds of a vault: what `commitRoundVersion` of vault/rounds.ts leaves in the bag.
use reference_app.Bag.{
  at_version, bag_version_of, commit_into, commit_round_version, newest_first, version_in,
}
use reference_app.Bag.Order.{
  Below, Below-filter, Below-sort_insert, Below-weaken, Descends, Descends-ext, Descends-filter,
  Descends-sort_insert, IsOrdered, find-sort_insert, sort-Descends,
}
use reference_app.Prelude.{
  Bool, List, Option, [], arith, filter, find, find-filter_kept, find-filter-none, if◌then◌else◌,
  nat_eq, none, not, refl, some, sort, string_eq, sym, ℕ, ◌<◌, ◌==◌, ◌∙◌, ◌∷◌, ◌≡◌, ◌≢◌, ◌≤◌,
}
use reference_app.Types.{BagVersion, SecretBag}

abbrev other_than : ℕ → BagVersion → Bool
other_than version v = not (at_version version v)

find-other_than_self :
    (n : ℕ) (vs : List BagVersion) → find (at_version n) (filter (other_than n) vs) ≡ none
find-other_than_self n vs = find-filter-none (other_than n) (at_version n) vs (λ v h. ground arith)

find-other_than :
    (n w : ℕ) (vs : List BagVersion)
    → n ≢ w
    → find (at_version w) (filter (other_than n) vs) ≡ find (at_version w) vs
find-other_than n w vs d = find-filter_kept (other_than n) (at_version w) vs (λ v h. ground arith)

find-sort_cons :
    (landed : BagVersion) (w : ℕ) (vs : List BagVersion)
    → find (at_version w) (sort newest_first (landed ∷ vs))
      ≡ (if landed.version == w then some landed else find (at_version w) (sort newest_first vs))
unfolding sort
find-sort_cons landed w vs = rw find-sort_insert refl

find-sort :
    (w : ℕ) (vs : List BagVersion)
    → find (at_version w) (sort newest_first vs) ≡ find (at_version w) vs
unfolding sort
find-sort w [] = refl
find-sort w (v ∷ vs) = ground (arith, find-sort_insert v w (sort newest_first vs), find-sort w vs)

module _ (bag : SecretBag) (landed : BagVersion) where
  -- The round's version is in the bag as it was staged, and every other version reads as before.
  pub version_in-commit_into :
      (w : ℕ)
      → version_in (commit_into bag landed) w
        ≡ (if landed.version == w then some landed else version_in bag w)
  unfolding commit_into version_in
  version_in-commit_into w = ground (
    arith,
    find-other_than landed.version w bag.previous_versions,
    find-sort_cons landed w (filter (other_than landed.version) bag.previous_versions),
    find-sort w (filter (other_than landed.version) bag.previous_versions),
  )

  Descends-sort_cons :
      (vs : List BagVersion)
      → find (at_version landed.version) vs ≡ none
      → Descends vs
      → Descends (sort newest_first (landed ∷ vs))
  unfolding sort
  Descends-sort_cons vs f d = rw (sort-Descends vs d) (Descends-sort_insert landed vs f d)

  Below-sort_cons :
      (n : ℕ) (vs : List BagVersion)
      → landed.version < n
      → Descends vs
      → Below n vs
      → Below n (sort newest_first (landed ∷ vs))
  unfolding sort
  Below-sort_cons n vs h d b = rw (sort-Descends vs d) (Below-sort_insert landed {n = n} vs h b)

  pub commit_into-IsOrdered : IsOrdered bag → IsOrdered (commit_into bag landed)
  unfolding commit_into
  commit_into-IsOrdered o =
      let kept = other_than landed.version in
      let held = bag.previous_versions in
      ground (
        arith,
        Below-filter landed.version kept held,
        Below-weaken {m = bag.current_version.version} {n = landed.version} held,
        Below-filter bag.current_version.version kept held o.0,
        Descends-filter kept held o.1,
        find-other_than_self landed.version held,
        Below-sort_cons bag.current_version.version (filter kept held),
        Descends-sort_cons (filter kept held),
      )

  -- Whatever round is committed, the current version never goes back.
  pub current-le-commit_into :
      bag.current_version.version ≤ (commit_into bag landed).current_version.version
  unfolding commit_into
  current-le-commit_into = ground arith

-- equal lists of versions, and the rest equal: equal bags
SecretBag-ext :
    (a b : SecretBag)
    → a.secret_id ≡ b.secret_id
    → a.threshold ≡ b.threshold
    → (a.current_version ∷ a.previous_versions) ≡ (b.current_version ∷ b.previous_versions)
    → a ≡ b
SecretBag-ext a b i t v = cc

secret_id-commit_into :
    (bag : SecretBag) (landed : BagVersion) → (commit_into bag landed).secret_id ≡ bag.secret_id
unfolding commit_into
secret_id-commit_into bag landed = ground arith

threshold-commit_into :
    (bag : SecretBag) (landed : BagVersion) → (commit_into bag landed).threshold ≡ bag.threshold
unfolding commit_into
threshold-commit_into bag landed = ground arith

version_in-find :
    (bag : SecretBag) (w : ℕ)
    → find (at_version w) (bag.current_version ∷ bag.previous_versions) ≡ version_in bag w
unfolding version_in
version_in-find bag w = refl

version_in_comm :
    (bag : SecretBag) (a b : BagVersion) (w : ℕ)
    → a.version ≢ b.version
    → version_in (commit_into (commit_into bag a) b) w
      ≡ version_in (commit_into (commit_into bag b) a) w
version_in_comm bag a b w d = simp version_in-commit_into (ground arith)

-- Rounds complete in any order: two rounds of different versions leave the same bag, whichever
-- of them is committed first.
pub commit_into_comm :
    (bag : SecretBag) (a b : BagVersion)
    → IsOrdered bag
    → a.version ≢ b.version
    → commit_into (commit_into bag a) b ≡ commit_into (commit_into bag b) a
commit_into_comm bag a b o d =
    let ab = commit_into (commit_into bag a) b in
    let ba = commit_into (commit_into bag b) a in
    SecretBag-ext ab ba (simp secret_id-commit_into) (simp threshold-commit_into) (
      Descends-ext _ _ (commit_into-IsOrdered (commit_into bag a) b (commit_into-IsOrdered bag a o))
        (commit_into-IsOrdered (commit_into bag b) a (commit_into-IsOrdered bag b o))
        (λ w. version_in-find ab w ∙ version_in_comm bag a b w d ∙ sym (version_in-find ba w)))

-- The same round twice is the same as once.
pub commit_into_idem :
    (bag : SecretBag) (landed : BagVersion)
    → IsOrdered bag
    → commit_into (commit_into bag landed) landed ≡ commit_into bag landed
commit_into_idem bag landed o =
    let once = commit_into bag landed in
    let twice = commit_into once landed in
    SecretBag-ext twice once (simp secret_id-commit_into) (simp threshold-commit_into) (
      Descends-ext _ _ (commit_into-IsOrdered once landed (commit_into-IsOrdered bag landed o))
        (commit_into-IsOrdered bag landed o)
        (λ w.
          version_in-find twice w
          ∙ simp version_in-commit_into (ground arith)
          ∙ sym (version_in-find once w)))

-- what the vault holds, where it holds a bag
abbrev pub BagIsOrdered : Option SecretBag → Type 0
BagIsOrdered none = Unit
BagIsOrdered (some bag) = IsOrdered bag

-- Where the versions of the committed bag, if there is one, are listed newest first with no number
-- twice, `commitRoundVersion` leaves a bag of which the same holds, whatever was staged.
pub commit_round_version-IsOrdered :
    (committed : Option SecretBag) (staged : SecretBag)
    → BagIsOrdered committed
    → IsOrdered (commit_round_version committed staged)
unfolding commit_round_version
commit_round_version-IsOrdered none staged o = (tt, tt)
commit_round_version-IsOrdered (some bag) staged o =
    commit_into-IsOrdered bag staged.current_version o

-- Committing a staged bag to a bag that is there takes the staged bag's current version, and
-- leaves every other version of the bag as it was.
pub bag_version_of-commit_round_version :
    (bag staged : SecretBag) (w : ℕ)
    → bag_version_of (some (commit_round_version (some bag) staged)) w ≡ (
        if staged.current_version.version == w
        then some staged.current_version
        else bag_version_of (some bag) w)
unfolding commit_round_version bag_version_of
bag_version_of-commit_round_version bag staged w =
    version_in-commit_into bag staged.current_version w

-- Rounds complete in any order: where the versions of the bag are listed newest first with no
-- number twice, two rounds of different versions leave the same bag whichever of them is committed
-- first.
pub commit_round_version_comm :
    (bag a b : SecretBag)
    → IsOrdered bag
    → a.current_version.version ≢ b.current_version.version
    → commit_round_version (some (commit_round_version (some bag) a)) b
      ≡ commit_round_version (some (commit_round_version (some bag) b)) a
unfolding commit_round_version
commit_round_version_comm bag a b o d = commit_into_comm bag a.current_version b.current_version o d

-- Committing never takes the current version of a bag back to an older number.
pub current-le-commit_round_version :
    (bag staged : SecretBag)
    → bag.current_version.version ≤ (commit_round_version (some bag) staged).current_version.version
unfolding commit_round_version
current-le-commit_round_version bag staged = current-le-commit_into bag staged.current_version
