-- ===== src/Bag.antt =====
-- owner/bag.ts, and the bag operations of owner/heldShares.ts and of vault/rounds.ts: reading and
-- updating one version of the secret bag, and committing the version that a finished round staged.
pub mod Lookup
pub mod Order
pub mod Commit
mod Tests
use reference_app.Prelude.{
  Bool, List, Option, String, [], false, filter, find, if◌then◌else◌, includes, leb, length, ltb,
  map, nat_eq, none, not, set_of, some, sort, string_eq, true, ℕ, ◌&&◌, ◌++◌, ◌==◌, ◌∷◌,
}
use reference_app.Types.{BagVersion, SecretBag, SecretShareRef, ShareStatus, confirmed}

abbrev pub at_version : ℕ → BagVersion → Bool
at_version version v = v.version == version

-- `bagVersionOf`, at a bag that is there
unfoldable pub version_in : SecretBag → ℕ → Option BagVersion
version_in bag version =
    if at_version version bag.current_version
    then some bag.current_version
    else find (at_version version) bag.previous_versions

unfoldable pub bag_version_of : Option SecretBag → ℕ → Option BagVersion
unfolding version_in
bag_version_of none version = none
bag_version_of (some bag) version = version_in bag version

abbrev pub update_at : ℕ → (BagVersion → BagVersion) → BagVersion → BagVersion
update_at version updater v = if at_version version v then updater v else v

unfoldable pub update_bag_version : SecretBag → ℕ → (BagVersion → BagVersion) → SecretBag
update_bag_version bag version updater =
    if at_version version bag.current_version
    then record bag { current_version = updater bag.current_version }
    else record bag { previous_versions = map (update_at version updater) bag.previous_versions }

abbrev pub add_participant : String → BagVersion → BagVersion
add_participant id v =
    if includes v.participant_ids id
    then v
    else record v { participant_ids = v.participant_ids ++ id ∷ [] }

unfoldable pub update_bag_participant : SecretBag → ℕ → String → SecretBag
unfolding update_bag_version
update_bag_participant bag version id = update_bag_version bag version (add_participant id)

abbrev pub add_verified : String → BagVersion → BagVersion
add_verified id v =
    if includes v.verified_participant_ids id
    then v
    else record v { verified_participant_ids = v.verified_participant_ids ++ id ∷ [] }

unfoldable pub update_bag_verified : SecretBag → ℕ → String → SecretBag
unfolding update_bag_version
update_bag_verified bag version id = update_bag_version bag version (add_verified id)

-- `(a, b) => b.version - a.version`, as the test that the sort keeps `a` in front
abbrev pub newest_first : BagVersion → BagVersion → Bool
newest_first a b = leb b.version a.version

-- `commitRoundVersion` where a bag is committed already
unfoldable pub commit_into : SecretBag → BagVersion → SecretBag
commit_into committed landed =
    let current = committed.current_version in
    if ltb current.version landed.version
    then record committed {
      current_version = landed;
      previous_versions =
          filter (λ v. not (at_version landed.version v)) (current ∷ committed.previous_versions);
    }
    else if at_version landed.version current
    then record committed { current_version = landed }
    else record committed {
      previous_versions =
          sort newest_first
            (landed ∷ filter (λ v. not (at_version landed.version v)) committed.previous_versions);
    }

unfoldable pub commit_round_version : Option SecretBag → SecretBag → SecretBag
unfolding commit_into
commit_round_version none staged = record staged { previous_versions = [] }
commit_round_version (some committed) staged = commit_into committed staged.current_version

abbrev pub version_numbers : SecretBag → List ℕ
version_numbers bag = map (λ v. v.version) (bag.current_version ∷ bag.previous_versions)

-- `committedVersionsOf`
unfoldable pub committed_versions_of : Option SecretBag → List ℕ
committed_versions_of none = []
committed_versions_of (some bag) = set_of [] (version_numbers bag)

abbrev pub is_confirmed : ShareStatus → Bool
is_confirmed confirmed = true
is_confirmed _ = false

abbrev pub counts_for : Option (List ℕ) → ℕ → Bool
counts_for none version = true
counts_for (some committed) version = includes committed version

unfoldable pub held_share_count : List SecretShareRef → Option (List ℕ) → ℕ
held_share_count shares committed =
    length (filter (λ s. is_confirmed s.status && counts_for committed s.version) shares)
