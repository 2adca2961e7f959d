-- ===== src/Bag/Lookup.antt =====
-- What one version of a bag reads as, after a version was updated.
use reference_app.Bag.{
  add_participant, add_verified, at_version, update_at, update_bag_participant, update_bag_verified,
  update_bag_version, version_in,
}
use reference_app.Prelude.{
  List, String, [], arith, find, if◌then◌else◌, map, nat_eq, string_eq, ℕ, ◌==◌, ◌∷◌, ◌≡◌,
}
use reference_app.Types.{BagVersion, SecretBag}
use mathlib.Core.Option

-- an updater that leaves the number of the version alone
abbrev pub KeepsVersion : (BagVersion → BagVersion) → Type 0
KeepsVersion updater = (v : BagVersion) → (updater v).version ≡ v.version

find-map-update_at :
    (version : ℕ) (updater : BagVersion → BagVersion)
    → KeepsVersion updater
    → (w : ℕ) (vs : List BagVersion)
    → find (at_version w) (map (update_at version updater) vs) ≡ (
        if version == w
        then Option.map updater (find (at_version w) vs)
        else find (at_version w) vs)
find-map-update_at version updater keeps w [] = ground arith
find-map-update_at version updater keeps w (v ∷ vs) =
    ground (arith, keeps v, find-map-update_at version updater keeps w vs)

-- Updating a version changes that version, at its place, and no other.
pub version_in-update_bag_version :
    (bag : SecretBag) (version : ℕ) (updater : BagVersion → BagVersion)
    → KeepsVersion updater
    → (w : ℕ)
    → version_in (update_bag_version bag version updater) w
      ≡ (if version == w then Option.map updater (version_in bag w) else version_in bag w)
unfolding version_in update_bag_version
version_in-update_bag_version bag version updater keeps w = ground (
  arith,
  keeps bag.current_version,
  find-map-update_at version updater keeps w bag.previous_versions,
)

add_participant-KeepsVersion : (id : String) → KeepsVersion (add_participant id)
add_participant-KeepsVersion id v = ground arith

add_verified-KeepsVersion : (id : String) → KeepsVersion (add_verified id)
add_verified-KeepsVersion id v = ground arith

pub version_in-update_bag_participant :
    (bag : SecretBag) (version : ℕ) (id : String) (w : ℕ)
    → version_in (update_bag_participant bag version id) w ≡ (
        if version == w
        then Option.map (add_participant id) (version_in bag w)
        else version_in bag w)
unfolding update_bag_participant
version_in-update_bag_participant bag version id =
    version_in-update_bag_version bag version (add_participant id) (add_participant-KeepsVersion id)

pub version_in-update_bag_verified :
    (bag : SecretBag) (version : ℕ) (id : String) (w : ℕ)
    → version_in (update_bag_verified bag version id) w
      ≡ (if version == w then Option.map (add_verified id) (version_in bag w) else version_in bag w)
unfolding update_bag_verified
version_in-update_bag_verified bag version id =
    version_in-update_bag_version bag version (add_verified id) (add_verified-KeepsVersion id)
