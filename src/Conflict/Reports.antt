-- ===== src/Conflict/Reports.antt =====
-- What is known of a conflict after several reports of it, and the history that an update keeps.
use reference_app.Bag.Commit.{BagIsOrdered}
use reference_app.Bag.Order.{Below, Below-filter, Descends-filter, IsOrdered}
use reference_app.Conflict.{
  conflict_version, older_than, with_earlier_versions, with_replica_conflict,
}
use reference_app.Prelude.{
  List, Option, Option-cases, [], arith, filter, inl, inr, is_some, none, some, true, ℕ, ◌∷◌, ◌≡◌,
  ◌≤◌,
}
use reference_app.Samples.{quiet}
use reference_app.Types.{BagVersion, ReplicaConflict, SecretBag, UserSecret, Vault}

abbrev pub rival_known : Option ReplicaConflict → Option (List UserSecret)
rival_known none = none
rival_known (some conflict) = conflict.rival_secrets

-- However often a conflict is reported, the version on record never goes back, and a rival copy that
-- is on record for that version is not thrown away: it stays, or a later report's own copy of the
-- same version takes its place.
pub with_replica_conflict-keeps :
    (v : Vault) (held next : ReplicaConflict)
    → v.replica_conflict ≡ some held
    → (held.version ≤ conflict_version (with_replica_conflict v next).replica_conflict)
      × (is_some held.rival_secrets ≡ true
          → conflict_version (with_replica_conflict v next).replica_conflict ≡ held.version
          → is_some (rival_known (with_replica_conflict v next).replica_conflict) ≡ true)
unfolding with_replica_conflict
with_replica_conflict-keeps v held next h = (rw h (ground arith), rw h (ground arith))

-- A conflict that is reported from both sides, once with the rival copy and once without, leaves the
-- version and the copy on record in whichever order the reports come.
pub with_replica_conflict_comm :
    (v : Vault) (offered plain : ReplicaConflict)
    → plain.rival_secrets ≡ none
    → (conflict_version
          (with_replica_conflict (with_replica_conflict v offered) plain).replica_conflict
        ≡ conflict_version
            (with_replica_conflict (with_replica_conflict v plain) offered).replica_conflict)
      × (rival_known
            (with_replica_conflict (with_replica_conflict v offered) plain).replica_conflict
          ≡ rival_known
              (with_replica_conflict (with_replica_conflict v plain) offered).replica_conflict)
unfolding with_replica_conflict
with_replica_conflict_comm v offered plain h = elim (Option-cases v.replica_conflict) [
  | inl quiet ↦ rw quiet (ground arith, ground arith)
  | inr (held, found) ↦ rw found (ground arith, ground arith)
]

Below-older : (version : ℕ) (vs : List BagVersion) → Below version (filter (older_than version) vs)
Below-older version [] = tt
Below-older version (v ∷ vs) = ground (arith, Below-older version vs)

-- An update keeps the order of the versions: where the bag that was held lists them newest first with
-- no number twice, so does the bag that comes with no earlier versions once it has the held ones.
pub with_earlier_versions-IsOrdered :
    (next : SecretBag) (held : Option SecretBag)
    → IsOrdered next
    → BagIsOrdered held
    → IsOrdered (with_earlier_versions next held)
unfolding with_earlier_versions
with_earlier_versions-IsOrdered next none n o = n
with_earlier_versions-IsOrdered next (some held) n o = ground (
  arith,
  Below-older next.current_version.version held.previous_versions,
  Below-filter held.current_version.version (older_than next.current_version.version)
      held.previous_versions,
  Descends-filter (older_than next.current_version.version) held.previous_versions,
)
