-- ===== src/Conflict.antt =====
-- Diverged copies of a vault: vault/replicaConflict.ts, and what vault/fold/replica.ts records of a
-- conflict and of the versions held before an update.
pub mod Reports
pub mod Merge
mod Tests
use reference_app.Fold.Context.{FoldState, conflict_settled, log, notify_info, ◌▹◌}
use reference_app.Prelude.{
  Bool, Dict, List, Option, String, [], false, filter, if◌then◌else◌, includes, insert, is_some,
  lookup, ltb, map, nat_eq, none, not, or_else, set_of, some, string_eq, ℕ, ◌&&◌, ◌++◌, ◌==◌, ◌∷◌,
}
use reference_app.Types.{BagVersion, ReplicaConflict, SecretBag, UserSecret, Vault}

abbrev pub held_or_next {ℓ} : {A : Type ℓ} → Option A → Option A → Option A
held_or_next none next = next
held_or_next (some a) next = some a

abbrev pub with_rival : ReplicaConflict → ReplicaConflict → ReplicaConflict
with_rival held next = record held {
  rival_secrets = held_or_next next.rival_secrets held.rival_secrets;
  rival_replica_id =
      if is_some next.rival_secrets
      then next.rival_replica_id
      else held_or_next held.rival_replica_id next.rival_replica_id;
  detected_via = if is_some next.rival_secrets then next.detected_via else held.detected_via;
}

abbrev pub conflict_after : Option ReplicaConflict → ReplicaConflict → Option ReplicaConflict
conflict_after none next = some next
conflict_after (some held) next =
    if ltb held.version next.version
    then some next
    else if ltb next.version held.version
    then some held
    else some (with_rival held next)

unfoldable pub with_replica_conflict : Vault → ReplicaConflict → Vault
with_replica_conflict current next = record current {
  replica_conflict = conflict_after current.replica_conflict next;
}

abbrev pub is_past : ℕ → Option ReplicaConflict → Bool
is_past version none = false
is_past version (some conflict) = ltb conflict.version version

abbrev pub conflict_version : Option ReplicaConflict → ℕ
conflict_version none = 0
conflict_version (some conflict) = conflict.version

unfoldable pub superseded_conflict : Vault → ℕ → FoldState → Vault × FoldState
superseded_conflict current version st =
    if is_past version current.replica_conflict
    then (
      record current { replica_conflict = none },
      st
          ▹ log "sharing" "replica_conflict_superseded"
          ▹ notify_info (conflict_settled version (conflict_version current.replica_conflict)),
    )
    else (current, st)

abbrev pub older_than : ℕ → BagVersion → Bool
older_than version v = ltb v.version version

unfoldable pub with_earlier_versions : SecretBag → Option SecretBag → SecretBag
with_earlier_versions next none = next
with_earlier_versions next (some held) =
    if not (held.secret_id == next.secret_id) then next else record next {
      previous_versions =
          filter (older_than next.current_version.version)
            (held.current_version ∷ held.previous_versions);
    }

pub record ConflictEntry : Type 0 where
  pub id : String
  pub mine : Option UserSecret
  pub theirs : Option UserSecret

pub data EntryResolution : Type 0 where
  take_mine take_theirs drop_entry : EntryResolution

-- `new Map(secrets.map(s => [s.id, s]))`, on top of what `held` has
abbrev pub by_id : Dict String UserSecret → List UserSecret → Dict String UserSecret
by_id held [] = held
by_id held (s ∷ ss) = by_id (insert held s.id s) ss

abbrev pub id_in : List UserSecret → String → Bool
id_in secrets id = includes (set_of [] (map (λ s. s.id) secrets)) id

abbrev pub entry_of_mine : Dict String UserSecret → UserSecret → ConflictEntry
entry_of_mine theirs s = record { id = s.id; mine = some s; theirs = lookup theirs s.id }

abbrev pub entry_of_theirs : UserSecret → ConflictEntry
entry_of_theirs s = record { id = s.id; mine = none; theirs = some s }

unfoldable pub conflict_entries : List UserSecret → List UserSecret → List ConflictEntry
conflict_entries mine theirs =
    map (entry_of_mine (by_id [] theirs)) mine
    ++ map entry_of_theirs (filter (λ s. not (id_in mine s.id)) theirs)

abbrev same_contents : Option UserSecret → Option UserSecret → Bool
same_contents (some a) (some b) = a.name == b.name && a.value == b.value
same_contents _ _ = false

unfoldable pub is_identical : ConflictEntry → Bool
is_identical entry = same_contents entry.mine entry.theirs

unfoldable pub default_resolution : ConflictEntry → EntryResolution
default_resolution entry = if is_some entry.mine then take_mine else take_theirs

abbrev pub picked : EntryResolution → ConflictEntry → Option UserSecret
picked take_mine entry = entry.mine
picked take_theirs entry = entry.theirs
picked drop_entry entry = none

abbrev pub chosen : Dict String EntryResolution → ConflictEntry → EntryResolution
unfolding default_resolution
chosen choices entry = or_else (lookup choices entry.id) (default_resolution entry)

abbrev pub as_list {ℓ} : {A : Type ℓ} → Option A → List A
as_list none = []
as_list (some a) = a ∷ []

unfoldable pub merged_secrets : List ConflictEntry → Dict String EntryResolution → List UserSecret
unfolding chosen
merged_secrets [] choices = []
merged_secrets (entry ∷ entries) choices =
    as_list (picked (chosen choices entry) entry) ++ merged_secrets entries choices
