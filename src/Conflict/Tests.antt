-- ===== src/Conflict/Tests.antt =====
-- Examples of what is proved of conflicts.
use reference_app.Conflict.{conflict_entries, id_in, merged_secrets}
use reference_app.Conflict.Merge.{merged_secrets-conflict_entries}
use reference_app.Prelude.{List, [], filter, none, not, some, ◌++◌, ◌∷◌, ◌≡◌}
use reference_app.Samples.{sample_vault, secret_named}
use reference_app.Types.{
  ReplicaConflict, UserSecret, Vault, replica_sync_rejected, replica_version_conflict,
}

abbrev offered_copy : ReplicaConflict
offered_copy = record {
  version = 5;
  detected_via = replica_version_conflict;
  rival_replica_id = some "r";
  rival_secrets = some (secret_named "bank" ∷ []);
  detected_at = 40;
}

abbrev refused_sync : ReplicaConflict
refused_sync = record offered_copy { detected_via = replica_sync_rejected; rival_secrets = none }

abbrev diverged : Vault
diverged = record sample_vault { replica_conflict = some offered_copy }

abbrev own_copy : List UserSecret
own_copy = record { id = "01"; name = "mail"; value = "a" } ∷ []

abbrev rival_copy : List UserSecret
rival_copy =
    record { id = "01"; name = "mail"; value = "b" }
    ∷ record { id = "02"; name = "bank"; value = "c" }
    ∷ []

merged_secrets-conflict_entries_example :
    merged_secrets (conflict_entries own_copy rival_copy) []
    ≡ own_copy ++ filter (λ s. not (id_in own_copy s.id)) rival_copy
merged_secrets-conflict_entries_example = merged_secrets-conflict_entries own_copy rival_copy
