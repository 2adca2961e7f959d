-- ===== src/Replicas/Pruning.antt =====
-- What is left of the replica records when channels are forgotten.
use reference_app.Prelude.{
  All, Bool, Bool-cases, Dict, List, String, [], arith, delete, eq_iff, false, filter,
  if◌then◌else◌, includes, inl, inr, lookup, lookup-delete, nat_eq, none, not, option_eq, pair_eq,
  refl, some, string_eq, ◌==◌, ◌∙◌, ◌∷◌, ◌≡◌, ◌≢◌,
}
use reference_app.Replicas.{ReplicaRecord, ReplicaState}
use reference_app.Replicas.Channels.{
  delete_all, forget_replica_channel, keeps_record, names_doomed, prune_channels,
  replica_channel_row_id,
}

module _ {V : Type 0} where
  lookup-delete_all :
      (m : Dict String V) (ks : List String) (j : String)
      → lookup (delete_all m ks) j ≡ (if includes ks j then none else lookup m j)
  unfolding delete_all
  lookup-delete_all m [] j = refl
  lookup-delete_all m (k ∷ ks) j =
      ground (arith, lookup-delete_all (delete m k) ks j, lookup-delete m k j)

  lookup-filter_keys :
      (p : String → Bool) (m : Dict String V) (j : String)
      → lookup (filter (λ entry. p entry.0) m) j ≡ (if p j then lookup m j else none)
  unfolding lookup
  lookup-filter_keys p [] j = ground arith
  lookup-filter_keys p ((k, v) ∷ m) j = ground (arith, lookup-filter_keys p m j, eq_iff k j)

All-kept :
    (doomed : List String) (m : Dict String ReplicaRecord)
    → All (λ entry. names_doomed doomed entry.1.channel_id ≡ false) (filter (keeps_record doomed) m)
All-kept doomed [] = tt
All-kept doomed (entry ∷ m) = ground (arith, All-kept doomed m)

-- Forgetting channels takes away their records, their acknowledgements, the pairings that wait under
-- their ids, and every confirmation that names one of them; the records, acknowledgements and waiting
-- pairings of other channels are as they were.
pub prune_channels-lookup :
    (current : ReplicaState) (doomed : List String) (c : String)
    → (lookup (prune_channels current doomed).channels c
        ≡ (if includes doomed c then none else lookup current.channels c))
      × (lookup (prune_channels current doomed).syncs c
          ≡ (if includes doomed c then none else lookup current.syncs c))
      × (lookup (prune_channels current doomed).pending_pairings c
          ≡ (if includes doomed c then none else lookup current.pending_pairings c))
      × All
          (λ entry. names_doomed doomed entry.1.channel_id ≡ false)
          (prune_channels current doomed).replicas
unfolding prune_channels
prune_channels-lookup current doomed c = (
  lookup-delete_all current.channels doomed c,
  lookup-delete_all current.syncs doomed c,
  lookup-filter_keys (λ k. not (includes doomed k)) current.pending_pairings c ∙ ground arith,
  All-kept doomed current.replicas,
)

lookup-kept :
    (doomed : List String) (m : Dict String ReplicaRecord) (id : String) (r : ReplicaRecord)
    → lookup m id ≡ some r
    → r.channel_id ≡ none
    → includes doomed (replica_channel_row_id id) ≡ false
    → lookup (filter (keeps_record doomed) m) id ≡ some r
unfolding lookup
lookup-kept doomed [] id r h nameless free = absurd (cc)
lookup-kept doomed ((k, x) ∷ m) id r h nameless free = elim (Bool-cases (k == id)) [
  | inl same ↦
      let e : k ≡ id = ground (arith, same, eq_iff k id) in
      let e' : x ≡ r = ground (arith, h, same) in
      rw (e, e', nameless) (ground (arith, free, eq_iff id id))
  | inr other ↦ ground (arith, h, other, lookup-kept doomed m id r, nameless, free)
]

-- Forgetting a channel keeps a confirmation under the channel's own row id, where it names no channel
-- and no channel to forget has the row id of that row id: the code asks whether the row id of the
-- confirmation's key is forgotten, not whether the key is the row id of a forgotten channel.
pub forget_replica_channel-confirmation :
    (current : ReplicaState) (c : String) (r : ReplicaRecord) (left : ReplicaState)
    → lookup current.replicas (replica_channel_row_id c) ≡ some r
    → r.channel_id ≡ none
    → c ≢ replica_channel_row_id (replica_channel_row_id c)
    → forget_replica_channel c current ≡ some left
    → lookup left.replicas (replica_channel_row_id c) ≡ some r
unfolding forget_replica_channel prune_channels
forget_replica_channel-confirmation current c r left h nameless apart e =
    let same : prune_channels current (c ∷ []) ≡ left = ground (arith, e) in
    rw (← same) (
      lookup-kept (c ∷ []) current.replicas (replica_channel_row_id c) r h nameless
        (ground (arith, apart, eq_iff c (replica_channel_row_id (replica_channel_row_id c)))))
