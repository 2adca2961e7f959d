-- ===== src/Replicas/Syncs.antt =====
-- Acknowledgements of a copy, and the pairings that wait for their channel.
use reference_app.Prelude.{
  Bool-cases, String, arith, eq_iff, inl, inr, insert, leb, lookup, lookup-delete, lookup-insert,
  nat_eq, none, option_eq, pair_eq, refl, some, string_eq, ℕ, ◌*◌, ◌+◌, ◌-◌, ◌<◌, ◌==◌, ◌↔◌, ◌≡◌,
  ◌≢◌, ◌≤◌,
}
use reference_app.Replicas.{
  ReplicaExpiry, ReplicaRecord, ReplicaState, ReplicaSyncRecord, ceil_secs, expired, expiring_soon,
  expiry_at, pending_replica, record_of, record_pending_replica_pairing, replica_channel_expiry,
  replica_expiry_warning_secs, resolve_replica_pairing, resolved,
}
use reference_app.Replicas.Channels.{merge_replica_sync, record_replica_sync}

-- An acknowledgement never takes a channel's version back, and leaves those of other channels.
pub record_replica_sync-version :
    (current : ReplicaState) (c : String) (sync : ReplicaSyncRecord) (d : String)
    (before : ReplicaSyncRecord)
    → lookup current.syncs d ≡ some before
    → (left : ReplicaSyncRecord) × (lookup (record_replica_sync c sync current).syncs d ≡ some left)
      × (before.version ≤ left.version)
      × ((c ≢ d) → left ≡ before)
      × ((c ≡ d) → sync.version ≤ left.version)
unfolding record_replica_sync merge_replica_sync
record_replica_sync-version current c sync d before h =
    let merged = merge_replica_sync (lookup current.syncs c) sync in
    elim (Bool-cases (c == d)) [
      | inl same ↦
          let e : c ≡ d = ground (arith, same, eq_iff c d) in
          (
            merged,
            ground (arith, same, lookup-insert current.syncs c merged d),
            ground (arith, e, h),
            λ apart. absurd (apart e),
            λ _. ground (arith, e, h),
          )
      | inr other ↦ (
        before,
        ground (arith, h, other, lookup-insert current.syncs c merged d),
        omega arith,
        λ _. refl,
        λ e. absurd (ground (arith, e, other, eq_iff c d)),
      )
    ]

-- Two acknowledgements leave the same records in either order, unless they give one channel the same
-- version with different times.
pub record_replica_sync_comm :
    (current : ReplicaState) (c d : String) (a b : ReplicaSyncRecord) (x : String)
    → (c ≡ d → a.version ≡ b.version → a ≡ b)
    → lookup (record_replica_sync c a (record_replica_sync d b current)).syncs x
      ≡ lookup (record_replica_sync d b (record_replica_sync c a current)).syncs x
unfolding record_replica_sync merge_replica_sync
record_replica_sync_comm current c d a b x tie =
    let a_first = merge_replica_sync (lookup current.syncs c) a in
    let b_first = merge_replica_sync (lookup current.syncs d) b in
    let with_b = insert current.syncs d b_first in
    let with_a = insert current.syncs c a_first in
    ground (
      arith,
      tie,
      lookup-insert with_b c (merge_replica_sync (lookup with_b c) a) x,
      lookup-insert with_a d (merge_replica_sync (lookup with_a d) b) x,
      lookup-insert current.syncs d b_first x,
      lookup-insert current.syncs d b_first c,
      lookup-insert current.syncs c a_first x,
      lookup-insert current.syncs c a_first d,
      eq_iff c d,
      eq_iff d c,
      eq_iff c x,
      eq_iff d x,
    )

-- A pairing that was recorded under its first channel resolves once: the replica, where it has an id,
-- gets the channel, the pairing waits no more, and resolving it again changes nothing.
pub resolve_replica_pairing-record_pending :
    (current : ReplicaState) (first_id replica_id channel_id : String)
    → replica_id ≢ ""
    → (pending : ReplicaState) × (left : ReplicaState) × (record_pending_replica_pairing first_id
          replica_id current
        ≡ some pending)
      × (resolve_replica_pairing first_id channel_id pending ≡ some left)
      × ((record_of left.replicas replica_id).channel_id ≡ some channel_id)
      × (lookup left.pending_pairings first_id ≡ none)
      × ((other : String) → resolve_replica_pairing first_id other left ≡ none)
unfolding record_pending_replica_pairing resolve_replica_pairing
resolve_replica_pairing-record_pending current first_id replica_id channel_id named =
    let waits = insert current.pending_pairings first_id replica_id in
    let pending : ReplicaState = record current { pending_pairings = waits } in
    let left = resolved first_id channel_id replica_id pending in
    let new : ReplicaRecord = record (record_of current.replicas replica_id) {
      channel_id = some channel_id;
    } in
    let there : lookup waits first_id ≡ some replica_id = ground (
      arith,
      lookup-insert current.pending_pairings first_id replica_id first_id,
      eq_iff first_id first_id,
    ) in
    let gone : lookup left.pending_pairings first_id ≡ none =
      ground (arith, lookup-delete waits first_id first_id, eq_iff first_id first_id) in
    (
      pending,
      left,
      refl,
      ground (arith, there, named, eq_iff replica_id ""),
      ground (
        arith,
        lookup-insert current.replicas replica_id new replica_id,
        eq_iff replica_id replica_id,
      ),
      gone,
      λ other. ground (arith, gone),
    )

expiry_at-bounds :
    (expires now : ℕ)
    → ((expiry_at expires now).expires_at ≡ expires)
      × (((expiry_at expires now).state ≡ expired) ↔ ((expiry_at expires now).expires_at ≤ now))
      × (now < (expiry_at expires now).expires_at
          → ((expiry_at expires now).expires_at
              ≤ now + (expiry_at expires now).remaining_secs * 1000)
            × (now + (expiry_at expires now).remaining_secs * 1000
                < (expiry_at expires now).expires_at + 1000))
      × (((expiry_at expires now).state ≡ expiring_soon) ↔ (
          (now < (expiry_at expires now).expires_at)
          × ((expiry_at expires now).remaining_secs ≤ 60)))
expiry_at-bounds expires now = elim (Bool-cases (leb expires now)) [
  | inl over ↦ rw over (ground (arith, over))
  | inr open_still ↦
      rw open_still
        (elim (Bool-cases (leb (ceil_secs (expires - now)) replica_expiry_warning_secs)) [
          | inl soon ↦ rw soon (ground (arith, open_still, soon))
          | inr later ↦ rw later (ground (arith, open_still, later))
        ])
]

-- A pairing that waits for its confirmation expires exactly when its time is up; until then the whole
-- seconds that are left cover the rest of it, by less than a second too much, and the warning shows
-- for the last 60.
pub replica_channel_expiry-bounds :
    (established timeout now : ℕ) (e : ReplicaExpiry)
    → replica_channel_expiry pending_replica (some established) (some timeout) now ≡ some e
    → (e.expires_at ≡ established + timeout * 1000)
      × ((e.state ≡ expired) ↔ (e.expires_at ≤ now))
      × (now < e.expires_at
          → (e.expires_at ≤ now + e.remaining_secs * 1000)
            × (now + e.remaining_secs * 1000 < e.expires_at + 1000))
      × ((e.state ≡ expiring_soon) ↔ ((now < e.expires_at) × (e.remaining_secs ≤ 60)))
unfolding replica_channel_expiry
replica_channel_expiry-bounds established timeout now e h =
    let expires = established + timeout * 1000 in
    let same : expiry_at expires now ≡ e = ground (arith, h) in
    rw (← same) (expiry_at-bounds expires now)
