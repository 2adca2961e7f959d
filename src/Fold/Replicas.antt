-- ===== src/Fold/Replicas.antt =====
-- The rows that a completed handshake and a teardown leave.
use reference_app.Fold.Context.{
  FoldContext, FoldState, change_channel, log, on_channel, row_on, ◌▹◌,
}
use reference_app.Fold.Pairing.{without_channel}
use reference_app.Fold.PairingCompleted.{
  actor_of_pending, apply_pairing_completed, marked_paired, pairing_completed, peer_paired,
  recorded_under, replica_paired, replica_peer_row, replica_rows, with_key, without_pending,
}
use reference_app.Fold.PeerRows.{PairingEvent, has_placeholder, truthy}
use reference_app.Prelude.{
  All, Bool-cases, List, Option, String, [], any, any-filter_none, arith, eq_iff, false, find,
  find-filter-none, find-filter_kept, includes, inl, inr, length, length-map, nat_eq, none, refl,
  some, string_eq, true, ◌++◌, ◌==◌, ◌∙◌, ◌∷◌, ◌≡◌, ◌≢◌,
}
use reference_app.Roles.{is_replica_role, is_replica_sender_kind, peer_role_from_kind}
use reference_app.Roles.Inverse.{is_replica_role-peer_role_from_kind}
use reference_app.Roster.{is_share_target}
use reference_app.Types.{PairedParticipant, PairingRole, PendingPairing, Vault}

abbrev pub OnNoTarget : String → PairedParticipant → Type 0
OnNoTarget channel_id p = p.channel_id ≡ channel_id → is_share_target p ≡ false

marked-NoTarget :
    (channel_id : String) (role : PairingRole) (p : PairedParticipant)
    → is_replica_role role ≡ true
    → is_share_target (marked_paired role p) ≡ false
unfolding is_share_target
marked-NoTarget channel_id role p h = ground arith

change_channel-NoTarget :
    (channel_id : String) (role : PairingRole) (rows : List PairedParticipant)
    → is_replica_role role ≡ true
    → All (OnNoTarget channel_id) (change_channel channel_id (marked_paired role) rows)
change_channel-NoTarget channel_id role [] h = tt
change_channel-NoTarget channel_id role (p ∷ rows) h = (
  λ e. ground (arith, marked-NoTarget channel_id role p h, eq_iff p.channel_id channel_id),
  change_channel-NoTarget channel_id role rows h,
)

replica_peer_row-NoTarget :
    (channel_id name : String) (role : PairingRole)
    → is_replica_role role ≡ true
    → is_share_target (replica_peer_row channel_id name role) ≡ false
replica_peer_row-NoTarget channel_id name role h =
    marked-NoTarget channel_id role (replica_peer_row channel_id name role) h

new_row-NoTarget :
    (channel_id name : String) (role : PairingRole) (rows : List PairedParticipant)
    → any (on_channel channel_id) rows ≡ false
    → is_replica_role role ≡ true
    → All (OnNoTarget channel_id) (rows ++ replica_peer_row channel_id name role ∷ [])
new_row-NoTarget channel_id name role [] a h =
    (λ e. replica_peer_row-NoTarget channel_id name role h, tt)
new_row-NoTarget channel_id name role (p ∷ rows) a h = (
  λ e. ground (arith, eq_iff p.channel_id channel_id),
  new_row-NoTarget channel_id name role rows (ground arith) h,
)

replica_rows-NoTarget :
    (channel_id name : String) (role : PairingRole) (rows : List PairedParticipant)
    → is_replica_role role ≡ true
    → All (OnNoTarget channel_id) (replica_rows channel_id name role rows)
unfolding replica_rows
replica_rows-NoTarget channel_id name role rows h =
    elim (Bool-cases (any (on_channel channel_id) rows)) [
      | inl there ↦ rw there (change_channel-NoTarget channel_id role rows h)
      | inr absent ↦ rw absent (new_row-NoTarget channel_id name role rows absent h)
    ]

vault-pairing_completed :
    (ctx : FoldContext) (v : Vault) (e : PairingEvent) (st : FoldState)
    → (pairing_completed ctx v e st).0 ≡ (apply_pairing_completed ctx v e st).0
unfolding pairing_completed apply_pairing_completed
vault-pairing_completed ctx v e st = elim (Bool-cases (e.channel_id == "")) [
  | inl blank ↦ rw blank refl
  | inr there ↦ rw there refl
]

-- After a replica handshake on a channel whose id is not empty, no row on that channel is a share
-- target, whatever rows there were.
pub pairing_completed-replica :
    (ctx : FoldContext) (v : Vault) (e : PairingEvent) (st : FoldState)
    → e.channel_id ≢ ""
    → is_replica_sender_kind e.kind ≡ true
    → All (OnNoTarget e.channel_id) (pairing_completed ctx v e st).0.participants
unfolding apply_pairing_completed replica_paired
pairing_completed-replica ctx v e st n h =
    rw (vault-pairing_completed ctx v e st) (elim (Bool-cases (e.channel_id == "")) [
      | inl blank ↦ absurd (ground (arith, eq_iff e.channel_id ""))
      | inr there ↦
          rw (there, h)
            (replica_rows-NoTarget e.channel_id _ (peer_role_from_kind e.kind) v.participants
              (is_replica_role-peer_role_from_kind e.kind ∙ h))
    ])

length-replica_rows :
    (channel_id name : String) (role : PairingRole) (rows : List PairedParticipant)
    → any (on_channel channel_id) rows ≡ true
    → length (replica_rows channel_id name role rows) ≡ length rows
unfolding replica_rows
length-replica_rows channel_id name role rows h = rw h (length-map _ rows)

length-peer_paired :
    (ctx : FoldContext) (v : Vault) (e : PairingEvent) (found : Option PendingPairing)
    (st : FoldState)
    → any (on_channel e.channel_id) v.participants ≡ true
    → length (peer_paired ctx v e found st).0.participants ≡ length v.participants
unfolding peer_paired
length-peer_paired ctx v e found st h =
    elim (Bool-cases (has_placeholder (actor_of_pending found) v.participants)) [
      | inl there ↦ rw there (length-map _ v.participants)
      | inr other ↦ rw (other, h) (length-map _ v.participants)
    ]

length-with_key :
    (key : Option String) (channel_id : String) (v : Vault)
    → length (with_key key channel_id v).participants ≡ length v.participants
length-with_key none channel_id v = refl
length-with_key (some key) channel_id v = length-map _ v.participants

-- A handshake on a channel that has a row already, as when its event is delivered again, adds no
-- row.
pub pairing_completed_again :
    (ctx : FoldContext) (v : Vault) (e : PairingEvent) (st : FoldState)
    → any (on_channel e.channel_id) v.participants ≡ true
    → length (pairing_completed ctx v e st).0.participants ≡ length v.participants
unfolding apply_pairing_completed replica_paired
pairing_completed_again ctx v e st h =
    rw (vault-pairing_completed ctx v e st) (elim (Bool-cases (e.channel_id == "")) [
      | inl blank ↦ rw blank refl
      | inr there ↦ elim (Bool-cases (is_replica_sender_kind e.kind)) [
        | inl replica ↦ rw (there, replica) (length-replica_rows e.channel_id _ _ v.participants h)
        | inr peer ↦
            rw (there, peer)
              (length-with_key (truthy (ctx.read_shared_key e.channel_id)) e.channel_id _
                ∙ length-peer_paired ctx
                    (record v {
                      pending_pairings = without_pending e.pairing_channel_id v.pending_pairings;
                    })
                    e (find (recorded_under e.pairing_channel_id) v.pending_pairings)
                    (st ▹ log "pairing" "PairingCompleted") h)
      ]
    ])

-- No trace of a channel is left by its teardown: no row, no held share, no pending pairing, no main
-- channel.
pub without_channel-traces :
    (v : Vault) (channel_id : String)
    → (row_on (without_channel v channel_id) channel_id ≡ none)
      × (any (λ s. s.channel_id == channel_id) (without_channel v channel_id).held_shares ≡ false)
      × (any (λ p. p.channel_id == channel_id) (without_channel v channel_id).pending_pairings
          ≡ false)
      × (includes (without_channel v channel_id).main_channels channel_id ≡ false)
unfolding without_channel
without_channel-traces v channel_id = (
  find-filter-none _ (on_channel channel_id) v.participants (λ p h. ground arith),
  any-filter_none _ _ v.held_shares (λ s h. ground arith),
  any-filter_none _ _ v.pending_pairings (λ p h. ground arith),
  any-filter_none _ _ v.main_channels (λ c h. ground arith),
)

-- A teardown leaves every other channel's row as it was.
pub row_on-without_channel :
    (v : Vault) (channel_id other : String)
    → channel_id ≢ other
    → row_on (without_channel v channel_id) other ≡ row_on v other
unfolding without_channel
row_on-without_channel v channel_id other d =
    find-filter_kept _ (on_channel other) v.participants
      (λ p h. ground (arith, eq_iff p.channel_id other, eq_iff p.channel_id channel_id))
