-- ===== src/Roles/Inverse.antt =====
-- The two sides of a channel.
use reference_app.Prelude.{Option, none, refl, some, true, ◌≡◌}
use reference_app.Roles.{
  SenderKind, complement_role, helper_kind, is_replica_role, is_replica_sender_kind,
  local_replica_role_for_peer_sender_kind, other_kind, owner_kind, peer_role_from_kind,
  replica_destination_kind, replica_source_kind, sender_kind_for,
}
use reference_app.Types.{PairingRole, helper, owner, replica_destination, replica_source}

-- A completed pairing that this device declared as `r` is recorded with the complement of `r` as
-- the peer's role, for each of the four roles; and it counts as a replica pairing exactly when `r`
-- is a replica role.
pub peer_role_from_kind-sender_kind_for :
    (r : PairingRole)
    → (peer_role_from_kind (some (sender_kind_for r)) ≡ complement_role r)
      × (is_replica_sender_kind (some (sender_kind_for r)) ≡ is_replica_role r)
unfolding peer_role_from_kind sender_kind_for is_replica_role is_replica_sender_kind
peer_role_from_kind-sender_kind_for owner = (refl, refl)
peer_role_from_kind-sender_kind_for helper = (refl, refl)
peer_role_from_kind-sender_kind_for replica_source = (refl, refl)
peer_role_from_kind-sender_kind_for replica_destination = (refl, refl)

-- Whatever kind a completed pairing reports, the peer's role is a replica role exactly when the
-- kind is a replica kind.
pub is_replica_role-peer_role_from_kind :
    (kind : Option SenderKind)
    → is_replica_role (peer_role_from_kind kind) ≡ is_replica_sender_kind kind
unfolding peer_role_from_kind is_replica_role is_replica_sender_kind
is_replica_role-peer_role_from_kind none = refl
is_replica_role-peer_role_from_kind (some owner_kind) = refl
is_replica_role-peer_role_from_kind (some helper_kind) = refl
is_replica_role-peer_role_from_kind (some replica_source_kind) = refl
is_replica_role-peer_role_from_kind (some replica_destination_kind) = refl
is_replica_role-peer_role_from_kind (some (other_kind n)) = refl

-- The roles that the two sides of one handshake settle on are complements: the side that answers a
-- request declared as `r` takes the replica role that the initiator records for it.
pub local_replica_role-peer_role :
    (kind : SenderKind)
    → is_replica_sender_kind (some kind) ≡ true
    → local_replica_role_for_peer_sender_kind (some kind) ≡ some (peer_role_from_kind (some kind))
unfolding peer_role_from_kind is_replica_role is_replica_sender_kind
    local_replica_role_for_peer_sender_kind
local_replica_role-peer_role owner_kind h = cc
local_replica_role-peer_role helper_kind h = cc
local_replica_role-peer_role replica_source_kind h = refl
local_replica_role-peer_role replica_destination_kind h = refl
local_replica_role-peer_role (other_kind n) h = cc
