-- ===== src/Roles.antt =====
-- pairingRoles.ts and the labels of pairingRoleOptions.ts. `SenderKind` is the SDK's: the members
-- that the source names, and `other_kind` for whatever else the wire may carry.
pub mod Inverse
use reference_app.Prelude.{
  Bool, List, Option, String, [], false, filter, find, if◌then◌else◌, is_some, nat_eq, none,
  option_eq, pair_eq, some, string_eq, true, ℕ, ◌==◌, ◌∷◌,
}
use reference_app.Types.{PairingRole, helper, owner, replica_destination, replica_source}

pub data SenderKind : Type 0 where
  owner_kind helper_kind replica_source_kind replica_destination_kind : SenderKind
  other_kind : ℕ → SenderKind

unfoldable pub sender_kind_for : PairingRole → SenderKind
sender_kind_for owner = owner_kind
sender_kind_for helper = helper_kind
sender_kind_for replica_source = replica_source_kind
sender_kind_for replica_destination = replica_destination_kind

unfoldable pub complement_role : PairingRole → PairingRole
complement_role owner = helper
complement_role helper = owner
complement_role replica_source = replica_destination
complement_role replica_destination = replica_source

unfoldable pub is_replica_role : PairingRole → Bool
is_replica_role replica_source = true
is_replica_role replica_destination = true
is_replica_role _ = false

abbrev all_roles : List PairingRole
all_roles = owner ∷ helper ∷ replica_source ∷ replica_destination ∷ []

abbrev same_kind : SenderKind → SenderKind → Bool
same_kind owner_kind owner_kind = true
same_kind helper_kind helper_kind = true
same_kind replica_source_kind replica_source_kind = true
same_kind replica_destination_kind replica_destination_kind = true
same_kind (other_kind a) (other_kind b) = a == b
same_kind _ _ = false

unfoldable pub replica_role_for_sender_kind : Option SenderKind → Option PairingRole
unfolding is_replica_role sender_kind_for
replica_role_for_sender_kind none = none
replica_role_for_sender_kind (some kind) =
    find (λ role. same_kind (sender_kind_for role) kind) (filter is_replica_role all_roles)

abbrev pub narrowed : PairingRole → Option PairingRole
narrowed role = if is_replica_role role then some role else none

abbrev pub local_of : Option PairingRole → Option PairingRole
local_of none = none
local_of (some peer) = narrowed (complement_role peer)

unfoldable pub local_replica_role_for_peer_sender_kind : Option SenderKind → Option PairingRole
unfolding replica_role_for_sender_kind complement_role
local_replica_role_for_peer_sender_kind kind = local_of (replica_role_for_sender_kind kind)

unfoldable pub is_replica_sender_kind : Option SenderKind → Bool
unfolding replica_role_for_sender_kind
is_replica_sender_kind kind = is_some (replica_role_for_sender_kind kind)

unfoldable pub pairing_role_label : PairingRole → String
pairing_role_label owner = "Owner"
pairing_role_label helper = "Helper"
pairing_role_label replica_source = "Replica source"
pairing_role_label replica_destination = "Replica destination"

abbrev pub is_helper_kind : Option SenderKind → Bool
is_helper_kind (some helper_kind) = true
is_helper_kind _ = false

abbrev pub peer_role_of : Option PairingRole → Option SenderKind → PairingRole
peer_role_of (some local_role) kind = complement_role local_role
peer_role_of none kind = if is_helper_kind kind then owner else helper

-- `peerRoleFromKind` of ownerPairing.ts
unfoldable pub peer_role_from_kind : Option SenderKind → PairingRole
unfolding replica_role_for_sender_kind complement_role
peer_role_from_kind kind = peer_role_of (replica_role_for_sender_kind kind) kind
