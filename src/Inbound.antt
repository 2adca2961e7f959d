-- ===== src/Inbound.antt =====
-- vault/inbound.ts and inboundPairing.ts: an inbound request is put to the owner, or accepted at
-- once. What accepting does to the record is an operation of `InboundContext`, as in the source; an
-- opaque action token is a `String`.
pub mod Routing
mod Tests
use reference_app.Fold.Context.{row_on}
use reference_app.Prelude.{
  Bool, List, Option, String, [], false, if◌then◌else◌, is_some, none, or_else, some, true, ℕ, ◌∷◌,
}
use reference_app.Roles.{
  SenderKind, local_replica_role_for_peer_sender_kind, replica_role_for_sender_kind,
}
use reference_app.Roster.{or_if_blank}
use reference_app.Types.{PairedParticipant, PairingRole, Vault, VaultConfig}

-- `PendingActionKind` of the SDK
pub data ActionKind : Type 0 where
  pairing_kind store_share_kind verify_share_kind unpair_kind : ActionKind
  pre_pair_kind discovery_kind get_share_kind update_channel_info_kind : ActionKind
  unknown_kind : String → ActionKind

pub record ActionRequired : Type 0 where
  pub channel_id : String
  pub action_kind : ActionKind
  pub action : String
  pub peer_name : Option String
  pub sender_kind : Option SenderKind
  pub share_secret_id : Option String
  pub share_description : Option String
  pub version : Option ℕ

pub record InboundPairingRequest : Type 0 where
  pub peer_name : String
  pub channel_id : String
  pub action : String

pub record ReplicaPairingSides : Type 0 where
  pub peer_role : PairingRole
  pub local_role : PairingRole

pub record PendingPairingConfirmation : Type 0 where
  pub request : InboundPairingRequest
  pub replica : Option ReplicaPairingSides

abbrev pub sides : Option PairingRole → Option PairingRole → Option ReplicaPairingSides
sides (some peer_role) (some local_role) =
    some (record { peer_role = peer_role; local_role = local_role })
sides _ _ = none

unfoldable pub classify_inbound_pairing :
    InboundPairingRequest → Option SenderKind → PendingPairingConfirmation
unfolding replica_role_for_sender_kind local_replica_role_for_peer_sender_kind
classify_inbound_pairing request sender_kind = record {
  request = request;
  replica =
      sides (replica_role_for_sender_kind sender_kind)
        (local_replica_role_for_peer_sender_kind sender_kind);
}

pub record StoreShareRequest : Type 0 where
  pub peer_name : String
  pub channel_id : String
  pub secret_id : String
  pub version : ℕ
  pub description : String
  pub action : String

pub record VerifyShareRequest : Type 0 where
  pub peer_name : String
  pub channel_id : String
  pub version : ℕ
  pub secret_id : String
  pub action : String

pub record UnpairRequest : Type 0 where
  pub peer_name : String
  pub channel_id : String
  pub action : String

-- the kind of an attention is told by its payload
pub data AttentionPayload : Type 0 where
  for_pairing : PendingPairingConfirmation → AttentionPayload
  for_store_share : StoreShareRequest → AttentionPayload
  for_verify_share : VerifyShareRequest → AttentionPayload
  for_unpair : UnpairRequest → AttentionPayload

pub record Attention : Type 0 where
  pub blocks_drain : Bool
  pub payload : AttentionPayload

pub record InboundContext : Type 0 where
  pub config : VaultConfig
  pub accept_and_fold : String → Vault → Vault
  pub accept_store_share : StoreShareRequest → Vault → Vault

-- the outcome, with what was raised and logged on the way
pub record InboundOutcome : Type 0 where
  pub vault : Vault
  pub hold_back : Bool
  pub raised : List Attention
  pub logged : List (String × String)

abbrev name_of_row : Option PairedParticipant → Option String
name_of_row none = none
name_of_row (some p) = some p.name

unfoldable pub peer_name_on : Vault → String → String
peer_name_on current channel_id =
    or_if_blank (name_of_row (row_on current channel_id)) "Unknown peer"

abbrev pub held : Vault → AttentionPayload → List (String × String) → InboundOutcome
held current payload logged = record {
  vault = current;
  hold_back = true;
  raised = record { blocks_drain = true; payload = payload } ∷ [];
  logged = logged;
}

abbrev pub accepted : Vault → List (String × String) → InboundOutcome
accepted next logged = record { vault = next; hold_back = false; raised = []; logged = logged }

unfoldable pub accept_automatically : ActionRequired → Vault → InboundContext → InboundOutcome
accept_automatically event current ctx = accepted (ctx.accept_and_fold event.action current) []

unfoldable pub route_pairing : ActionRequired → Vault → InboundContext → InboundOutcome
unfolding classify_inbound_pairing
route_pairing event current ctx =
    let confirmation =
      classify_inbound_pairing
        (record {
          peer_name = or_if_blank event.peer_name "Unknown peer";
          channel_id = event.channel_id;
          action = event.action;
        })
        event.sender_kind in
    held current (for_pairing confirmation) (
      (
        "pairing",
        if is_some confirmation.replica
            then "replica_pairing_confirmation_pending"
            else "pairing_confirmation_pending",
      )
      ∷ [])

unfoldable pub route_store_share : ActionRequired → Vault → InboundContext → InboundOutcome
unfolding peer_name_on
route_store_share event current ctx =
    let request : StoreShareRequest = record {
      peer_name = peer_name_on current event.channel_id;
      channel_id = event.channel_id;
      secret_id = or_else event.share_secret_id "0";
      version = or_else event.version 0;
      description = or_else event.share_description "";
      action = event.action;
    } in
    if ctx.config.auto_accept_store_share_requests
    then accepted (ctx.accept_store_share request current)
        (("sharing", "store_share_auto_accepted") ∷ [])
    else held current (for_store_share request)
        (("sharing", "store_share_confirmation_pending") ∷ [])

unfoldable pub route_verify_share : ActionRequired → Vault → InboundContext → InboundOutcome
unfolding peer_name_on
route_verify_share event current ctx =
    let request : VerifyShareRequest = record {
      peer_name = peer_name_on current event.channel_id;
      channel_id = event.channel_id;
      version = or_else event.version 0;
      secret_id = or_else event.share_secret_id "0";
      action = event.action;
    } in
    if ctx.config.auto_accept_verify_share_requests
    then accepted (ctx.accept_and_fold event.action current)
        (("verification", "verify_share_auto_accepted") ∷ [])
    else held current (for_verify_share request)
        (("verification", "verify_share_confirmation_pending") ∷ [])

unfoldable pub route_unpair : ActionRequired → Vault → InboundContext → InboundOutcome
unfolding peer_name_on
route_unpair event current ctx =
    if ctx.config.auto_accept_unpair_requests
    then accepted (ctx.accept_and_fold event.action current)
        (("unpairing", "unpair_action_required") ∷ [])
    else held current
        (for_unpair (record {
          peer_name = peer_name_on current event.channel_id;
          channel_id = event.channel_id;
          action = event.action;
        }))
        (("unpairing", "unpair_action_required")
          ∷ ("unpairing", "unpair_confirmation_pending")
          ∷ [])

-- the table `INBOUND`, with what an unknown kind falls back on
abbrev pub handler_of : ActionKind → ActionRequired → Vault → InboundContext → InboundOutcome
handler_of pairing_kind = route_pairing
handler_of store_share_kind = route_store_share
handler_of verify_share_kind = route_verify_share
handler_of unpair_kind = route_unpair
handler_of _ = accept_automatically

unfoldable pub route_action_required : ActionRequired → Vault → InboundContext → InboundOutcome
route_action_required event current ctx = handler_of event.action_kind event current ctx
