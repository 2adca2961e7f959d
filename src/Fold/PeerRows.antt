-- ===== src/Fold/PeerRows.antt =====
-- The event of a completed handshake, and what `applyPairingCompleted` of ownerPairing.ts writes on the
-- row of a peer that is no replica.
use reference_app.Fold.Context.{FoldContext, StoredChannelInfo}
use reference_app.Fold.Pairing.{first_or}
use reference_app.Prelude.{
  Bool, List, Option, String, [], any, false, find, if◌then◌else◌, nat_eq, none, some, string_eq,
  ◌&&◌, ◌==◌, ◌∷◌,
}
use reference_app.Roles.{SenderKind}
use reference_app.Roster.{or_if_blank, synthetic_peer_id}
use reference_app.Types.{PairedParticipant, PairingRole, Transport, https, paired}

pub record PairingEvent : Type 0 where
  pub channel_id : String
  pub pairing_channel_id : String
  pub kind : Option SenderKind
  pub peer_name : Option String

-- a test of a string that may be absent or empty
abbrev pub truthy : Option String → Option String
truthy none = none
truthy (some s) = if s == "" then none else some s

abbrev pub has_id : String → PairedParticipant → Bool
has_id id h = h.id == id

abbrev pub no_endpoint : Transport
no_endpoint = record { protocol = https; uri = "" }

abbrev pub is_placeholder : String → PairedParticipant → Bool
is_placeholder actor_id h = h.id == actor_id && h.channel_id == ""

abbrev pub has_placeholder : Option String → List PairedParticipant → Bool
has_placeholder none rows = false
has_placeholder (some actor_id) rows = any (is_placeholder actor_id) rows

abbrev pub fill_placeholder :
    Option String → String → PairingRole → PairedParticipant → PairedParticipant
fill_placeholder none channel_id peer_role h = h
fill_placeholder (some actor_id) channel_id peer_role h =
    if is_placeholder actor_id h
    then record h {
      channel_id = channel_id;
      connection_status = paired;
      peer_role = some peer_role;
    }
    else h

abbrev pub known_actor : Option String → List PairedParticipant → Option PairedParticipant
known_actor none rows = none
known_actor (some actor_id) rows = find (has_id actor_id) rows

abbrev pub endpoints_of : Option StoredChannelInfo → List Transport
endpoints_of none = []
endpoints_of (some info) = info.transports

-- what the handshake advertised, which is read for an unknown peer only
abbrev pub advertised_by : FoldContext → String → Option PairedParticipant → List Transport
advertised_by ctx channel_id none = endpoints_of (ctx.read_channel_info channel_id)
advertised_by ctx channel_id (some known) = []

abbrev pub unless_empty : List Transport → Option (List Transport)
unless_empty [] = none
unless_empty (t ∷ ts) = some (t ∷ ts)

abbrev pub name_of_known : Option PairedParticipant → String
name_of_known none = "Peer"
name_of_known (some known) = if known.name == "" then "Peer" else known.name

abbrev pub transport_of_known : Option PairedParticipant → List Transport → Transport
transport_of_known none advertised = first_or no_endpoint advertised
transport_of_known (some known) advertised = known.transport

abbrev pub managed_as : Option PairedParticipant → Option Bool
managed_as none = none
managed_as (some known) = known.browser_managed

unfoldable pub new_row :
    PairingEvent → PairingRole → Option PairedParticipant → List Transport → PairedParticipant
new_row e peer_role known advertised = record {
  id = synthetic_peer_id e.channel_id;
  name = or_if_blank e.peer_name (name_of_known known);
  channel_id = e.channel_id;
  transport = transport_of_known known advertised;
  transports = unless_empty advertised;
  secret_shares = [];
  connection_status = paired;
  peer_role = some peer_role;
  offline = none;
  discovery_complete = none;
  discovery_error = none;
  discovered_versions = none;
  shared_key = none;
  browser_managed = managed_as known;
}
