-- ===== src/Fold/PairingCompleted.antt =====
-- `applyPairingCompleted` of ownerPairing.ts and its handler in vault/fold/pairing.ts: the row that a
-- completed handshake writes. The event is its long-term channel, the transient one that the contact
-- travelled under, the local party's kind, and the name that the peer sent. The roster lookup that
-- the source starts and forgets is the effect `look_up_actor`; what its answer commits later is
-- `actor_looked_up`.
use reference_app.Fold.Context.{
  FoldContext, FoldState, change_channel, change_row, log, look_up_actor, notify_outcome,
  on_channel, open_fingerprint, paired_with, record_replica_channel, refresh_replicas,
  resolve_replica_pairing, ◌▹◌,
}
use reference_app.Fold.PeerRows.{
  PairingEvent, advertised_by, fill_placeholder, has_placeholder, known_actor, new_row, no_endpoint,
  truthy,
}
use reference_app.Prelude.{
  Bool, List, Option, String, [], any, false, find, if◌then◌else◌, map, nat_eq, none, some,
  string_eq, trim, ◌&&◌, ◌++◌, ◌==◌, ◌∷◌,
}
use reference_app.Roles.{
  is_replica_sender_kind, pairing_role_label, peer_role_from_kind, replica_role_for_sender_kind,
}
use reference_app.Roster.{
  PeerActorCandidate, identify_row, is_paired, or_if_blank, resolve_peer_actor, synthetic_peer_id,
}
use reference_app.Types.{PairedParticipant, PairingRole, PendingPairing, Transport, Vault, paired}

abbrev pub recorded_under : String → PendingPairing → Bool
recorded_under channel_id p = p.channel_id == channel_id

-- `filter(p => p !== pending)`, for the first pairing that is recorded under the channel
unfoldable pub without_pending : String → List PendingPairing → List PendingPairing
without_pending channel_id [] = []
without_pending channel_id (p ∷ ps) =
    if recorded_under channel_id p then ps else p ∷ without_pending channel_id ps

abbrev pub marked_paired : PairingRole → PairedParticipant → PairedParticipant
marked_paired peer_role h = record h { connection_status = paired; peer_role = some peer_role }

abbrev pub replica_peer_row : String → String → PairingRole → PairedParticipant
replica_peer_row channel_id name peer_role = record {
  id = synthetic_peer_id channel_id;
  name = name;
  channel_id = channel_id;
  transport = no_endpoint;
  transports = none;
  secret_shares = [];
  connection_status = paired;
  peer_role = some peer_role;
  offline = none;
  discovery_complete = none;
  discovery_error = none;
  discovered_versions = none;
  shared_key = none;
  browser_managed = none;
}

-- the rows after a replica handshake
unfoldable pub replica_rows :
    String → String → PairingRole → List PairedParticipant → List PairedParticipant
replica_rows channel_id name peer_role rows =
    if any (on_channel channel_id) rows
    then change_channel channel_id (marked_paired peer_role) rows
    else rows ++ replica_peer_row channel_id name peer_role ∷ []

abbrev trimmed : Option String → Option String
trimmed none = none
trimmed (some s) = some (trim s)

abbrev record_local_role : FoldContext → PairingEvent → Option PairingRole → FoldState → FoldState
record_local_role ctx e none st = st
record_local_role ctx e (some role) st =
    st ▹ record_replica_channel e.channel_id role e.peer_name ctx.now

-- the branch of a replica handshake
unfoldable pub replica_paired : FoldContext → Vault → PairingEvent → FoldState → Vault × FoldState
unfolding replica_rows peer_role_from_kind replica_role_for_sender_kind pairing_role_label
replica_paired ctx current e st =
    let peer_role = peer_role_from_kind e.kind in
    let name = or_if_blank (trimmed e.peer_name) (pairing_role_label peer_role) in
    let st =
      record_local_role ctx e (replica_role_for_sender_kind e.kind)
        (st ▹ resolve_replica_pairing e.pairing_channel_id e.channel_id) in
    (
      record current {
        participants = replica_rows e.channel_id name peer_role current.participants;
      },
      st
          ▹ log "pairing" "replica_pairing_completed"
          ▹ refresh_replicas
          ▹ open_fingerprint e.channel_id,
    )

-- a row that was made before its pairing, with no channel yet

abbrev uri_of_pending : Option PendingPairing → List String
uri_of_pending none = []
uri_of_pending (some p) = elim (truthy p.peer_transport_uri) [ none ↦ [] | some uri ↦ uri ∷ [] ]

abbrev pub actor_of_pending : Option PendingPairing → Option String
actor_of_pending none = none
actor_of_pending (some p) = truthy p.participant_id

abbrev pub ask_for : PairingEvent → List String → FoldState → FoldState
ask_for e [] st = st
ask_for e (uri ∷ uris) st =
    st ▹ look_up_actor (synthetic_peer_id e.channel_id) (uri ∷ uris) (trimmed e.peer_name)

-- the lookup that an unknown peer with an endpoint starts
unfoldable pub start_lookup :
    PairingEvent → Option String → Option PendingPairing → List Transport → FoldState → FoldState
start_lookup e (some actor_id) found advertised st = st
start_lookup e none found advertised st =
    ask_for e (uri_of_pending found ++ map (λ t. t.uri) advertised) st

-- the branch of any other handshake
unfoldable pub peer_paired :
    FoldContext → Vault → PairingEvent → Option PendingPairing → FoldState → Vault × FoldState
unfolding peer_role_from_kind new_row start_lookup
peer_paired ctx current e found st =
    let rows = current.participants in
    let actor_id = actor_of_pending found in
    let peer_role = peer_role_from_kind e.kind in
    if has_placeholder actor_id rows
    then (
      record current { participants = map (fill_placeholder actor_id e.channel_id peer_role) rows },
      st,
    )
    else if any (on_channel e.channel_id) rows
    then (
      record current { participants = change_channel e.channel_id (marked_paired peer_role) rows },
      st,
    )
    else let known = known_actor actor_id rows in
      let advertised = advertised_by ctx e.channel_id known in
      (
        record current { participants = rows ++ new_row e peer_role known advertised ∷ [] },
        start_lookup e actor_id found advertised st,
      )

abbrev pub with_key : Option String → String → Vault → Vault
with_key none channel_id current = current
with_key (some key) channel_id current = record current {
  participants =
      change_channel channel_id (λ h. record h { shared_key = some key }) current.participants;
}

abbrev keyed : FoldContext → String → Vault × FoldState → Vault × FoldState
keyed ctx channel_id (current, st) =
    (with_key (truthy (ctx.read_shared_key channel_id)) channel_id current, st)

unfoldable pub apply_pairing_completed :
    FoldContext → Vault → PairingEvent → FoldState → Vault × FoldState
unfolding replica_paired peer_paired is_replica_sender_kind without_pending
apply_pairing_completed ctx current e st =
    if e.channel_id == ""
    then (current, st)
    else let found = find (recorded_under e.pairing_channel_id) current.pending_pairings in
      let settled = record current {
        pending_pairings = without_pending e.pairing_channel_id current.pending_pairings;
      } in
      let st = st ▹ log "pairing" "PairingCompleted" in
      if is_replica_sender_kind e.kind
      then replica_paired ctx settled e st
      else keyed ctx e.channel_id (peer_paired ctx settled e found st)

abbrev pub paired_on : String → PairedParticipant → Bool
paired_on channel_id p = on_channel channel_id p && is_paired p.connection_status

abbrev announce_paired : Bool → Option PairedParticipant → FoldState → FoldState
announce_paired false (some peer) st = st ▹ notify_outcome (paired_with peer.name)
announce_paired _ _ st = st

abbrev announced_once : Vault → String → Vault × FoldState → Vault × FoldState
announced_once current channel_id (next, st) = (
  next,
  announce_paired (any (paired_on channel_id) current.participants)
      (find (paired_on channel_id) next.participants) st,
)

-- the handler
unfoldable pub pairing_completed :
    FoldContext → Vault → PairingEvent → FoldState → Vault × FoldState
unfolding apply_pairing_completed
pairing_completed ctx current e st =
    if e.channel_id == ""
    then (current, st)
    else announced_once current e.channel_id (apply_pairing_completed ctx current e st)

abbrev pub identify_in : Vault → String → Option String → Option PeerActorCandidate → Vault
unfolding identify_row
identify_in current temp_id sent_name none = current
identify_in current temp_id sent_name (some actor) = record current {
  participants = change_row temp_id (λ h. identify_row h actor sent_name) current.participants;
}

-- what the answer of the lookup commits to the record as it is by then
unfoldable pub actor_looked_up :
    Vault → String → List String → Option String → List PeerActorCandidate → Vault
unfolding resolve_peer_actor
actor_looked_up current temp_id uris sent_name actors =
    identify_in current temp_id sent_name (resolve_peer_actor actors current.id uris)
