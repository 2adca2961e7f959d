-- ===== src/Roster.antt =====
-- The rows of a vault's roster: who is sent a share, which rows are replica channels, and who a new
-- channel belongs to (ownerPairing.ts, peerIdentity.ts, and the row functions of vault/rounds.ts).
pub mod Targets
pub mod Settled
pub mod Entries
mod Tests
use reference_app.Prelude.{
  Bool, List, Option, String, [], any, false, filter, has_prefix, if◌then◌else◌, includes, map,
  nat_eq, none, not, option_eq, or_else, pair_eq, set_of, some, string_eq, true, ℕ, ◌&&◌, ◌++◌,
  ◌<>◌, ◌==◌, ◌||◌, ◌∷◌,
}
use reference_app.Roles.{is_replica_role}
use reference_app.Types.{
  ConnectionStatus, PairedParticipant, PairingRole, SecretShareRef, ShareStatus, Transport,
  available, owner, paired, pending, rejected,
}

abbrev pub is_paired : ConnectionStatus → Bool
is_paired paired = true
is_paired available = false

abbrev pub is_replica_peer : Option PairingRole → Bool
unfolding is_replica_role
is_replica_peer none = false
is_replica_peer (some role) = is_replica_role role

abbrev pub is_owner_peer : Option PairingRole → Bool
is_owner_peer (some owner) = true
is_owner_peer _ = false

unfoldable pub is_share_target : PairedParticipant → Bool
unfolding is_replica_peer
is_share_target h =
    if not (is_paired h.connection_status) || h.channel_id == ""
    then false
    else if is_replica_peer h.peer_role
    then false
    else not (is_owner_peer h.peer_role)

unfoldable pub publish_targets : List PairedParticipant → List String → List PairedParticipant
unfolding is_share_target
publish_targets participants pending_channel_ids =
    filter (λ p. is_share_target p && not (includes pending_channel_ids p.channel_id)) participants

unfoldable pub is_replica_channel : PairedParticipant → Bool
unfolding is_replica_peer
is_replica_channel h = is_replica_peer h.peer_role

pub record ReplicaChannel : Type 0 where
  pub id : String
  pub name : String
  pub channel_id : String
  pub peer_role : PairingRole

pub record PairedChannelSplit : Type 0 where
  pub participants : List PairedParticipant
  pub replicas : List ReplicaChannel

abbrev pub replica_of : PairedParticipant → PairingRole → ReplicaChannel
replica_of h role = record { id = h.id; name = h.name; channel_id = h.channel_id; peer_role = role }

abbrev pub place : PairedParticipant → Option PairingRole → PairedChannelSplit → PairedChannelSplit
unfolding is_replica_role
place h none s = record s { participants = s.participants ++ h ∷ [] }
place h (some role) s =
    if is_replica_role role
    then record s { replicas = s.replicas ++ replica_of h role ∷ [] }
    else record s { participants = s.participants ++ h ∷ [] }

-- the loop of `splitPairedChannels`
unfoldable pub split_from : PairedChannelSplit → List PairedParticipant → PairedChannelSplit
unfolding place
split_from s [] = s
split_from s (h ∷ rows) =
    split_from
      (if not (is_paired h.connection_status) || h.channel_id == ""
        then s
        else place h h.peer_role s)
      rows

unfoldable pub split_paired_channels : List PairedParticipant → PairedChannelSplit
unfolding split_from
split_paired_channels rows = split_from (record { participants = []; replicas = [] }) rows

-- the `ProtectSecretStarted` and `ProtectSecretFailed` events of a dispatch, by channel and version
pub data DispatchEvent : Type 0 where
  protect_secret_started protect_secret_failed : String → ℕ → DispatchEvent
  other_dispatch : DispatchEvent

abbrev pub target_of : ℕ → DispatchEvent → List String
target_of version (protect_secret_started channel_id v) =
    if v == version then channel_id ∷ [] else []
target_of version (protect_secret_failed channel_id v) =
    if v == version then channel_id ∷ [] else []
target_of version other_dispatch = []

unfoldable pub targeted : List DispatchEvent → ℕ → List String
targeted [] version = []
targeted (e ∷ events) version = target_of version e ++ targeted events version

-- `roundRecipients` of vault/rounds.ts
unfoldable pub round_recipients :
    List PairedParticipant → List DispatchEvent → ℕ → List PairedParticipant
unfolding is_share_target targeted
round_recipients participants events version =
    filter (λ p. is_share_target p && includes (set_of [] (targeted events version)) p.channel_id)
      participants

abbrev pub unanswered_memo : String
unanswered_memo = "No answer before the round closed"

abbrev pub is_pending : ShareStatus → Bool
is_pending pending = true
is_pending _ = false

abbrev pub awaits_version : ℕ → SecretShareRef → Bool
awaits_version version s = s.version == version && is_pending s.status

abbrev pub settle_share : ℕ → SecretShareRef → SecretShareRef
settle_share version s =
    if awaits_version version s
    then record s {
      status = rejected;
      failure = some (record { status = 0; memo = unanswered_memo });
    }
    else s

abbrev pub settle_row : ℕ → PairedParticipant → PairedParticipant
settle_row version p =
    if any (awaits_version version) p.secret_shares
    then record p { secret_shares = map (settle_share version) p.secret_shares }
    else p

-- `settleUnansweredShares` of vault/rounds.ts
unfoldable pub settle_unanswered_shares : List PairedParticipant → ℕ → List PairedParticipant
settle_unanswered_shares participants version = map (settle_row version) participants

abbrev pub synthetic_peer_prefix : String
synthetic_peer_prefix = "peer-"

unfoldable pub synthetic_peer_id : String → String
synthetic_peer_id channel_id = synthetic_peer_prefix <> channel_id

unfoldable pub can_drive_peer_via_backend : Option PairedParticipant → Bool
can_drive_peer_via_backend none = false
can_drive_peer_via_backend (some row) =
    if or_else row.browser_managed false
    then false
    else not (has_prefix synthetic_peer_prefix row.id)

-- `PeerActorCandidate`
pub record PeerActorCandidate : Type 0 where
  pub id : String
  pub name : String
  pub transport : Transport
  pub transports : Option (List Transport)
  pub browser_managed : Option Bool

abbrev pub advertises : String → PeerActorCandidate → Bool
advertises uri a = a.transport.uri == uri || any (λ t. t.uri == uri) (or_else a.transports [])

-- `advertisers.length === 1` picks the one
abbrev pub sole {ℓ} : {A : Type ℓ} → List A → Option A
sole (a ∷ []) = some a
sole _ = none

abbrev pub or_try {ℓ} : {A : Type ℓ} → Option A → Option A → Option A
or_try none later = later
or_try (some a) later = some a

-- the loop of `resolvePeerActor` over the endpoints
unfoldable pub resolve_among : List PeerActorCandidate → List String → Option PeerActorCandidate
resolve_among others [] = none
resolve_among others (uri ∷ uris) =
    let rest = resolve_among others uris in
    if uri == "" then rest else or_try (sole (filter (advertises uri) others)) rest

unfoldable pub resolve_peer_actor :
    List PeerActorCandidate → String → List String → Option PeerActorCandidate
unfolding resolve_among
resolve_peer_actor actors self_actor_id peer_transport_uris =
    resolve_among (filter (λ a. not (a.id == self_actor_id)) actors) peer_transport_uris

-- `sentName || actor.name`
abbrev pub or_if_blank : Option String → String → String
or_if_blank none d = d
or_if_blank (some s) d = if s == "" then d else s

unfoldable pub identify_row :
    PairedParticipant → PeerActorCandidate → Option String → PairedParticipant
identify_row row actor sent_name =
    let has_transport = not (row.transport.uri == "") in
    record row {
      id = actor.id;
      name = or_if_blank sent_name actor.name;
      transport = if has_transport then row.transport else actor.transport;
      transports = if has_transport then row.transports else actor.transports;
      browser_managed = some (or_else actor.browser_managed false);
    }
