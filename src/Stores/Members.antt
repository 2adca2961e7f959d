-- ===== src/Stores/Members.antt =====
-- What apps/web/src/stores.ts reads off the rows of channels: `readHelperChannelStatus`,
-- `listHelperChannels`, `readHelperChannelInfo` and `listReplicaMembers`.
use reference_app.Prelude.{
  Bool, List, Option, String, [], false, if◌then◌else◌, ltb, nat_eq, none, option_eq, pair_eq, some,
  string_eq, trim, true, ℕ, ◌==◌, ◌∷◌,
}
use reference_app.Stores.{
  ChannelRecord, LocalStorage, Partition, RowTransports, StoredProtocol, StoredRow, StoredTransport,
  helper_variant, listed, protocol_name, protocol_number, protocol_unknown, readable,
  replica_variant, unreadable,
}
use reference_app.Stores.Channels.{RowTable, helper_ids, lift_legacy_transport, member_ids, row_at}
use reference_app.Types.{Transport, TransportProtocol, grpc, https}

pub data ChannelStatus : Type 0 where
  status_pending status_paired status_unpairing : ChannelStatus

-- a record without a status, or with another one, is paired
unfoldable pub channel_status : Option String → ChannelStatus
channel_status none = status_paired
channel_status (some text) =
    if text == "Pending"
    then status_pending
    else if text == "Unpairing"
    then status_unpairing
    else status_paired

abbrev is_helper_record : ChannelRecord → Bool
is_helper_record r = elim r.variant [ helper_variant ↦ true | replica_variant ↦ false ]

abbrev pub helper_status : StoredRow → Option ChannelStatus
unfolding channel_status
helper_status (readable r) =
    some (if is_helper_record r then channel_status r.status else status_paired)
helper_status _ = none

unfoldable pub read_helper_channel_status : LocalStorage → Partition → ℕ → Option ChannelStatus
unfolding row_at channel_status
read_helper_channel_status s p c = elim (row_at s.helper_rows p c) [
  | none ↦ none
  | some row ↦ helper_status row
]

pub record StoredHelperChannel : Type 0 where
  pub channel_id : ℕ
  pub status : ChannelStatus
  pub peer_role : Option String
  pub created_at_secs : Option ℕ

abbrev positive : Option ℕ → Option ℕ
positive none = none
positive (some n) = if ltb 0 n then some n else none

unfoldable pub helper_channel_of : ℕ → Option StoredRow → Option StoredHelperChannel
unfolding channel_status
helper_channel_of c (some (readable r)) =
    if is_helper_record r
    then some (record {
      channel_id = c;
      status = channel_status r.status;
      peer_role = r.role;
      created_at_secs = positive r.created_at;
    })
    else none
helper_channel_of c _ = none

unfoldable pub helper_channels_of : RowTable → Partition → List ℕ → List StoredHelperChannel
unfolding row_at helper_channel_of
helper_channels_of rows p [] = []
helper_channels_of rows p (c ∷ cs) =
    let rest = helper_channels_of rows p cs in
    elim (helper_channel_of c (row_at rows p c)) [ none ↦ rest | some channel ↦ channel ∷ rest ]

unfoldable pub list_helper_channels : LocalStorage → Partition → List StoredHelperChannel
unfolding helper_ids helper_channels_of
list_helper_channels s p = helper_channels_of s.helper_rows p (helper_ids s p)

-- `lower` is `toLowerCase`
unfoldable pub transport_protocol_of : (String → String) → StoredProtocol → TransportProtocol
transport_protocol_of lower (protocol_number n) = if n == 1 then grpc else https
transport_protocol_of lower (protocol_name name) = if lower name == "grpc" then grpc else https
transport_protocol_of lower protocol_unknown = https

unfoldable pub transports_of : (String → String) → List StoredTransport → List Transport
unfolding transport_protocol_of
transports_of lower [] = []
transports_of lower (t ∷ ts) =
    let rest = transports_of lower ts in
    elim t.uri [
      | none ↦ rest
      | some uri ↦
          if uri == ""
          then rest
          else record { protocol = transport_protocol_of lower t.protocol; uri = uri } ∷ rest
    ]

pub record ChannelInfo : Type 0 where
  pub name : Option String
  pub transports : List Transport

-- `name.trim() || null`
abbrev trimmed_name : Option String → Option String
trimmed_name none = none
trimmed_name (some name) = if trim name == "" then none else some (trim name)

abbrev pub listed_transports : RowTransports → List StoredTransport
listed_transports (listed ts) = ts
listed_transports _ = []

abbrev pub info_of : (String → String) → ChannelRecord → Option ChannelInfo
unfolding transports_of lift_legacy_transport
info_of lower r =
    if is_helper_record r
    then some (record {
      name = trimmed_name r.name;
      transports = transports_of lower (listed_transports (lift_legacy_transport r).transports);
    })
    else none

unfoldable pub read_helper_channel_info :
    (String → String) → LocalStorage → Partition → ℕ → Option ChannelInfo
unfolding row_at info_of transports_of lift_legacy_transport
read_helper_channel_info lower s p c = elim (row_at s.helper_rows p c) [
  | some (readable r) ↦ info_of lower r
  | _ ↦ none
]

pub record StoredReplicaMember : Type 0 where
  pub replica_id : ℕ
  pub channel_id : Option ℕ
  pub role : Option String
  pub status : ChannelStatus
  pub name : Option String

-- the name as it stands, where it is not blank
abbrev read_member_name : Option String → Option String
read_member_name none = none
read_member_name (some name) = if trim name == "" then none else some name

abbrev pub unread_member : ℕ → Option ℕ → StoredReplicaMember
unread_member id channel_id = record {
  replica_id = id;
  channel_id = channel_id;
  role = none;
  status = status_paired;
  name = none;
}

-- a record of the other variant has none of the fields, but its channel id is found in the text
unfoldable pub member_of : ℕ → Option StoredRow → Option StoredReplicaMember
unfolding channel_status
member_of id (some (readable r)) =
    if is_helper_record r
    then some (unread_member id r.channel_id)
    else some (record {
      replica_id = id;
      channel_id = r.channel_id;
      role = r.role;
      status = channel_status r.status;
      name = read_member_name r.name;
    })
member_of id (some (unreadable channel_id)) = some (unread_member id channel_id)
member_of id _ = none

unfoldable pub members_of : RowTable → Partition → List ℕ → List StoredReplicaMember
unfolding row_at member_of
members_of rows p [] = []
members_of rows p (id ∷ ids) =
    let rest = members_of rows p ids in
    elim (member_of id (row_at rows p id)) [ none ↦ rest | some member ↦ member ∷ rest ]

unfoldable pub list_replica_members : LocalStorage → Partition → List StoredReplicaMember
unfolding member_ids members_of
list_replica_members s p = members_of s.member_rows p (member_ids s p)
