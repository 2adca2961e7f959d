-- ===== src/Fold/Pairing.antt =====
-- vault/fold/pairing.ts: unpairing and channel-info events. `PairingCompleted` is in
-- Fold/PairingCompleted.
use reference_app.Bag.{update_bag_version}
use reference_app.Fold.Context.{
  FoldContext, FoldState, StoredChannelInfo, channel_info_outcome, log, notify_error, notify_info,
  on_channel, outcome_rejected, refused_pre_pair, rejected_endpoint_update, rejected_unpair, row_on,
  unpaired_peer, updated, ◌▹◌,
}
use reference_app.Prelude.{
  Bool, List, Option, String, [], any, false, filter, if◌then◌else◌, map, nat_eq, none, not,
  or_else, some, string_eq, true, ℕ, ◌&&◌, ◌==◌, ◌∷◌,
}
use reference_app.Types.{
  BagVersion, PairedParticipant, SecretBag, Transport, TransportProtocol, Vault, grpc, https,
}

abbrev pub drop_id : String → BagVersion → BagVersion
drop_id id v = record v {
  participant_ids = filter (λ i. not (i == id)) v.participant_ids;
  verified_participant_ids = filter (λ i. not (i == id)) v.verified_participant_ids;
  failed_participant_ids = filter (λ f. not (f.id == id)) v.failed_participant_ids;
}

abbrev pub bag_without : Option PairedParticipant → Option SecretBag → Option SecretBag
bag_without none held = held
bag_without (some hit) none = none
bag_without (some hit) (some bag) =
    some (update_bag_version bag bag.current_version.version (drop_id hit.id))

unfoldable pub without_channel : Vault → String → Vault
without_channel current channel_id = record current {
  participants = filter (λ p. not (on_channel channel_id p)) current.participants;
  held_shares = filter (λ s. not (s.channel_id == channel_id)) current.held_shares;
  pending_pairings = filter (λ p. not (p.channel_id == channel_id)) current.pending_pairings;
  main_channels = filter (λ c. not (c == channel_id)) current.main_channels;
  secret_bag = bag_without (row_on current channel_id) current.secret_bag;
}

abbrev name_or : String → Option PairedParticipant → String
name_or d none = d
name_or d (some p) = p.name

unfoldable pub unpaired : Vault → String → FoldState → Vault × FoldState
unfolding without_channel
unpaired current channel_id st = if channel_id == "" then (current, st) else (
  without_channel current channel_id,
  st
      ▹ log "unpairing" "unpaired"
      ▹ notify_info (unpaired_peer (name_or "Peer" (row_on current channel_id)) channel_id),
)

unfoldable pub unpair_rejected :
    Vault → String → Option ℕ → Option String → FoldState → Vault × FoldState
unpair_rejected current channel_id status memo st = if channel_id == "" then (current, st) else (
  current,
  st
      ▹ log "unpairing" "unpair_rejected"
      ▹ notify_error
          (rejected_unpair (name_or "Peer" (row_on current channel_id)) (or_else memo "") status),
)

unfoldable pub unpair_failed : Vault → FoldState → Vault × FoldState
unpair_failed current st = (current, st ▹ log "unpairing" "UnpairFailed")

abbrev same_protocol : TransportProtocol → TransportProtocol → Bool
same_protocol https https = true
same_protocol grpc grpc = true
same_protocol _ _ = false

unfoldable pub same_transports : List Transport → List Transport → Bool
same_transports [] [] = true
same_transports (t ∷ a) (u ∷ b) =
    t.uri == u.uri && same_protocol t.protocol u.protocol && same_transports a b
same_transports _ _ = false

abbrev known_transports : PairedParticipant → List Transport
known_transports p = or_else p.transports (p.transport ∷ [])

abbrev announced_transports : StoredChannelInfo → PairedParticipant → List Transport
announced_transports info p = elim info.transports [ [] ↦ known_transports p | t ∷ ts ↦ t ∷ ts ]

-- `transports[0]`; a row with an empty list, for which the source would read `undefined`, keeps
-- the endpoint that it has
abbrev pub first_or : Transport → List Transport → Transport
first_or d [] = d
first_or d (t ∷ ts) = t

abbrev pub is_unchanged : StoredChannelInfo → PairedParticipant → Bool
unfolding same_transports
is_unchanged info p =
    or_else info.name p.name == p.name
    && same_transports (announced_transports info p) (known_transports p)

abbrev pub announced : StoredChannelInfo → PairedParticipant → PairedParticipant
announced info p =
    let transports = announced_transports info p in
    record p {
      name = or_else info.name p.name;
      transport = first_or p.transport transports;
      transports = some transports;
    }

abbrev pub with_info : String → StoredChannelInfo → PairedParticipant → PairedParticipant
with_info channel_id info p =
    if not (on_channel channel_id p) then p else if is_unchanged info p then p else announced info p

-- whether a row differs, for which the record is written again
abbrev pub any_change : String → StoredChannelInfo → List PairedParticipant → Bool
any_change channel_id info = any (λ p. on_channel channel_id p && not (is_unchanged info p))

unfoldable pub with_peer_info : Vault → String → Option StoredChannelInfo → Vault
with_peer_info current channel_id none = current
with_peer_info current channel_id (some info) =
    if any_change channel_id info current.participants
    then record current { participants = map (with_info channel_id info) current.participants }
    else current

unfoldable pub channel_info_updated : FoldContext → Vault → String → FoldState → Vault × FoldState
unfolding with_peer_info
channel_info_updated ctx current channel_id st = (
  with_peer_info current channel_id (ctx.read_channel_info channel_id),
  st ▹ channel_info_outcome channel_id updated none ▹ log "pairing" "ChannelInfoUpdated",
)

abbrev unless_blank : String → Option String
unless_blank s = if s == "" then none else some s

unfoldable pub channel_info_update_rejected :
    Vault → String → String → FoldState → Vault × FoldState
channel_info_update_rejected current channel_id memo st = (
  current,
  st
      ▹ log "pairing" "ChannelInfoUpdateRejected"
      ▹ notify_error (rejected_endpoint_update channel_id memo)
      ▹ channel_info_outcome channel_id outcome_rejected (unless_blank memo),
)

unfoldable pub pre_pair_rejected : Vault → String → String → FoldState → Vault × FoldState
pre_pair_rejected current channel_id memo st =
    (current, st ▹ notify_error (refused_pre_pair channel_id memo))
