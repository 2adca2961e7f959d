-- ===== src/Identity.antt =====
-- apps/web/src/vault/identity.ts: how the peers of a vault answer a change of its name or endpoint.
-- The events of the SDK that it reads are `ChannelInfoEvent`; a detail of the code's own wording is
-- the fact that it states.
pub mod Answers
mod Tests
use reference_app.Fold.Context.{ChannelInfoOutcome, no_answer, outcome_failed, outcome_pending}
use reference_app.Prelude.{
  Bool, Dict, List, Option, String, [], any, false, filter, find, if◌then◌else◌, insert, is_some,
  keys, leb, lookup, map, nat_eq, none, option_eq, pair_eq, some, string_eq, true, values, ℕ, ◌&&◌,
  ◌+◌, ◌/◌, ◌<>◌, ◌==◌, ◌||◌, ◌∷◌,
}
use reference_app.Samples.{endpoint}
use reference_app.Types.{PairedParticipant}

-- `IdentityUpdateChannel` of vault/types.ts
pub data OutcomeDetail : Type 0 where
  unexplained : OutcomeDetail
  reported_error : String → OutcomeDetail
  silent_for_secs : ℕ → OutcomeDetail

pub record IdentityUpdateChannel : Type 0 where
  pub peer_name : String
  pub sent_at : ℕ
  pub outcome : ChannelInfoOutcome
  pub detail : OutcomeDetail

pub record IdentityValues : Type 0 where
  pub name : Option String
  pub endpoint : Option String

pub record IdentityUpdate : Type 0 where
  pub changed_name : Bool
  pub changed_endpoint : Bool
  pub values : IdentityValues
  pub sent_at : ℕ
  pub channels : Dict String IdentityUpdateChannel

pub data ChannelInfoEvent : Type 0 where
  update_started : String → ChannelInfoEvent
  update_failed : String → String → ChannelInfoEvent
  unrelated_event : ChannelInfoEvent

abbrev name_or_channel : Option PairedParticipant → String → String
name_or_channel none channel_id = "Channel " <> channel_id
name_or_channel (some p) channel_id = if p.name == "" then "Channel " <> channel_id else p.name

abbrev pub peer_name_of : List PairedParticipant → String → String
peer_name_of participants channel_id =
    name_or_channel (find (λ p. p.channel_id == channel_id) participants) channel_id

-- the loop of `channelsFrom`
unfoldable pub channels_from :
    Dict String IdentityUpdateChannel
    → List ChannelInfoEvent
    → List PairedParticipant
    → ℕ
    → Dict String IdentityUpdateChannel
channels_from channels [] participants sent_at = channels
channels_from channels (update_started id ∷ events) participants sent_at =
    channels_from
      (insert channels id (record {
        peer_name = peer_name_of participants id;
        sent_at = sent_at;
        outcome = outcome_pending;
        detail = unexplained;
      }))
      events participants sent_at
channels_from channels (update_failed id error ∷ events) participants sent_at =
    channels_from
      (insert channels id (record {
        peer_name = peer_name_of participants id;
        sent_at = sent_at;
        outcome = outcome_failed;
        detail = reported_error error;
      }))
      events participants sent_at
channels_from channels (unrelated_event ∷ events) participants sent_at =
    channels_from channels events participants sent_at

unfoldable pub identity_update_from :
    List ChannelInfoEvent → List PairedParticipant → IdentityValues → ℕ → IdentityUpdate
unfolding channels_from
identity_update_from events participants values sent_at = record {
  changed_name = is_some values.name;
  changed_endpoint = is_some values.endpoint;
  values = values;
  sent_at = sent_at;
  channels = channels_from [] events participants sent_at;
}

-- a spread of the new channels over the old ones writes them one by one
abbrev pub spread :
    Dict String IdentityUpdateChannel
    → Dict String IdentityUpdateChannel
    → Dict String IdentityUpdateChannel
spread old [] = old
spread old ((id, entry) ∷ new) = spread (insert old id entry) new

unfoldable pub with_identity_resend :
    IdentityUpdate → List ChannelInfoEvent → List PairedParticipant → ℕ → IdentityUpdate
unfolding channels_from
with_identity_resend update events participants sent_at = record update {
  channels = spread update.channels (channels_from [] events participants sent_at);
}

abbrev pub is_pending_outcome : ChannelInfoOutcome → Bool
is_pending_outcome outcome_pending = true
is_pending_outcome _ = false

abbrev pub is_undelivered : ChannelInfoOutcome → Bool
is_undelivered outcome_failed = true
is_undelivered no_answer = true
is_undelivered _ = false

-- `Math.round(ms / 1000)`
abbrev rounded_secs : ℕ → ℕ
rounded_secs ms = (ms + 500) / 1000

abbrev pub waited_out : ℕ → ℕ → IdentityUpdateChannel → Bool
waited_out now timeout entry = is_pending_outcome entry.outcome && leb (entry.sent_at + timeout) now

abbrev pub expired_entry : ℕ → ℕ → IdentityUpdateChannel → IdentityUpdateChannel
expired_entry now timeout entry =
    if waited_out now timeout entry
    then record entry { outcome = no_answer; detail = silent_for_secs (rounded_secs timeout) }
    else entry

-- The source answers with the update itself where no entry changed, which is the same value.
unfoldable pub with_expired_waits : Option IdentityUpdate → ℕ → ℕ → Option IdentityUpdate
with_expired_waits none now timeout = none
with_expired_waits (some update) now timeout = some (record update {
  channels = map (λ kv. (kv.0, expired_entry now timeout kv.1)) update.channels;
})

unfoldable pub undelivered_channel_ids : Option IdentityUpdate → List String
undelivered_channel_ids none = []
undelivered_channel_ids (some update) =
    keys (filter (λ kv. is_undelivered kv.1.outcome) update.channels)

unfoldable pub has_outstanding_peers : Option IdentityUpdate → Bool
has_outstanding_peers none = false
has_outstanding_peers (some update) =
    any (λ entry. is_pending_outcome entry.outcome || is_undelivered entry.outcome)
      (values update.channels)

abbrev answered :
    IdentityUpdate
    → String
    → ChannelInfoOutcome
    → OutcomeDetail
    → Option IdentityUpdateChannel
    → IdentityUpdate
answered update id outcome detail none = update
answered update id outcome detail (some entry) =
    if is_pending_outcome entry.outcome
    then record update {
      channels = insert update.channels id (record entry { outcome = outcome; detail = detail });
    }
    else update

unfoldable pub with_channel_outcome :
    Option IdentityUpdate → String → ChannelInfoOutcome → OutcomeDetail → Option IdentityUpdate
with_channel_outcome none id outcome detail = none
with_channel_outcome (some update) id outcome detail =
    some (answered update id outcome detail (lookup update.channels id))
