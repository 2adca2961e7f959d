-- ===== src/Fold/Outcomes.antt =====
-- vault/fold/outcomes.ts: what `start()` reports of each target, and what the library reports of
-- its own handling.
use reference_app.Fold.Context.{
  FoldState, change_channel, channel_info_outcome, flow_progressed, log, not_dispatched,
  notify_error, on_channel, outcome_failed, ◌▹◌,
}
use reference_app.Prelude.{String, any, false, if◌then◌else◌, not, some, ◌<>◌}
use reference_app.Types.{PairedParticipant, Vault}

unfoldable pub dispatch_started : Vault → FoldState → Vault × FoldState
dispatch_started current st = (current, st ▹ flow_progressed)

unfoldable pub dispatch_failed : Vault → String → String → FoldState → Vault × FoldState
dispatch_failed current step error st =
    (current, st ▹ log "protocol" step ▹ notify_error (not_dispatched step error))

abbrev not_reached : String → PairedParticipant → PairedParticipant
not_reached error p = record p {
  discovery_complete = some false;
  discovery_error = some ("Could not be reached: " <> error);
}

unfoldable pub discovery_failed : Vault → String → String → FoldState → Vault × FoldState
unfolding dispatch_failed
discovery_failed current channel_id error st =
    let (next, st) = dispatch_failed current "DiscoveryFailed" error st in
    if not (any (on_channel channel_id) next.participants) then (next, st) else (
      record next {
        participants = change_channel channel_id (not_reached error) next.participants;
      },
      st,
    )

unfoldable pub update_channel_info_failed : Vault → String → String → FoldState → Vault × FoldState
unfolding dispatch_failed
update_channel_info_failed current channel_id error st =
    dispatch_failed current "UpdateChannelInfoFailed" error
      (st ▹ channel_info_outcome channel_id outcome_failed (some error))

unfoldable pub no_op : Vault → FoldState → Vault × FoldState
no_op current st = (current, st ▹ log "protocol" "NoOp")

unfoldable pub message_ignored : Vault → FoldState → Vault × FoldState
message_ignored current st = (current, st ▹ log "protocol" "MessageIgnored")

unfoldable pub auto_accepted : Vault → FoldState → Vault × FoldState
auto_accepted current st = (current, st ▹ log "protocol" "AutoAccepted")
