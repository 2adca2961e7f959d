-- ===== src/Inbound/Tests.antt =====
-- An example of what is proved of inbound requests.
use reference_app.Inbound.{ActionRequired, InboundContext, route_action_required, unpair_kind}
use reference_app.Inbound.Routing.{IsDecided, route_action_required-IsDecided}
use reference_app.Prelude.{false, none, true, ◌≡◌}
use reference_app.Samples.{sample_vault}
use reference_app.Types.{required, user}

abbrev asking : InboundContext
asking = record {
  config = record {
    protocol_timeout_secs = 60;
    authentication_method = user;
    unpair_ack = required;
    auto_accept_unpair_requests = false;
    auto_accept_store_share_requests = true;
    auto_accept_verify_share_requests = true;
  };
  accept_and_fold = λ action v. v;
  accept_store_share = λ request v. v;
}

abbrev unpair_request : ActionRequired
unpair_request = record {
  channel_id = "11";
  action_kind = unpair_kind;
  action = "token";
  peer_name = none;
  sender_kind = none;
  share_secret_id = none;
  share_description = none;
  version = none;
}

route_action_required-IsDecided_example :
    ((route_action_required unpair_request sample_vault asking).hold_back ≡ true)
    × IsDecided sample_vault (route_action_required unpair_request sample_vault asking)
route_action_required-IsDecided_example =
    route_action_required-IsDecided unpair_request sample_vault asking
