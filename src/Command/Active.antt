-- ===== src/Command/Active.antt =====
-- The commands of core/src/command as the event loop relies on them: each consumes an event or hands
-- on that very event.
pub mod Queue
use swarm_p2p.Prelude.{
  ◌≡◌, refl, ◌⊎◌, inl, inr, Bool, true, false, Option, none, some, List, arith, Bool-cases,
  if◌then◌else◌,
}
use swarm_p2p.DataChannel.{PeerId}
use swarm_p2p.Error.{Result, ok, err}
use swarm_p2p.Swarm.{
  Types, Swarm, Trace, SwarmEvent, QueryStatsInfo, kad_progressed, bootstrap_result,
  closest_peers_result, providers_result, record_result, put_record_result, start_providing_result,
  response_message, outbound_failure, connection_established, connection_closed,
  outgoing_connection_error,
}
use swarm_p2p.Command.{
  CommandHandler, CommandTask, CommandTrait, RelayRequest, command_trait, no_relay_request,
  on_event_boxed,
}
use swarm_p2p.Command.Peer.{
  DialCommand, DisconnectCommand, IsConnectedCommand, AddPeerAddrsCommand,
  AddInfrastructurePeerCommand, dial_handler, disconnect_handler, is_connected_handler,
  add_peer_addrs_handler, add_infrastructure_peer_handler, on_event_dial, on_event_disconnect,
}
use swarm_p2p.Command.ReqResp.{
  SendRequestCommand, SendResponseCommand, send_request_handler, send_response_handler,
  on_event_send_request,
}
use swarm_p2p.Command.Kad.{
  PutRecordCommand, StartProvideCommand, StopProvideCommand, RemoveRecordCommand,
  put_record_handler, start_provide_handler, stop_provide_handler, remove_record_handler,
  on_event_put_record, on_event_start_provide,
}
use swarm_p2p.Command.KadQueries.{
  BootstrapCommand, BootstrapResult, GetClosestPeersCommand, GetClosestPeersResult,
  GetProvidersCommand, GetProvidersResult, GetRecordCommand, GetRecordResult, run_bootstrap,
  run_get_closest_peers, run_get_providers, run_get_record, on_event_bootstrap,
  on_event_get_closest_peers, on_event_get_providers, on_event_get_record, step_bootstrap,
  step_get_closest_peers, step_get_providers, step_get_record,
}

module _ {T : Types} (sw : Swarm T) where
  abbrev pub bootstrap_handler : CommandHandler T (BootstrapCommand T) BootstrapResult
  bootstrap_handler = record {
    run = run_bootstrap sw;
    on_event = on_event_bootstrap sw;
    take_relay_reservation_request = no_relay_request;
  }

  abbrev pub get_closest_peers_handler :
      CommandHandler T (GetClosestPeersCommand T) GetClosestPeersResult
  get_closest_peers_handler = record {
    run = run_get_closest_peers sw;
    on_event = on_event_get_closest_peers sw;
    take_relay_reservation_request = no_relay_request;
  }

  abbrev pub get_providers_handler : CommandHandler T (GetProvidersCommand T) GetProvidersResult
  get_providers_handler = record {
    run = run_get_providers sw;
    on_event = on_event_get_providers sw;
    take_relay_reservation_request = no_relay_request;
  }

  abbrev pub get_record_handler : CommandHandler T (GetRecordCommand T) (GetRecordResult T)
  get_record_handler = record {
    run = run_get_record sw;
    on_event = on_event_get_record sw;
    take_relay_reservation_request = no_relay_request;
  }

-- A command that consumes the event or hands it on unchanged, whatever the event.
abbrev pub HandsOn : {T : Types} {C R : Type 0} → CommandHandler T C R → Type 0
HandsOn {T} {C} h =
    (c : C) (event : SwarmEvent T)
    → ((h.on_event c event).remaining ≡ none) ⊎ ((h.on_event c event).remaining ≡ some event)

module _ {T : Types} (sw : Swarm T) where
  pub dial-HandsOn : HandsOn (dial_handler sw)
  unfolding on_event_dial
  dial-HandsOn c (connection_established peer n) = inr (ground arith)
  dial-HandsOn c (outgoing_connection_error (some peer) e) = inr (ground arith)
  dial-HandsOn c (outgoing_connection_error none e) = inr refl
  dial-HandsOn c _ = inr refl

  pub disconnect-HandsOn : HandsOn (disconnect_handler sw)
  unfolding on_event_disconnect
  disconnect-HandsOn c (connection_closed peer n) = inr (ground arith)
  disconnect-HandsOn c _ = inr refl

  pub send_request-HandsOn : HandsOn (send_request_handler sw)
  unfolding on_event_send_request
  send_request-HandsOn c (response_message p i r) = ground arith
  send_request-HandsOn c (outbound_failure p i e) = ground arith
  send_request-HandsOn c _ = inr refl

  pub put_record-HandsOn : HandsOn (put_record_handler sw)
  unfolding on_event_put_record
  put_record-HandsOn c (kad_progressed id (put_record_result res) stats last) = ground arith
  put_record-HandsOn c _ = inr refl

  pub start_provide-HandsOn : HandsOn (start_provide_handler sw)
  unfolding on_event_start_provide
  start_provide-HandsOn c (kad_progressed id (start_providing_result res) stats last) = ground arith
  start_provide-HandsOn c _ = inr refl

  pub bootstrap-HandsOn : HandsOn (bootstrap_handler sw)
  unfolding on_event_bootstrap step_bootstrap
  bootstrap-HandsOn c (kad_progressed id (bootstrap_result res) stats last) = ground arith
  bootstrap-HandsOn c _ = inr refl

  pub get_closest_peers-HandsOn : HandsOn (get_closest_peers_handler sw)
  unfolding on_event_get_closest_peers step_get_closest_peers
  get_closest_peers-HandsOn c (kad_progressed id (closest_peers_result res) stats last) =
      ground arith
  get_closest_peers-HandsOn c _ = inr refl

  pub get_providers-HandsOn : HandsOn (get_providers_handler sw)
  unfolding on_event_get_providers step_get_providers
  get_providers-HandsOn c (kad_progressed id (providers_result res) stats last) = ground arith
  get_providers-HandsOn c _ = inr refl

  pub get_record-HandsOn : HandsOn (get_record_handler sw)
  unfolding on_event_get_record step_get_record
  get_record-HandsOn c (kad_progressed id (record_result res) stats last) = ground arith
  get_record-HandsOn c _ = inr refl
