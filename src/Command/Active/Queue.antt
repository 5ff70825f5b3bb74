-- ===== src/Command/Active/Queue.antt =====
-- The active commands of core/src/runtime/event_loop.rs, of every kind of core/src/command in one
-- list, and an event that goes through them.
pub mod Calls
pub mod Offers
use swarm_p2p.Prelude.{refl, ◌⊎◌, inr, Bool, Option, List}
use swarm_p2p.Swarm.{Types, Swarm, Trace, SwarmEvent, QueryStatsInfo}
use swarm_p2p.Chain.{chain}
use swarm_p2p.Chain.Delivery.{Consumes, Passes, Delivered, chain-Delivered}
use swarm_p2p.Command.{CommandTask, CommandTrait, RelayRequest, command_trait, on_event_boxed}
use swarm_p2p.Swarm.Addr.{Multiaddr}
use swarm_p2p.Command.Listing.{GetListenAddrsCommand, get_listen_addrs_handler}
use swarm_p2p.Command.Peer.{
  DialCommand, DisconnectCommand, IsConnectedCommand, AddPeerAddrsCommand,
  AddInfrastructurePeerCommand, dial_handler, disconnect_handler, is_connected_handler,
  add_peer_addrs_handler, add_infrastructure_peer_handler,
}
use swarm_p2p.Command.ReqResp.{
  SendRequestCommand, SendResponseCommand, send_request_handler, send_response_handler,
}
use swarm_p2p.Command.Kad.{
  PutRecordCommand, StartProvideCommand, StopProvideCommand, RemoveRecordCommand,
  put_record_handler, start_provide_handler, stop_provide_handler, remove_record_handler,
}
use swarm_p2p.Command.KadQueries.{
  BootstrapCommand, BootstrapResult, GetClosestPeersCommand, GetClosestPeersResult,
  GetProvidersCommand, GetProvidersResult, GetRecordCommand, GetRecordResult,
}
use swarm_p2p.Command.Active.{
  bootstrap_handler, get_closest_peers_handler, get_providers_handler, get_record_handler,
  dial-HandsOn, disconnect-HandsOn, send_request-HandsOn, bootstrap-HandsOn,
  get_closest_peers-HandsOn, get_providers-HandsOn, get_record-HandsOn, put_record-HandsOn,
  start_provide-HandsOn,
}

pub data Active (T : Types) : Type 0 where
  dialing : CommandTask DialCommand (Unit {0}) → Active T
  disconnecting : CommandTask DisconnectCommand (Unit {0}) → Active T
  listing : CommandTask GetListenAddrsCommand (List Multiaddr) → Active T
  checking : CommandTask IsConnectedCommand Bool → Active T
  adding_addrs : CommandTask AddPeerAddrsCommand (Unit {0}) → Active T
  adding_infrastructure : CommandTask AddInfrastructurePeerCommand (Unit {0}) → Active T
  requesting : CommandTask (SendRequestCommand T) T.Resp → Active T
  responding : CommandTask (SendResponseCommand T) (Unit {0}) → Active T
  bootstrapping : CommandTask (BootstrapCommand T) BootstrapResult → Active T
  getting_closest : CommandTask (GetClosestPeersCommand T) GetClosestPeersResult → Active T
  getting_providers : CommandTask (GetProvidersCommand T) GetProvidersResult → Active T
  getting_record : CommandTask (GetRecordCommand T) (GetRecordResult T) → Active T
  putting_record : CommandTask (PutRecordCommand T) QueryStatsInfo → Active T
  providing : CommandTask (StartProvideCommand T) QueryStatsInfo → Active T
  unproviding : CommandTask (StopProvideCommand T) (Unit {0}) → Active T
  removing : CommandTask (RemoveRecordCommand T) (Unit {0}) → Active T

-- What an object's operation makes of the command inside, put back into its kind.
abbrev kept_as : {T : Types} {A X : Type 0} → (A → Active T) → A × X → Active T × X
kept_as kind (a, x) = (kind a, x)

abbrev answered_as :
    {T : Types} {A : Type 0}
    → (A → Active T)
    → A × Bool × Option (SwarmEvent T)
    → Active T × Bool × Option (SwarmEvent T)
answered_as kind (a, keep, remaining) = (kind a, keep, remaining)

module _ {T : Types} (sw : Swarm T) where
  abbrev pub run_active : Active T → Trace T → Active T × Trace T
  run_active (dialing t) trace =
      kept_as dialing ((command_trait (dial_handler sw)).run_boxed t trace)
  run_active (disconnecting t) trace =
      kept_as disconnecting ((command_trait (disconnect_handler sw)).run_boxed t trace)
  run_active (listing t) trace =
      kept_as listing ((command_trait (get_listen_addrs_handler sw)).run_boxed t trace)
  run_active (checking t) trace =
      kept_as checking ((command_trait (is_connected_handler sw)).run_boxed t trace)
  run_active (adding_addrs t) trace =
      kept_as adding_addrs ((command_trait (add_peer_addrs_handler sw)).run_boxed t trace)
  run_active (adding_infrastructure t) trace =
      kept_as adding_infrastructure
        ((command_trait (add_infrastructure_peer_handler sw)).run_boxed t trace)
  run_active (requesting t) trace =
      kept_as requesting ((command_trait (send_request_handler sw)).run_boxed t trace)
  run_active (responding t) trace =
      kept_as responding ((command_trait (send_response_handler sw)).run_boxed t trace)
  run_active (bootstrapping t) trace =
      kept_as bootstrapping ((command_trait (bootstrap_handler sw)).run_boxed t trace)
  run_active (getting_closest t) trace =
      kept_as getting_closest ((command_trait (get_closest_peers_handler sw)).run_boxed t trace)
  run_active (getting_providers t) trace =
      kept_as getting_providers ((command_trait (get_providers_handler sw)).run_boxed t trace)
  run_active (getting_record t) trace =
      kept_as getting_record ((command_trait (get_record_handler sw)).run_boxed t trace)
  run_active (putting_record t) trace =
      kept_as putting_record ((command_trait (put_record_handler sw)).run_boxed t trace)
  run_active (providing t) trace =
      kept_as providing ((command_trait (start_provide_handler sw)).run_boxed t trace)
  run_active (unproviding t) trace =
      kept_as unproviding ((command_trait stop_provide_handler).run_boxed t trace)
  run_active (removing t) trace =
      kept_as removing ((command_trait remove_record_handler).run_boxed t trace)

  abbrev pub on_event_active : Active T → SwarmEvent T → Active T × Bool × Option (SwarmEvent T)
  on_event_active (dialing t) event =
      answered_as dialing ((command_trait (dial_handler sw)).on_event_boxed t event)
  on_event_active (disconnecting t) event =
      answered_as disconnecting ((command_trait (disconnect_handler sw)).on_event_boxed t event)
  on_event_active (listing t) event =
      answered_as listing ((command_trait (get_listen_addrs_handler sw)).on_event_boxed t event)
  on_event_active (checking t) event =
      answered_as checking ((command_trait (is_connected_handler sw)).on_event_boxed t event)
  on_event_active (adding_addrs t) event =
      answered_as adding_addrs ((command_trait (add_peer_addrs_handler sw)).on_event_boxed t event)
  on_event_active (adding_infrastructure t) event =
      answered_as adding_infrastructure
        ((command_trait (add_infrastructure_peer_handler sw)).on_event_boxed t event)
  on_event_active (requesting t) event =
      answered_as requesting ((command_trait (send_request_handler sw)).on_event_boxed t event)
  on_event_active (responding t) event =
      answered_as responding ((command_trait (send_response_handler sw)).on_event_boxed t event)
  on_event_active (bootstrapping t) event =
      answered_as bootstrapping ((command_trait (bootstrap_handler sw)).on_event_boxed t event)
  on_event_active (getting_closest t) event =
      answered_as getting_closest
        ((command_trait (get_closest_peers_handler sw)).on_event_boxed t event)
  on_event_active (getting_providers t) event =
      answered_as getting_providers
        ((command_trait (get_providers_handler sw)).on_event_boxed t event)
  on_event_active (getting_record t) event =
      answered_as getting_record ((command_trait (get_record_handler sw)).on_event_boxed t event)
  on_event_active (putting_record t) event =
      answered_as putting_record ((command_trait (put_record_handler sw)).on_event_boxed t event)
  on_event_active (providing t) event =
      answered_as providing ((command_trait (start_provide_handler sw)).on_event_boxed t event)
  on_event_active (unproviding t) event =
      answered_as unproviding ((command_trait stop_provide_handler).on_event_boxed t event)
  on_event_active (removing t) event =
      answered_as removing ((command_trait remove_record_handler).on_event_boxed t event)

  abbrev pub take_relay_active : Active T → Active T × RelayRequest
  take_relay_active (dialing t) =
      kept_as dialing ((command_trait (dial_handler sw)).take_relay_reservation_request t)
  take_relay_active (disconnecting t) =
      kept_as disconnecting
        ((command_trait (disconnect_handler sw)).take_relay_reservation_request t)
  take_relay_active (listing t) =
      kept_as listing
        ((command_trait (get_listen_addrs_handler sw)).take_relay_reservation_request t)
  take_relay_active (checking t) =
      kept_as checking ((command_trait (is_connected_handler sw)).take_relay_reservation_request t)
  take_relay_active (adding_addrs t) =
      kept_as adding_addrs
        ((command_trait (add_peer_addrs_handler sw)).take_relay_reservation_request t)
  take_relay_active (adding_infrastructure t) =
      kept_as adding_infrastructure
        ((command_trait (add_infrastructure_peer_handler sw)).take_relay_reservation_request t)
  take_relay_active (requesting t) =
      kept_as requesting
        ((command_trait (send_request_handler sw)).take_relay_reservation_request t)
  take_relay_active (responding t) =
      kept_as responding
        ((command_trait (send_response_handler sw)).take_relay_reservation_request t)
  take_relay_active (bootstrapping t) =
      kept_as bootstrapping
        ((command_trait (bootstrap_handler sw)).take_relay_reservation_request t)
  take_relay_active (getting_closest t) =
      kept_as getting_closest
        ((command_trait (get_closest_peers_handler sw)).take_relay_reservation_request t)
  take_relay_active (getting_providers t) =
      kept_as getting_providers
        ((command_trait (get_providers_handler sw)).take_relay_reservation_request t)
  take_relay_active (getting_record t) =
      kept_as getting_record
        ((command_trait (get_record_handler sw)).take_relay_reservation_request t)
  take_relay_active (putting_record t) =
      kept_as putting_record
        ((command_trait (put_record_handler sw)).take_relay_reservation_request t)
  take_relay_active (providing t) =
      kept_as providing
        ((command_trait (start_provide_handler sw)).take_relay_reservation_request t)
  take_relay_active (unproviding t) =
      kept_as unproviding ((command_trait stop_provide_handler).take_relay_reservation_request t)
  take_relay_active (removing t) =
      kept_as removing ((command_trait remove_record_handler).take_relay_reservation_request t)

  abbrev pub is_cancelled_active : Active T → Bool
  is_cancelled_active (dialing t) = (command_trait (dial_handler sw)).is_cancelled t
  is_cancelled_active (disconnecting t) = (command_trait (disconnect_handler sw)).is_cancelled t
  is_cancelled_active (listing t) = (command_trait (get_listen_addrs_handler sw)).is_cancelled t
  is_cancelled_active (checking t) = (command_trait (is_connected_handler sw)).is_cancelled t
  is_cancelled_active (adding_addrs t) = (command_trait (add_peer_addrs_handler sw)).is_cancelled t
  is_cancelled_active (adding_infrastructure t) =
      (command_trait (add_infrastructure_peer_handler sw)).is_cancelled t
  is_cancelled_active (requesting t) = (command_trait (send_request_handler sw)).is_cancelled t
  is_cancelled_active (responding t) = (command_trait (send_response_handler sw)).is_cancelled t
  is_cancelled_active (bootstrapping t) = (command_trait (bootstrap_handler sw)).is_cancelled t
  is_cancelled_active (getting_closest t) =
      (command_trait (get_closest_peers_handler sw)).is_cancelled t
  is_cancelled_active (getting_providers t) =
      (command_trait (get_providers_handler sw)).is_cancelled t
  is_cancelled_active (getting_record t) = (command_trait (get_record_handler sw)).is_cancelled t
  is_cancelled_active (putting_record t) = (command_trait (put_record_handler sw)).is_cancelled t
  is_cancelled_active (providing t) = (command_trait (start_provide_handler sw)).is_cancelled t
  is_cancelled_active (unproviding t) = (command_trait stop_provide_handler).is_cancelled t
  is_cancelled_active (removing t) = (command_trait remove_record_handler).is_cancelled t

  abbrev pub active_trait : CommandTrait T (Active T)
  active_trait = record {
    run_boxed = run_active;
    on_event_boxed = on_event_active;
    take_relay_reservation_request = take_relay_active;
    is_cancelled = is_cancelled_active;
  }
