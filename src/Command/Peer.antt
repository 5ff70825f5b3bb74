-- ===== src/Command/Peer.antt =====
-- core/src/command: dial.rs, disconnect.rs, is_connected.rs,
-- add_peer_addrs.rs and add_infrastructure_peer.rs.
pub mod Outcomes
use swarm_p2p.Prelude.{
  Bool, true, false, ◌&&◌, Option, none, some, List, [], ◌∷◌, ◌==◌, if◌then◌else◌, prefixed,
}
use swarm_p2p.DataChannel.{PeerId}
use swarm_p2p.Error.{Error, Result, ok, err}
use swarm_p2p.Swarm.{
  Types, Swarm, Trace, SwarmEvent, connection_established, connection_closed,
  outgoing_connection_error, dial, disconnect_peer_id, add_peer_address, kad_add_address,
}
use swarm_p2p.Swarm.Addr.{Multiaddr}
use swarm_p2p.Command.{
  Ran, Answer, RelayRequest, CommandHandler, default_on_event, no_relay_request, pass_on,
}

pub record DialCommand : Type 0 where
  pub peer_id : PeerId

pub record DisconnectCommand : Type 0 where
  pub peer_id : PeerId

pub record IsConnectedCommand : Type 0 where
  pub peer_id : PeerId

pub record AddPeerAddrsCommand : Type 0 where
  pub peer_id : PeerId
  pub addrs : List Multiaddr

-- core/src/config.rs.
pub record InfrastructureRoles : Type 0 where
  pub kad_server : Bool
  pub relay_server : Bool

abbrev pub kad_server_role : InfrastructureRoles
kad_server_role = record { kad_server = true; relay_server = false }

abbrev pub relay_server_role : InfrastructureRoles
relay_server_role = record { kad_server = false; relay_server = true }

abbrev pub kad_and_relay : InfrastructureRoles
kad_and_relay = record { kad_server = true; relay_server = true }

pub record AddInfrastructurePeerCommand : Type 0 where
  pub peer_id : PeerId
  pub addrs : List Multiaddr
  pub roles : InfrastructureRoles
  pub pending_relay_addrs : Option (List Multiaddr)

abbrev pub new_add_infrastructure_peer :
    PeerId → List Multiaddr → InfrastructureRoles → AddInfrastructurePeerCommand
new_add_infrastructure_peer peer_id addrs roles = record {
  peer_id = peer_id;
  addrs = addrs;
  roles = roles;
  pending_relay_addrs = none;
}

-- Done, but the event goes on to the other commands and to the front end.
abbrev pub done_and_pass :
    {T : Types} {C R : Type 0} → C → Result R Error → SwarmEvent T → Answer T C R
done_and_pass c r event = record {
  command = c;
  finished = some r;
  keep = false;
  remaining = some event;
}

module _ {T : Types} (sw : Swarm T) where
  unfoldable pub run_dial : DialCommand → Trace T → Ran T DialCommand (Unit {0})
  run_dial c trace =
      if sw.is_connected trace c.peer_id
      then record { command = c; trace = trace; finished = some (ok tt) }
      else record {
        command = c;
        trace = dial c.peer_id ∷ trace;
        finished = elim (sw.dial_answer trace c.peer_id) [
          | ok u ↦ none
          | err e ↦ some (err (Error.dial e))
        ];
      }

  unfoldable pub run_disconnect : DisconnectCommand → Trace T → Ran T DisconnectCommand (Unit {0})
  run_disconnect c trace = record {
    command = c;
    trace = disconnect_peer_id c.peer_id ∷ trace;
    finished = elim (sw.disconnect_answer trace c.peer_id) [
      | ok u ↦ none
      | err u ↦ some (
          err (
            Error.dial
              (prefixed "peer " (prefixed (sw.display_peer c.peer_id) " is not connected"))))
    ];
  }

  unfoldable pub run_is_connected : IsConnectedCommand → Trace T → Ran T IsConnectedCommand Bool
  run_is_connected c trace = record {
    command = c;
    trace = trace;
    finished = some (ok (sw.is_connected trace c.peer_id));
  }

  unfoldable pub add_addresses : PeerId → List Multiaddr → Trace T → Trace T
  add_addresses peer [] trace = trace
  add_addresses peer (addr ∷ addrs) trace =
      add_addresses peer addrs (add_peer_address peer addr ∷ trace)

  unfoldable pub run_add_peer_addrs :
      AddPeerAddrsCommand → Trace T → Ran T AddPeerAddrsCommand (Unit {0})
  unfolding add_addresses
  run_add_peer_addrs c trace = record {
    command = c;
    trace = add_addresses c.peer_id c.addrs trace;
    finished = some (ok tt);
  }

  unfoldable pub register_addresses : PeerId → Bool → List Multiaddr → Trace T → Trace T
  register_addresses peer kad_server [] trace = trace
  register_addresses peer kad_server (addr ∷ addrs) trace =
      let trace' : Trace T = add_peer_address peer addr ∷ trace in
      register_addresses peer kad_server addrs
        (if kad_server then kad_add_address peer addr ∷ trace' else trace')

  -- A failed dial is logged only: the command succeeds in every case.
  unfoldable pub run_add_infrastructure_peer :
      AddInfrastructurePeerCommand → Trace T → Ran T AddInfrastructurePeerCommand (Unit {0})
  unfolding register_addresses
  run_add_infrastructure_peer c trace =
      let trace' = register_addresses c.peer_id c.roles.kad_server c.addrs trace in
      record {
        command =
            if c.roles.relay_server && sw.relay_client_is_enabled trace'
            then record c { pending_relay_addrs = some c.addrs }
            else c;
        trace = if sw.is_connected trace' c.peer_id then trace' else dial c.peer_id ∷ trace';
        finished = some (ok tt);
      }

unfoldable pub on_event_dial :
    {T : Types} → DialCommand → SwarmEvent T → Answer T DialCommand (Unit {0})
on_event_dial c (connection_established peer n) =
    if peer == c.peer_id
    then done_and_pass c (ok tt) (connection_established peer n)
    else pass_on c (connection_established peer n)
on_event_dial c (outgoing_connection_error (some peer) e) =
    if peer == c.peer_id
    then done_and_pass c (err (Error.dial e)) (outgoing_connection_error (some peer) e)
    else pass_on c (outgoing_connection_error (some peer) e)
on_event_dial c event = pass_on c event

unfoldable pub on_event_disconnect :
    {T : Types} → DisconnectCommand → SwarmEvent T → Answer T DisconnectCommand (Unit {0})
on_event_disconnect c (connection_closed peer n) =
    if peer == c.peer_id && n == 0
    then done_and_pass c (ok tt) (connection_closed peer n)
    else pass_on c (connection_closed peer n)
on_event_disconnect c event = pass_on c event

unfoldable pub take_relay_request :
    AddInfrastructurePeerCommand → AddInfrastructurePeerCommand × RelayRequest
take_relay_request c = (
  record c { pending_relay_addrs = none },
  elim c.pending_relay_addrs [ none ↦ none | some addrs ↦ some (c.peer_id, addrs) ],
)

module _ {T : Types} (sw : Swarm T) where
  abbrev pub dial_handler : CommandHandler T DialCommand (Unit {0})
  dial_handler = record {
    run = run_dial sw;
    on_event = on_event_dial;
    take_relay_reservation_request = no_relay_request;
  }

  abbrev pub disconnect_handler : CommandHandler T DisconnectCommand (Unit {0})
  disconnect_handler = record {
    run = run_disconnect sw;
    on_event = on_event_disconnect;
    take_relay_reservation_request = no_relay_request;
  }

  abbrev pub is_connected_handler : CommandHandler T IsConnectedCommand Bool
  is_connected_handler = record {
    run = run_is_connected sw;
    on_event = default_on_event;
    take_relay_reservation_request = no_relay_request;
  }

  abbrev pub add_peer_addrs_handler : CommandHandler T AddPeerAddrsCommand (Unit {0})
  add_peer_addrs_handler = record {
    run = run_add_peer_addrs sw;
    on_event = default_on_event;
    take_relay_reservation_request = no_relay_request;
  }

  abbrev pub add_infrastructure_peer_handler :
      CommandHandler T AddInfrastructurePeerCommand (Unit {0})
  add_infrastructure_peer_handler = record {
    run = run_add_infrastructure_peer sw;
    on_event = default_on_event;
    take_relay_reservation_request = take_relay_request;
  }
