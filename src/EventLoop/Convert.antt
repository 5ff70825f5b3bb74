-- ===== src/EventLoop/Convert.antt =====
-- core/src/runtime/event_loop.rs: `convert_to_node_event` and `convert_relay_server_event`.
pub mod Pending
pub mod Discovery
pub mod Peers
use Prim.Native.String.{compare}
use Prim.Native.Nat.{Ordering}
use swarm_p2p.Prelude.{
  ℕ, String, Bool, true, false, ◌||◌, Option, none, some, List, [], ◌∷◌, ◌==◌, if◌then◌else◌,
  word_add, word_mod, ◌%◌,
}
use swarm_p2p.Prelude.Map.{get, remove}
use swarm_p2p.DataChannel.{PeerId}
use swarm_p2p.Error.{Result, ok, err}
use swarm_p2p.Event.{
  NodeEvent, public, listening, peers_discovered, peer_connected, peer_disconnected, ping_success,
  nat_status_changed, hole_punch_succeeded, hole_punch_failed, relay_reservation_accepted,
  relay_server_reservation_accepted, relay_server_reservation_denied,
  relay_server_reservation_closed, relay_server_circuit_accepted, relay_server_circuit_denied,
  relay_server_circuit_closed, inbound_request,
}
use swarm_p2p.Event
use swarm_p2p.PendingMap.{insert_pending}
use swarm_p2p.Swarm.{
  Types, Swarm, Trace, SwarmEvent, IdentifyInfo, RelayClientEvent, RelayServerEvent,
  kad_add_address, add_peer_address, dial, reservation_accepted, accepted, denied, closed,
  timed_out, circuit_accepted, circuit_denied, circuit_closed, transient_failure, relay_client,
  relay_server, new_listen_addr, connection_established, connection_closed, request_message, dcutr,
  mdns_discovered, identify_received, autonat, kad_routing_updated,
}
use swarm_p2p.Swarm
use swarm_p2p.Swarm.Addr.{Multiaddr}
use swarm_p2p.EventLoop.{EventLoop, Env}
use swarm_p2p.EventLoop.Relay.{any, request_relay_reservations}
use swarm_p2p.EventLoop.Lan.{maybe_announce_lan_helper_addr}

abbrev pub same_text : String → String → Bool
same_text s t = elim (compare s t) [ Ordering.eq ↦ true | _ ↦ false ]

abbrev pub peers_of : List (PeerId × Multiaddr) → List PeerId
peers_of [] = []
peers_of ((peer, addr) ∷ peers) = peer ∷ peers_of peers

-- The entries of a list, each once.
unfoldable pub distinct : List ℕ → List ℕ
distinct [] = []
distinct (x ∷ xs) = let rest = distinct xs in if any (λ y. y == x) rest then rest else x ∷ rest

unfoldable pub convert_relay_client_event : {T : Types} → RelayClientEvent → Option (NodeEvent T)
convert_relay_client_event (reservation_accepted relay renewal) =
    some (relay_reservation_accepted relay renewal)
convert_relay_client_event _ = none

unfoldable pub convert_relay_server_event : {T : Types} → RelayServerEvent → Option (NodeEvent T)
convert_relay_server_event (accepted src renewed) =
    some (relay_server_reservation_accepted src renewed)
convert_relay_server_event (denied src status) = some (relay_server_reservation_denied src status)
convert_relay_server_event (closed src) = some (relay_server_reservation_closed src)
convert_relay_server_event (timed_out src) = some (relay_server_reservation_closed src)
convert_relay_server_event (circuit_accepted src dst) = some (relay_server_circuit_accepted src dst)
convert_relay_server_event (circuit_denied src dst status) =
    some (relay_server_circuit_denied src dst status)
convert_relay_server_event (circuit_closed src dst) = some (relay_server_circuit_closed src dst)
convert_relay_server_event transient_failure = none

unfoldable pub add_discovered : {T : Types} → List (PeerId × Multiaddr) → Trace T → Trace T
add_discovered [] trace = trace
add_discovered ((peer, addr) ∷ peers) trace =
    add_discovered peers (add_peer_address peer addr ∷ trace)

unfoldable pub add_to_kad_and_swarm : {T : Types} → PeerId → List Multiaddr → Trace T → Trace T
add_to_kad_and_swarm peer [] trace = trace
add_to_kad_and_swarm peer (addr ∷ addrs) trace =
    add_to_kad_and_swarm peer addrs (add_peer_address peer addr ∷ kad_add_address peer addr ∷ trace)

unfoldable pub sync_addresses : {T : Types} → PeerId → List Multiaddr → Trace T → Trace T
sync_addresses peer [] trace = trace
sync_addresses peer (addr ∷ addrs) trace =
    sync_addresses peer addrs (add_peer_address peer addr ∷ trace)

module _ {T : Types} (sw : Swarm T) where
  unfoldable pub dial_discovered : List PeerId → Trace T → Trace T
  dial_discovered [] trace = trace
  dial_discovered (peer ∷ peers) trace =
      dial_discovered peers (if sw.is_connected trace peer then trace else dial peer ∷ trace)

module _ {T : Types} where
  abbrev pub hole_punched : PeerId → Result (Unit {0}) String → NodeEvent T
  hole_punched peer (ok u) = hole_punch_succeeded peer
  hole_punched peer (err e) = hole_punch_failed peer e

  abbrev pub probed : Multiaddr → Result (Unit {0}) String → Option (NodeEvent T)
  probed addr (ok u) = some (nat_status_changed public (some addr))
  probed addr (err e) = none

  -- A peer is reported on its first connection, and again when its last connection closes.
  abbrev pub on_established : PeerId → ℕ → Option (NodeEvent T)
  on_established peer n = if n == 1 then some (peer_connected peer) else none

  abbrev pub on_closed : PeerId → ℕ → Option (NodeEvent T)
  on_closed peer n = if n == 0 then some (peer_disconnected peer) else none

module _ {T : Types} {C : Type 0} where
  -- The relay reservations that waited for the peer to be identified, if any.
  abbrev pub reserve_remembered : PeerId → Option (List Multiaddr) → EventLoop T C → EventLoop T C
  reserve_remembered peer none s = s
  reserve_remembered peer (some addrs) s = record s {
    trace = request_relay_reservations peer addrs s.trace;
    bootstrap_peers = remove peer s.bootstrap_peers;
  }

  unfoldable pub on_identify : PeerId → IdentifyInfo → EventLoop T C → EventLoop T C
  on_identify peer info s =
      if same_text info.protocol_version s.protocol_version
      then reserve_remembered peer (get peer s.bootstrap_peers)
          (record s { trace = add_to_kad_and_swarm peer info.listen_addrs s.trace })
      else s

  unfoldable pub on_inbound_request :
      Env
      → PeerId
      → T.Req
      → T.ResponseChannel
      → EventLoop T C
      → EventLoop T C × Option (NodeEvent T)
  on_inbound_request env peer request channel s = (
    record s {
      pending_id_counter = word_add s.pending_id_counter 1;
      pending_channels = insert_pending env.now s.pending_id_counter channel s.pending_channels;
    },
    some (inbound_request peer s.pending_id_counter request),
  )

module _ {T : Types} (sw : Swarm T) {C : Type 0} where
  unfoldable pub convert_to_node_event :
      Env → SwarmEvent T → EventLoop T C → EventLoop T C × Option (NodeEvent T)
  convert_to_node_event env (relay_client e) s = (s, convert_relay_client_event e)
  convert_to_node_event env (relay_server e) s = (s, convert_relay_server_event e)
  convert_to_node_event env (new_listen_addr addr) s =
      (maybe_announce_lan_helper_addr sw env addr s, some (listening addr))
  convert_to_node_event env (connection_established peer n) s = (s, on_established peer n)
  convert_to_node_event env (connection_closed peer n) s = (s, on_closed peer n)
  convert_to_node_event env (request_message peer request channel) s =
      on_inbound_request env peer request channel s
  convert_to_node_event env (dcutr peer result) s = (s, some (hole_punched peer result))
  convert_to_node_event env (mdns_discovered peers) s = (
    record s {
      trace =
          dial_discovered sw (env.set_order (distinct (peers_of peers)))
            (add_discovered peers s.trace);
    },
    some (peers_discovered peers),
  )
  convert_to_node_event env (Swarm.ping_success peer rtt) s =
      (s, some (ping_success peer (rtt % word_mod)))
  convert_to_node_event env (identify_received peer info) s = (
    on_identify peer info s,
    some (
        Event.identify_received peer info.agent_version info.protocol_version info.listen_addrs
          info.protocols),
  )
  convert_to_node_event env (autonat addr server result) s = (s, probed addr result)
  convert_to_node_event env (kad_routing_updated peer addrs) s =
      (record s { trace = sync_addresses peer addrs s.trace }, none)
  convert_to_node_event env _ s = (s, none)
