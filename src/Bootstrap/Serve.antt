-- ===== src/Bootstrap/Serve.antt =====
-- bootstrap/src/lib.rs: `run` and `handle_event`, with util/signal.rs: `select!` yields events of the
-- swarm, and at some time perhaps the signal to shut down, Ctrl+C or SIGTERM.
use swarm_p2p.Prelude.{
  ℕ, String, Bool, true, false, Option, none, some, List, [], ◌∷◌, ◌==◌, ◌||◌, Poll, ready, pending,
}
use swarm_p2p.Prelude.{if◌then◌else◌}
use swarm_p2p.DataChannel.{PeerId}
use swarm_p2p.Error.{Result, ok, err}
use swarm_p2p.Bootstrap.{RelayLimits, BootstrapPlan, new_behaviour}
use swarm_p2p.Swarm.Addr.{Multiaddr}

-- The events that `handle_event` tells apart. Those of Kademlia, relay and AutoNAT that are only
-- shown whole are their `Debug` texts.
pub data BootstrapEvent : Type 0 where
  new_listen_addr : Multiaddr → BootstrapEvent
  connection_established connection_closed : PeerId → ℕ → BootstrapEvent
  identify_received : PeerId → String → String → BootstrapEvent
  kad_routing_updated : PeerId → BootstrapEvent
  kad_other relay : String → BootstrapEvent
  autonat : Multiaddr → PeerId → String → BootstrapEvent
  incoming_connection outgoing_connection_error : String → BootstrapEvent
  incoming_connection_error : String → BootstrapEvent
  other_event : BootstrapEvent

-- What is logged, all at the level info but for the two that say `debug`.
pub data LogLine : Type 0 where
  listening_on : Multiaddr → LogLine
  peer_connected peer_disconnected : PeerId → LogLine
  identified_peer : PeerId → String → String → LogLine
  routing_updated : PeerId → LogLine
  debug_kad : String → LogLine
  relay_event : String → LogLine
  tested : Multiaddr → PeerId → String → LogLine
  debug_connection : String → LogLine

unfoldable pub handle_event : BootstrapEvent → Option LogLine
handle_event (new_listen_addr address) = some (listening_on address)
handle_event (connection_established peer n) = if n == 1 then some (peer_connected peer) else none
handle_event (connection_closed peer n) = if n == 0 then some (peer_disconnected peer) else none
handle_event (identify_received peer agent protocol) = some (identified_peer peer agent protocol)
handle_event (kad_routing_updated peer) = some (routing_updated peer)
handle_event (kad_other event) = some (debug_kad event)
handle_event (relay event) = some (relay_event event)
handle_event (autonat addr client result) = some (tested addr client result)
handle_event (incoming_connection event) = some (debug_connection event)
handle_event (outgoing_connection_error event) = some (debug_connection event)
handle_event (incoming_connection_error event) = some (debug_connection event)
handle_event other_event = none

-- One poll of `shutdown_signal` on unix, by whether either signal has come.
abbrev pub shutdown_signal : Bool → Bool → Poll (Unit {0})
shutdown_signal ctrl_c sigterm = if ctrl_c || sigterm then ready tt else pending

pub data Selected : Type 0 where
  event : BootstrapEvent → Selected
  shutdown : Selected

abbrev pub logged : Option LogLine → List LogLine → List LogLine
logged none lines = lines
logged (some line) lines = line ∷ lines

-- The loop over what `select!` yields. Its lines, and whether it has ended.
unfoldable pub serve : List Selected → List LogLine × Bool
serve [] = ([], false)
serve (shutdown ∷ rest) = ([], true)
serve (event e ∷ rest) = let (lines, ended) = serve rest in (logged (handle_event e) lines, ended)

-- The calls of the swarm, newest first, and what it answers.
pub data SwarmCall : Type 0 where
  listen_on add_external_address : Multiaddr → SwarmCall

pub record ServerSwarm : Type 0 where
  pub built : BootstrapPlan → ℕ → Result (Unit {0}) String
  pub listen_answer : List SwarmCall → Multiaddr → Result (Unit {0}) String

-- `plan` is the behaviour that the swarm is built with. `ended` is the result of `run`, once it has
-- returned.
pub record Served : Type 0 where
  pub plan : BootstrapPlan
  pub calls : List SwarmCall
  pub lines : List LogLine
  pub ended : Option (Result (Unit {0}) String)

abbrev pub failed_with : BootstrapPlan → List SwarmCall → String → Served
failed_with plan calls e = record { plan = plan; calls = calls; lines = []; ended = some (err e) }

abbrev pub add_external_addresses : List Multiaddr → List SwarmCall → List SwarmCall
add_external_addresses [] calls = calls
add_external_addresses (addr ∷ addrs) calls =
    add_external_addresses addrs (add_external_address addr ∷ calls)

abbrev pub serve_after : BootstrapPlan → List SwarmCall → List LogLine × Bool → Served
serve_after plan calls (lines, ended) = record {
  plan = plan;
  calls = calls;
  lines = lines;
  ended = if ended then some (ok tt) else none;
}

-- An error ends `run` at once.
abbrev pub and_then : BootstrapPlan → List SwarmCall → Result (Unit {0}) String → Served → Served
and_then plan calls (ok u) next = next
and_then plan calls (err e) next = failed_with plan calls e

unfoldable pub run :
    ServerSwarm
    → String
    → Multiaddr
    → Multiaddr
    → ℕ
    → List Multiaddr
    → RelayLimits
    → List Selected
    → Served
run sw version tcp_addr quic_addr idle_timeout external_addrs relay_limits selected =
    let plan = new_behaviour version relay_limits in
    let after_tcp = listen_on tcp_addr ∷ [] in
    let after_quic = listen_on quic_addr ∷ after_tcp in
    and_then plan [] (sw.built plan idle_timeout) (
      and_then plan after_tcp (sw.listen_answer [] tcp_addr) (
        and_then plan after_quic (sw.listen_answer after_tcp quic_addr)
          (serve_after plan (add_external_addresses external_addrs after_quic) (serve selected))))
