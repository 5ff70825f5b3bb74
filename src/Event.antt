-- ===== src/Event.antt =====
-- core/src/event.rs: the events that a node reports to its user.
use swarm_p2p.Prelude.{ℕ, String, Bool, Option, List}
use swarm_p2p.DataChannel.{PeerId}
use swarm_p2p.Swarm.{Types}
use swarm_p2p.Swarm.Addr.{Multiaddr}

pub data NatStatus : Type 0 where
  public unknown : NatStatus

pub data NodeEvent (T : Types) : Type 0 where
  listening : Multiaddr → NodeEvent T
  peers_discovered : List (PeerId × Multiaddr) → NodeEvent T
  peer_connected peer_disconnected : PeerId → NodeEvent T
  identify_received : PeerId → String → String → List Multiaddr → List String → NodeEvent T
  ping_success : PeerId → ℕ → NodeEvent T
  nat_status_changed : NatStatus → Option Multiaddr → NodeEvent T
  hole_punch_succeeded : PeerId → NodeEvent T
  hole_punch_failed : PeerId → String → NodeEvent T
  relay_reservation_accepted : PeerId → Bool → NodeEvent T
  relay_server_reservation_accepted : PeerId → Bool → NodeEvent T
  relay_server_reservation_denied : PeerId → String → NodeEvent T
  relay_server_reservation_closed : PeerId → NodeEvent T
  relay_server_circuit_accepted : PeerId → PeerId → NodeEvent T
  relay_server_circuit_denied : PeerId → PeerId → String → NodeEvent T
  relay_server_circuit_closed : PeerId → PeerId → NodeEvent T
  lan_helper_status_changed : Bool → List Multiaddr → NodeEvent T
  inbound_request : PeerId → ℕ → T.Req → NodeEvent T
