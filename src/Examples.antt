-- ===== src/Examples.antt =====
-- A concrete network on which the theorems are applied, and small runs of the code.
pub mod Quota
pub mod Pending
pub mod Futures
pub mod Queries
pub mod Loop
pub mod Network
pub mod AddrOrder
pub mod Peers
pub mod Turns
pub mod Calls
pub mod Servers
pub mod Processes
use swarm_p2p.Prelude.{ℕ, ◌+◌, true, false, some, [], ◌∷◌, ◌==◌}
use swarm_p2p.DataChannel.{DataChannelLimits}
use swarm_p2p.DataChannel.Quota.{IsUsize}
use swarm_p2p.Error.{ok}
use swarm_p2p.Swarm.{Types, Swarm}
use swarm_p2p.Prelude.{arith}
use swarm_p2p.Swarm.Addr.{tcp}
use AddrOrder.{addr_le}

abbrev pub types : Types
types = record { Req = ℕ; Resp = ℕ; Record = ℕ; RecordKey = ℕ; QueryStats = ℕ; ResponseChannel = ℕ }

-- Peer 9 is connected, every call is accepted, and every query gets the id 5.
abbrev pub network : Swarm types
network = record {
  is_connected = λ trace p. p == 9;
  listeners = λ trace. (tcp 2 ∷ []) ∷ (tcp 1 ∷ []) ∷ (tcp 2 ∷ []) ∷ [];
  external_addresses = λ trace. (tcp 1 ∷ []) ∷ [];
  addr_le = addr_le;
  relay_client_is_enabled = λ trace. true;
  relay_server_is_enabled = λ trace. false;
  dial_answer = λ trace p. ok tt;
  disconnect_answer = λ trace p. ok tt;
  listen_answer = λ trace addr. ok tt;
  bootstrap_answer = λ trace. ok 5;
  put_record_answer = λ trace r. ok 5;
  start_providing_answer = λ trace k. ok 5;
  closest_peers_query = λ trace k. 5;
  providers_query = λ trace k. 5;
  record_query = λ trace k. 5;
  request_id = λ trace p r. 3;
  response_answer = λ trace c r. ok tt;
  display_peer = λ p. "peer";
  merge = λ s t. s + t;
  duration = λ s. some s;
  num_requests = λ s. s;
  num_successes = λ s. s;
  num_failures = λ s. 0;
}

abbrev pub limits : DataChannelLimits
limits = record { max_inbound_per_peer = 1; max_outbound_per_peer = 1; max_per_protocol = 2 }

pub limits-IsUsize : IsUsize limits
limits-IsUsize = record {
  inbound_fits = omega arith;
  outbound_fits = omega arith;
  protocol_fits = omega arith;
}
