-- ===== src/EventLoop/Relay.antt =====
-- core/src/runtime/event_loop.rs: `request_relay_reservations`.
pub mod Waiting
pub mod Conserved
use swarm_p2p.Prelude.{Bool, true, false, ◌||◌, List, [], ◌∷◌, ◌++◌, if◌then◌else◌}
use swarm_p2p.DataChannel.{PeerId}
use swarm_p2p.Swarm.{Types, Trace, listen_on}
use swarm_p2p.Swarm.Addr.{Multiaddr, Protocol, p2p, p2p_circuit}

abbrev pub is_p2p : Protocol → Bool
is_p2p (p2p peer) = true
is_p2p _ = false

abbrev pub any {ℓ} : {A : Type ℓ} → (A → Bool) → List A → Bool
any test [] = false
any test (x ∷ xs) = test x || any test xs

-- The address of a circuit over the relay `peer`, which stands at `addr`.
unfoldable pub relay_addr : PeerId → Multiaddr → Multiaddr
relay_addr peer addr = (if any is_p2p addr then addr else addr ++ p2p peer ∷ []) ++ p2p_circuit ∷ []

-- A failure to listen is only logged.
unfoldable pub request_relay_reservations :
    {T : Types} → PeerId → List Multiaddr → Trace T → Trace T
request_relay_reservations peer [] trace = trace
request_relay_reservations peer (addr ∷ addrs) trace =
    request_relay_reservations peer addrs (listen_on (relay_addr peer addr) ∷ trace)
