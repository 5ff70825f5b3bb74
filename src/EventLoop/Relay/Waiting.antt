-- ===== src/EventLoop/Relay/Waiting.antt =====
-- The addresses that wait for a peer to be identified, core/src/runtime/event_loop.rs, and their number.
use swarm_p2p.Prelude.{
  ℕ, ◌+◌, ◌≡◌, refl, none, List, [], ◌∷◌, ◌++◌, length, length-append, unwrap_or, arith,
}
use swarm_p2p.Prelude.Map.{Map, get, insert, remove, IsMap, insert-IsMap}
use swarm_p2p.DataChannel.{PeerId}
use swarm_p2p.Swarm.Addr.{Multiaddr}
use swarm_p2p.EventLoop.{remember}

-- How many addresses a map of addresses holds.
abbrev pub total : Map (List Multiaddr) → ℕ
total [] = 0
total ((peer, addrs) ∷ m) = length addrs + total m

abbrev pub held : PeerId → Map (List Multiaddr) → ℕ
held peer m = length (unwrap_or (get peer m) [])

total-insert :
    (peer : PeerId) (addrs : List Multiaddr) (m : Map (List Multiaddr))
    → total (insert peer addrs m) + held peer m ≡ total m + length addrs
unfolding insert get
total-insert peer addrs [] = omega arith
total-insert peer addrs ((q, v) ∷ m) = ground (arith, total-insert peer addrs m)

remove-absent :
    (peer : PeerId) (m : Map (List Multiaddr)) → get peer m ≡ none → total (remove peer m) ≡ total m
unfolding remove get
remove-absent peer [] e = refl
remove-absent peer ((q, v) ∷ m) e = ground (arith, remove-absent peer m)

pub total-remove :
    (peer : PeerId) (m : Map (List Multiaddr))
    → IsMap m
    → total (remove peer m) + held peer m ≡ total m
unfolding remove get
total-remove peer [] k = omega arith
total-remove peer ((q, v) ∷ m) (absent, k) =
    ground (arith, remove-absent peer m, total-remove peer m k)

pub total-remember :
    (peer : PeerId) (addrs : List Multiaddr) (m : Map (List Multiaddr))
    → total (remember peer addrs m) ≡ total m + length addrs
unfolding remember
total-remember peer addrs m = omega (
  arith,
  total-insert peer (unwrap_or (get peer m) [] ++ addrs) m,
  length-append (unwrap_or (get peer m) []) addrs,
)

pub remember-IsMap :
    (peer : PeerId) (addrs : List Multiaddr) (m : Map (List Multiaddr))
    → IsMap m
    → IsMap (remember peer addrs m)
unfolding remember
remember-IsMap peer addrs m k = insert-IsMap peer (unwrap_or (get peer m) [] ++ addrs) m k
