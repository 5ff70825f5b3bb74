-- ===== src/Node/Started.antt =====
-- What a start of core/src/runtime/node.rs has done when it ends.
use swarm_p2p.Prelude.{
  ℕ, ◌+◌, ◌≡◌, refl, List, [], ◌∷◌, ◌==◌, if◌then◌else◌, String, length, tally, arith,
}
use swarm_p2p.DataChannel.{PeerId}
use swarm_p2p.Error.{Error, Result, ok, err, listen}
use swarm_p2p.Config.{NodeConfig}
use swarm_p2p.Swarm.{Types, Swarm, Trace, listen_on, dial, add_peer_address, kad_add_address}
use swarm_p2p.Swarm.Addr.{Multiaddr}
use swarm_p2p.EventLoop.{EventLoop, remember, listen_next, start_listen, connect_bootstrap_peers}
use swarm_p2p.EventLoop.Relay.Waiting.{total}
use swarm_p2p.EventLoop.Relay.Conserved.{listens, connect-Adds}
use swarm_p2p.EventLoop.Convert.{peers_of}
use swarm_p2p.EventLoop.Convert.Discovery.{dials}
use swarm_p2p.Node.{start_node, after_listening, loop_of}

module _ {T : Types} (sw : Swarm T) where
  -- The swarm accepts each call to listen, one after the other.
  abbrev pub Accepted : List Multiaddr → Trace T → Type 0
  Accepted [] trace = Unit
  Accepted (addr ∷ addrs) trace =
      (sw.listen_answer trace addr ≡ ok tt) × Accepted addrs (listen_on addr ∷ trace)

  -- The first call to listen that the swarm refuses, the trace up to it, and the reason.
  pub data Refused : List Multiaddr → Trace T → Trace T → String → Type 0 where
    now :
        (addr : Multiaddr) (addrs : List Multiaddr) (trace : Trace T) (reason : String)
        → sw.listen_answer trace addr ≡ err reason
        → Refused (addr ∷ addrs) trace (listen_on addr ∷ trace) reason
    later :
        (addr : Multiaddr) (addrs : List Multiaddr) (trace trace' : Trace T) (reason : String)
        → sw.listen_answer trace addr ≡ ok tt
        → Refused addrs (listen_on addr ∷ trace) trace' reason
        → Refused (addr ∷ addrs) trace trace' reason

  -- After the attempts to listen: how many calls, all accepted, or the error of the first that is
  -- not; and no dial.
  abbrev pub Listened : List Multiaddr → Trace T → Trace T × Result (Unit {0}) Error → Type 0
  Listened addrs trace (trace', ok u) =
      (listens trace' ≡ listens trace + length addrs)
      × ((p : PeerId) → dials p trace' ≡ dials p trace)
      × Accepted addrs trace
  Listened addrs trace (trace', err e) =
      ((reason : String) × (e ≡ listen reason) × Refused addrs trace trace' reason)
      × ((p : PeerId) → dials p trace' ≡ dials p trace)

  grown-Listened :
      (addr : Multiaddr) (addrs : List Multiaddr) (trace : Trace T)
      (rest : Trace T × Result (Unit {0}) Error)
      → sw.listen_answer trace addr ≡ ok tt
      → Listened addrs (listen_on addr ∷ trace) rest
      → Listened (addr ∷ addrs) trace rest
  grown-Listened addr addrs trace (trace', ok u) a (n, d, accepted) =
      (omega (arith, n), d, (a, accepted))
  grown-Listened addr addrs trace (trace', err e) a ((reason, same, refused), d) =
      ((reason, same, later addr addrs trace trace' reason a refused), d)

  next-Listened :
      (addr : Multiaddr) (addrs : List Multiaddr) (trace : Trace T)
      (rest : Trace T × Result (Unit {0}) Error) (answer : Result (Unit {0}) String)
      → sw.listen_answer trace addr ≡ answer
      → Listened addrs (listen_on addr ∷ trace) rest
      → Listened (addr ∷ addrs) trace (listen_next rest (listen_on addr ∷ trace) answer)
  next-Listened addr addrs trace rest (ok u) a h = grown-Listened addr addrs trace rest a h
  next-Listened addr addrs trace rest (err reason) a h =
      ((reason, refl, now addr addrs trace reason a), λ p. refl)

  pub start_listen-Listened :
      (addrs : List Multiaddr) (trace : Trace T)
      → Listened addrs trace (start_listen sw addrs trace)
  unfolding start_listen
  start_listen-Listened [] trace = (omega arith, λ p. refl, tt)
  start_listen-Listened (addr ∷ addrs) trace =
      next-Listened addr addrs trace (start_listen sw addrs (listen_on addr ∷ trace))
        (sw.listen_answer trace addr) refl (start_listen-Listened addrs (listen_on addr ∷ trace))

  module _ {C : Type 0} where
    abbrev registering : PeerId → Multiaddr → EventLoop T C → EventLoop T C
    registering peer addr s = record s {
      trace = dial peer ∷ add_peer_address peer addr ∷ kad_add_address peer addr ∷ s.trace;
      bootstrap_peers =
          if s.enable_relay_client
          then remember peer (addr ∷ []) s.bootstrap_peers
          else s.bootstrap_peers;
    }

    dials-connect :
        (peers : List (PeerId × Multiaddr)) (s : EventLoop T C) (p : PeerId)
        → dials p (connect_bootstrap_peers peers s).trace
          ≡ dials p s.trace + tally (λ q. q == p) (peers_of peers)
    unfolding connect_bootstrap_peers
    dials-connect [] s p = omega arith
    dials-connect ((q, addr) ∷ peers) s p =
        ground (arith, dials-connect peers (registering q addr s) p)

    listens-connect :
        (peers : List (PeerId × Multiaddr)) (s : EventLoop T C)
        → listens (connect_bootstrap_peers peers s).trace ≡ listens s.trace
    unfolding connect_bootstrap_peers
    listens-connect [] s = refl
    listens-connect ((q, addr) ∷ peers) s = listens-connect peers (registering q addr s)

    -- What a start ends with.
    abbrev pub Started : NodeConfig → Trace T × Result (EventLoop T C) Error → Type 0
    Started config (trace, err e) =
        ((reason : String) × (e ≡ listen reason) × Refused config.listen_addrs [] trace reason)
        × ((p : PeerId) → dials p trace ≡ 0)
    Started config (trace, ok s) =
        (s.trace ≡ trace)
        × Accepted config.listen_addrs []
        × (listens trace ≡ length config.listen_addrs)
        × ((p : PeerId) → dials p trace ≡ tally (λ q. q == p) (peers_of config.bootstrap_peers))
        × (total s.bootstrap_peers
            ≡ (if config.enable_relay_client then length config.bootstrap_peers else 0))

  module _ (C : Type 0) where
    after_listening-Started :
        (config : NodeConfig) (next_id : ℕ) (r : Trace T × Result (Unit {0}) Error)
        → Listened config.listen_addrs [] r
        → Started config (after_listening {C = C} config next_id r)
    after_listening-Started config next_id (trace, err e) h = h
    after_listening-Started config next_id (trace, ok u) (n, d, accepted) =
        let peers = config.bootstrap_peers in
        let s : EventLoop T C = loop_of config next_id trace in
        (
          refl,
          accepted,
          omega (arith, listens-connect peers s, n),
          λ p. omega (arith, dials-connect peers s p, d p),
          omega (arith, listens-connect peers s, (connect-Adds peers s tt).0),
        )

    pub start_node-Started :
        (config : NodeConfig) (next_id : ℕ) → Started config (start_node {C = C} sw config next_id)
    unfolding start_node
    start_node-Started config next_id =
        after_listening-Started config next_id (start_listen sw config.listen_addrs [])
          (start_listen-Listened config.listen_addrs [])
