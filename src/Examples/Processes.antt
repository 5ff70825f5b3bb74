-- ===== src/Examples/Processes.antt =====
-- The theorems on a whole node, core/src/runtime/node.rs and core/src/data_channel.rs, at concrete inputs.
use swarm_p2p.Prelude.{ℕ, ◌≡◌, ◌≤◌, refl, arith, tally, true, List, [], ◌∷◌}
use swarm_p2p.DataChannel.Open.{OpenInit, waiting, answered}
use swarm_p2p.Error.{ok}
use swarm_p2p.Config.{NodeConfig, default_config, default_lan_helper, lan_helper}
use swarm_p2p.Swarm.{new_listen_addr, request_message, identify_received, listen_on}
use swarm_p2p.Swarm.Addr.{Multiaddr, ip4, tcp}
use swarm_p2p.DataChannel.{PeerId}
use swarm_p2p.Command.Peer.{
  InfrastructureRoles, relay_server_role, kad_server_role, kad_and_relay,
  new_add_infrastructure_peer,
}
use swarm_p2p.EventLoop.Relay.Conserved.{balance}
use swarm_p2p.Node.Process.Relay.Always.{moves-balance}
use swarm_p2p.Command.Active.Queue.{Active, dialing, adding_infrastructure, active_trait}
use swarm_p2p.EventLoop.{EventLoop, start_listen, connect_bootstrap_peers}
use swarm_p2p.EventLoop.Run.{command, inbound_channel, swarm_event}
use swarm_p2p.Node.{start_node, loop_of}
use swarm_p2p.Node.Process.{
  Move, turned, asked, polled_at, abandoned_at, received, unheard, dropped_at, unwrapped_at,
  launched, moves,
}
use swarm_p2p.Node.Process.Quota.{IsWithin}
use swarm_p2p.Node.Process.Quota.Always.{moves-IsWithin}
use swarm_p2p.Handle.{new_handle}
use swarm_p2p.EventLoop.Lan.Advertised.{Advertises}
use swarm_p2p.Node.Process.Lan.Always.{moves-Advertises}
use swarm_p2p.PendingMap.History.{Every}
use swarm_p2p.Node.Process.Replies.Uses.{Use, moved, answered, cleaned, used, uses, answers}
use swarm_p2p.Node.Process.Replies.InTime.{asks, answer-in_time}
use swarm_p2p.Node.Process.Replies.Always.{Placed, is_under, answers-of_requests}
use swarm_p2p.Node.Process.Ids.Always.{IsNumbered, moves-IsNumbered}
use swarm_p2p.Examples.{types, network, limits, limits-IsUsize}
use swarm_p2p.Examples.Loop.{env}

abbrev config : NodeConfig
config = record (default_config "1") { listen_addrs = []; data_channel_limits = limits }

abbrev loop : EventLoop types (Active types)
loop = loop_of config 0 []

loop_started : (start_node network config 0).1 ≡ ok loop
unfolding start_node start_listen connect_bootstrap_peers default_config
loop_started = refl

abbrev wanted : OpenInit
wanted = record { peer_id = 7; protocol = 1; open_timeout = 30 }

-- Two streams of peer 7, of which the second is over the limit, and a channel opened to it.
abbrev schedule : List (Move network (active_trait network))
schedule =
    turned env (inbound_channel 1 7 3)
    ∷ turned env (inbound_channel 1 7 4)
    ∷ asked wanted
    ∷ polled_at 0 waiting
    ∷ turned env (swarm_event (new_listen_addr (tcp 1 ∷ [])))
    ∷ received
    ∷ polled_at 0 (answered (ok 5))
    ∷ asked wanted
    ∷ polled_at 0 waiting
    ∷ dropped_at 0
    ∷ unheard
    ∷ unwrapped_at 0
    ∷ abandoned_at 0
    ∷ []

moves-IsWithin_example :
    IsWithin limits (moves network (active_trait network) schedule (launched loop))
unfolding default_config
moves-IsWithin_example =
    moves-IsWithin network (active_trait network) config 0 loop schedule loop_started limits-IsUsize

moves-IsNumbered_example :
    IsNumbered 0 13 (moves network (active_trait network) schedule (launched loop))
moves-IsNumbered_example =
    moves-IsNumbered network (active_trait network) config 0 loop schedule loop_started
      (omega arith)

abbrev helper_config : NodeConfig
helper_config = record config { infrastructure_mode = lan_helper default_lan_helper }

abbrev helper : EventLoop types (Active types)
helper = loop_of helper_config 0 []

helper_started : (start_node network helper_config 0).1 ≡ ok helper
unfolding start_node start_listen connect_bootstrap_peers default_config
helper_started = refl

abbrev private : Multiaddr
private = ip4 (record { a = 192; b = 168; c = 1; d = 10 }) ∷ tcp 4001 ∷ []

-- A LAN address, the same again, one that is no LAN address, and a dial.
abbrev listening : List (Move network (active_trait network))
listening =
    turned env (swarm_event (new_listen_addr private))
    ∷ turned env (swarm_event (new_listen_addr private))
    ∷ turned env (swarm_event (new_listen_addr (tcp 1 ∷ [])))
    ∷ turned env
        (command (dialing (record { handler = record { peer_id = 7 }; handle = new_handle })))
    ∷ []

moves-Advertises_example :
    Advertises (moves network (active_trait network) listening (launched helper)).loop
moves-Advertises_example = moves-Advertises network helper_config 0 helper listening helper_started

abbrev relay_config : NodeConfig
relay_config = record config {
  listen_addrs = private ∷ [];
  bootstrap_peers = (7, private) ∷ (7, private) ∷ [];
}

abbrev relayed : EventLoop types (Active types)
relayed =
    connect_bootstrap_peers relay_config.bootstrap_peers
      (loop_of relay_config 0 (listen_on private ∷ []))

relayed_started : (start_node network relay_config 0).1 ≡ ok relayed
unfolding start_node start_listen connect_bootstrap_peers default_config
relayed_started = refl

abbrev infrastructure : PeerId → InfrastructureRoles → Active types
infrastructure peer roles = adding_infrastructure (record {
  handler = new_add_infrastructure_peer peer (private ∷ []) roles;
  handle = new_handle;
})

-- A relay that is connected, one that is not, a peer that is no relay, and peer 7's identity.
abbrev reserving : List (Move network (active_trait network))
reserving =
    turned env (command (infrastructure 9 relay_server_role))
    ∷ turned env (command (infrastructure 8 kad_and_relay))
    ∷ turned env (command (infrastructure 6 kad_server_role))
    ∷ turned env (
        swarm_event (
          identify_received 7 (record {
            protocol_version = "1";
            agent_version = "a";
            listen_addrs = private ∷ [];
            protocols = [];
          })))
    ∷ []

moves-balance_example :
    balance (moves network (active_trait network) reserving (launched relayed)).loop ≡ 5
unfolding default_config
moves-balance_example =
    moves-balance network true (λ trace. refl) relay_config 0 relayed reserving relayed_started

-- Two requests, of which the second is answered first and twice.
abbrev replying : List (Use network)
replying =
    moved (turned env (swarm_event (request_message 7 1 100)))
    ∷ cleaned 6
    ∷ moved (turned env (swarm_event (request_message 8 1 200)))
    ∷ answered 1
    ∷ answered 1
    ∷ moved unheard
    ∷ answered 0
    ∷ []

answers-of_requests_example :
    Every (Placed (100 ∷ 200 ∷ [])) (answers network replying (launched loop))
    × ((id : ℕ) → tally (is_under id) (answers network replying (launched loop)) ≤ 1)
answers-of_requests_example =
    answers-of_requests network config 0 loop replying loop_started (omega arith)

-- A turn of the cleaner, a further request and its answer.
abbrev between : List (Use network)
between =
    cleaned 20
    ∷ moved (turned env (swarm_event (request_message 9 3 300)))
    ∷ answered 3
    ∷ moved received
    ∷ []

answer-in_time_example :
    let earlier = uses network replying (launched loop) in
    let arrived = used network (asks network env 7 4 400) earlier in
    (used network (answered 2) (uses network between arrived.1)).0 ≡ (2, 400) ∷ []
unfolding default_config
answer-in_time_example =
    answer-in_time network config 0 loop replying env 7 4 400 between loop_started (omega arith)
      (omega arith, (tt, (refl, (tt, tt))))
