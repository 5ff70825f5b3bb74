-- ===== src/Examples/Network.antt =====
-- The theorems on peers and relays of core/src/runtime/event_loop.rs at concrete inputs.
use swarm_p2p.Prelude.{ℕ, ◌≡◌, refl, true, false, some, [], ◌∷◌, List, arith}
use swarm_p2p.DataChannel.{PeerId}
use swarm_p2p.Config.{off, default_lan_helper, default_relay_limits, default_config, NodeConfig}
use swarm_p2p.Node.{SwarmBuilder}
use swarm_p2p.Node
use swarm_p2p.Node.Ends.{StartEnds, start-StartEnds}
use swarm_p2p.Error.{ok}
use swarm_p2p.Config.Build.{
  Setting, with_helper, mdns, kad_server_mode, plan_behaviour, configure, helper_of, plan-configure,
}
use swarm_p2p.Swarm.{SwarmEvent, connection_established, connection_closed, mdns_discovered}
use swarm_p2p.Swarm.Addr.{Multiaddr, Ipv4Addr, ip4, tcp}
use swarm_p2p.EventLoop.Convert.{convert_to_node_event}
use swarm_p2p.EventLoop.Convert.Peers.{
  History, start, established, closed, put, view_after, view_after-Connected, connected_in,
}
use swarm_p2p.EventLoop.Convert.Discovery.{IsSteady, dials, discovered-dials}
use swarm_p2p.EventLoop.Lan.{usable_protocol}
use swarm_p2p.EventLoop.Lan.Usable.{usable_protocol-ip4}
use swarm_p2p.Examples.{types, network}
use swarm_p2p.Examples.Loop.{loop, env}

abbrev addr : Multiaddr
addr = ip4 (record { a = 10; b = 0; c = 0; d = 1 }) ∷ tcp 4001 ∷ []

-- Peer 7 connects twice and closes both connections, then peer 8 connects.
abbrev connections : List (SwarmEvent types)
connections =
    connection_established 8 1
    ∷ connection_closed 7 0
    ∷ connection_closed 7 1
    ∷ connection_established 7 2
    ∷ connection_established 7 1
    ∷ []

abbrev counts : PeerId → ℕ
counts = put 8 1 (put 7 0 (put 7 1 (put 7 2 (put 7 1 (λ p. 0)))))

connections-History : History {T = types} connections counts
connections-History =
    established 8 (closed 7 0 refl (closed 7 1 refl (established 7 (established 7 start))))

view_after-Connected_example :
    view_after network env (loop off) connections ≡ some (connected_in counts)
view_after-Connected_example =
    view_after-Connected network env (loop off) connections counts connections-History

network-IsSteady : IsSteady network
network-IsSteady = record { after_dial = λ trace q p. refl; after_address = λ trace q a p. refl }

-- Peer 7 has two addresses; peer 9 is connected.
abbrev found : List (PeerId × Multiaddr)
found = (7, addr) ∷ (9, addr) ∷ (7, addr) ∷ []

discovered-dials_example :
    dials 7 (convert_to_node_event network env (mdns_discovered found) (loop off)).0.trace ≡ 1
discovered-dials_example =
    discovered-dials network network-IsSteady env (λ test peers. refl) found (loop off) 7

abbrev ip : Ipv4Addr
ip = record { a = 172; b = 20; c = 0; d = 1 }

usable_protocol-ip4_example : usable_protocol (ip4 ip) ≡ true
usable_protocol-ip4_example = usable_protocol-ip4 ip (record {
  a_fits = omega arith;
  b_fits = omega arith;
  c_fits = omega arith;
  d_fits = omega arith;
})

abbrev settings : List Setting
settings = with_helper default_lan_helper ∷ mdns false ∷ kad_server_mode false ∷ []

plan-configure_example :
    ((plan_behaviour (configure settings (default_config "1"))).relay_server
      ≡ some default_relay_limits)
    × ((plan_behaviour (configure settings (default_config "1"))).kad_forced_server ≡ true)
unfolding helper_of
plan-configure_example = plan-configure settings (default_config "1")

abbrev config : NodeConfig
config = record (default_config "1") {
  bootstrap_peers = (7, addr) ∷ (7, addr) ∷ [];
  enable_mdns = false;
}

abbrev builder : SwarmBuilder types
builder = record {
  with_tcp = ok tt;
  with_dns = ok tt;
  with_relay_client = ok tt;
  with_behaviour = λ plan. ok tt;
  build = λ plan idle. network;
}

start-StartEnds_example : StartEnds builder config (Node.start {C = ℕ} builder config 0)
start-StartEnds_example = start-StartEnds builder config ℕ 0
