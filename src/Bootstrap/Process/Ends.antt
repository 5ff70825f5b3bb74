-- ===== src/Bootstrap/Process/Ends.antt =====
-- What becomes of a process of bootstrap/src/main.rs that is told to run a node.
use swarm_p2p.Prelude.{◌≡◌, ◌⊎◌, true, List, [], ◌∷◌}
use swarm_p2p.DataChannel.{PeerId}
use swarm_p2p.Bootstrap.{BootstrapPlan, new_behaviour}
use swarm_p2p.Bootstrap.Identity.{Keys, Fs}
use swarm_p2p.Bootstrap.Serve.{
  BootstrapEvent, LogLine, SwarmCall, listen_on, handle_event, logged, serve, Served,
  add_external_addresses, serve_after,
}
use swarm_p2p.Bootstrap.Serve
use swarm_p2p.Bootstrap.Cli.{RunArgs, Launch}
use swarm_p2p.Bootstrap.Process.{World, Process, of_served}
use swarm_p2p.Bootstrap.Process.Outcome.{Accepts, Serves, Fails}

module _ (K : Keys) (w : World) (args : RunArgs) (start fs : Fs) (id : PeerId) (l : Launch)
    (accepts : Accepts K w args start l) (up : w.runtime_builds ≡ true) where
  abbrev Ends : Served → Type 0
  Ends x = Serves K w args start (of_served fs id x) ⊎ Fails K w args start (of_served fs id x)

  abbrev plan : BootstrapPlan
  plan = new_behaviour w.version l.relay_limits

  abbrev after_tcp : List SwarmCall
  after_tcp = listen_on l.tcp_addr ∷ []

  abbrev after_quic : List SwarmCall
  after_quic = listen_on l.quic_addr ∷ after_tcp

  abbrev last : Served
  last = serve_after plan (add_external_addresses l.external_addrs after_quic) (serve w.selected)

module _ (K : Keys) (w : World) (args : RunArgs) (start : Fs) where
  abbrev MainEnds : Process → Type 0
  MainEnds p = Serves K w args start p ⊎ Fails K w args start p
