-- ===== src/Bootstrap/Process.antt =====
-- bootstrap/src/main.rs: `main`, down to the end of the server's loop.
pub mod Outcome
pub mod Ends
pub mod Identity
use swarm_p2p.Prelude.{ℕ, String, Bool, Option, none, some, List, [], if◌then◌else◌}
use swarm_p2p.DataChannel.{PeerId}
use swarm_p2p.Error.{Result, ok, err}
use swarm_p2p.Swarm.Addr.{Multiaddr}
use swarm_p2p.Bootstrap.{BootstrapPlan}
use swarm_p2p.Bootstrap.Identity.{FilePath, Keys, Fs, KeyError, load_or_generate_keypair}
use swarm_p2p.Bootstrap.Serve.{LogLine, SwarmCall, ServerSwarm, Selected, Served}
use swarm_p2p.Bootstrap.Serve
use swarm_p2p.Bootstrap.Cli.{
  RunArgs, Command, run, peer_id, MainError, key, runtime, node, Launch, launch_of,
  resolve_key_file,
}

-- What a process finds around it. `version` is the crate's, and `selected` is what `select!` yields to the server.
pub record World : Type 0 where
  pub version : String
  pub current_exe : Option FilePath
  pub random : ℕ
  pub display : ℕ → String
  pub parse : String → Result Multiaddr String
  pub runtime_builds : Bool
  pub swarm : ServerSwarm
  pub selected : List Selected

-- `identity` is the peer id that is printed, or logged as the node's. `plan` is the behaviour
-- that a node's swarm is built with. `ended` is the result of `main`, once it has returned.
pub record Process : Type 0 where
  pub fs : Fs
  pub identity : Option PeerId
  pub plan : Option BootstrapPlan
  pub calls : List SwarmCall
  pub lines : List LogLine
  pub ended : Option (Result (Unit {0}) MainError)

abbrev pub stopped : Fs → Option PeerId → Result (Unit {0}) MainError → Process
stopped fs identity result = record {
  fs = fs;
  identity = identity;
  plan = none;
  calls = [];
  lines = [];
  ended = some result;
}

abbrev pub node_result : Option (Result (Unit {0}) String) → Option (Result (Unit {0}) MainError)
node_result none = none
node_result (some (ok u)) = some (ok u)
node_result (some (err e)) = some (err (node e))

abbrev pub of_served : Fs → PeerId → Served → Process
of_served fs id served = record {
  fs = fs;
  identity = some id;
  plan = some served.plan;
  calls = served.calls;
  lines = served.lines;
  ended = node_result served.ended;
}

abbrev pub key_file_of : Command → Option FilePath
key_file_of (run args) = args.key_file
key_file_of (peer_id key_file) = key_file

-- The key file that a command uses.
abbrev pub key_path : World → Command → FilePath
key_path w command = resolve_key_file w.current_exe (key_file_of command)

module _ (K : Keys) (w : World) where
  abbrev pub block_on : Fs → PeerId → Result Launch MainError → Process
  block_on fs id (err e) = stopped fs (some id) (err e)
  block_on fs id (ok l) =
      if w.runtime_builds
      then of_served fs id (
          Serve.run w.swarm w.version l.tcp_addr l.quic_addr l.idle_timeout l.external_addrs
            l.relay_limits w.selected)
      else stopped fs (some id) (err runtime)

  abbrev pub with_key : Command → Fs × Result K.Keypair KeyError → Process
  with_key command (fs, err e) = stopped fs none (err (key e))
  with_key (peer_id key_file) (fs, ok keypair) = stopped fs (some (K.to_peer_id keypair)) (ok tt)
  with_key (run args) (fs, ok keypair) =
      block_on fs (K.to_peer_id keypair) (launch_of w.display w.parse args)

  unfoldable pub main : Command → Fs → Process
  main command fs = with_key command (
      load_or_generate_keypair K (resolve_key_file w.current_exe (key_file_of command)) w.random fs)
