-- ===== src/Bootstrap/Process/Outcome.antt =====
-- How a process of bootstrap/src/main.rs that is told to run a node can end: it serves, or fails at
-- the first step that fails.
use swarm_p2p.Prelude.{
  ◌≤◌, ◌≡◌, Bool, true, false, none, some, List, [], ◌∷◌, String, if◌then◌else◌,
}
use mathlib.Core.List.{map, reverse}
use swarm_p2p.Error.{Result, ok, err}
use swarm_p2p.Bootstrap.{new_behaviour}
use swarm_p2p.Bootstrap.Identity.{Keys, Fs, KeyError, load_or_generate_keypair}
use swarm_p2p.Bootstrap.Serve.{
  BootstrapEvent, LogLine, listen_on, Selected, event, shutdown, handle_event, logged,
  add_external_address,
}
use swarm_p2p.Bootstrap.Cli.{
  RunArgs, run, MainError, key, runtime, node, Launch, launch_of, limits_of, u32_max,
}
use swarm_p2p.Bootstrap.Process.{World, Process, key_path}

-- The events before the first shutdown, and what is logged of them.
abbrev pub lines_of : List BootstrapEvent → List LogLine
lines_of [] = []
lines_of (e ∷ es) = logged (handle_event e) (lines_of es)

abbrev pub before_shutdown : List Selected → List BootstrapEvent
before_shutdown [] = []
before_shutdown (event e ∷ rest) = e ∷ before_shutdown rest
before_shutdown (shutdown ∷ rest) = []

abbrev pub has_shutdown : List Selected → Bool
has_shutdown [] = false
has_shutdown (event e ∷ rest) = has_shutdown rest
has_shutdown (shutdown ∷ rest) = true

-- A process that has its key and whose arguments are accepted.
pub record Accepts (K : Keys) (w : World) (args : RunArgs) (fs : Fs) (l : Launch) : Type 0 where
  pub keypair : K.Keypair
  pub keyed : (load_or_generate_keypair K (key_path w (run args)) w.random fs).1 ≡ ok keypair
  pub accepted : launch_of w.display w.parse args ≡ ok l

-- The making of the swarm for a launch, and its answers to the calls to listen.
abbrev pub built : World → Launch → Result (Unit {0}) String
built w l = w.swarm.built (new_behaviour w.version l.relay_limits) l.idle_timeout

abbrev pub tcp_answer : World → Launch → Result (Unit {0}) String
tcp_answer w l = w.swarm.listen_answer [] l.tcp_addr

abbrev pub quic_answer : World → Launch → Result (Unit {0}) String
quic_answer w l = w.swarm.listen_answer (listen_on l.tcp_addr ∷ []) l.quic_addr

-- A node that came to serve, which it does only if nothing failed: its limits are the arguments', it
-- listens on both addresses, then has its external addresses registered, and then logs the events
-- before the first shutdown; it has ended, well, exactly if there is one.
pub record Serves (K : Keys) (w : World) (args : RunArgs) (fs : Fs) (p : Process) : Type 0 where
  pub launch : Launch
  pub accepts : Accepts K w args fs launch
  pub runtime_up : w.runtime_builds ≡ true
  pub swarm_up : built w launch ≡ ok tt
  pub tcp_up : tcp_answer w launch ≡ ok tt
  pub quic_up : quic_answer w launch ≡ ok tt
  pub fits : args.max_circuit_duration_secs ≤ u32_max
  pub behaviour : p.plan ≡ some (new_behaviour w.version (limits_of args))
  pub called :
      p.calls
      ≡ reverse (
          listen_on launch.tcp_addr
          ∷ listen_on launch.quic_addr
          ∷ map add_external_address launch.external_addrs)
  pub handled : p.lines ≡ lines_of (before_shutdown w.selected)
  pub ends : p.ended ≡ (if has_shutdown w.selected then some (ok tt) else none)

-- Why `main` returns an error: the first step that fails.
pub data Cause (K : Keys) (w : World) (args : RunArgs) (fs : Fs) : MainError → Type 0 where
  no_key :
      (e : KeyError)
      → (load_or_generate_keypair K (key_path w (run args)) w.random fs).1 ≡ err e
      → Cause K w args fs (key e)
  not_accepted :
      (k : K.Keypair) (e : MainError)
      → (load_or_generate_keypair K (key_path w (run args)) w.random fs).1 ≡ ok k
      → launch_of w.display w.parse args ≡ err e
      → Cause K w args fs e
  no_runtime :
      (l : Launch) → Accepts K w args fs l → w.runtime_builds ≡ false → Cause K w args fs runtime
  not_built :
      (l : Launch) (e : String)
      → Accepts K w args fs l
      → w.runtime_builds ≡ true
      → built w l ≡ err e
      → Cause K w args fs (node e)
  no_tcp :
      (l : Launch) (e : String)
      → Accepts K w args fs l
      → w.runtime_builds ≡ true
      → built w l ≡ ok tt
      → tcp_answer w l ≡ err e
      → Cause K w args fs (node e)
  no_quic :
      (l : Launch) (e : String)
      → Accepts K w args fs l
      → w.runtime_builds ≡ true
      → built w l ≡ ok tt
      → tcp_answer w l ≡ ok tt
      → quic_answer w l ≡ err e
      → Cause K w args fs (node e)

pub record Fails (K : Keys) (w : World) (args : RunArgs) (fs : Fs) (p : Process) : Type 0 where
  pub error : MainError
  pub cause : Cause K w args fs error
  pub ended : p.ended ≡ some (err error)
  pub silent : p.lines ≡ []
