-- ===== src/Bootstrap/Cli.antt =====
-- bootstrap/src/main.rs: the commands with their defaults. How the command line and the environment
-- become these values is clap's.
use swarm_p2p.Prelude.{
  ℕ, ◌-◌, ◌^◌, leb, String, Bool, true, false, Option, none, some, List, [], ◌∷◌,
}
use mathlib.Core.List
use Prim.Native.String.{◌++◌}
use swarm_p2p.Error.{Result, ok, err}
use swarm_p2p.Swarm.Addr.{Multiaddr}
use swarm_p2p.Bootstrap.{
  default_max_reservations, default_max_reservations_per_peer, default_reservation_duration_secs,
  default_max_circuits, default_max_circuits_per_peer, default_max_circuit_duration_secs,
  default_max_circuit_bytes, RelayLimits,
}
use swarm_p2p.Bootstrap.Identity.{FilePath, KeyError}

pub record RunArgs : Type 0 where
  pub tcp_port : ℕ
  pub quic_port : ℕ
  pub key_file : Option FilePath
  pub listen_addr : String
  pub idle_timeout : ℕ
  pub external_ip : Option String
  pub max_reservations : ℕ
  pub max_reservations_per_peer : ℕ
  pub reservation_duration_secs : ℕ
  pub max_circuits : ℕ
  pub max_circuits_per_peer : ℕ
  pub max_circuit_duration_secs : ℕ
  pub max_circuit_bytes : ℕ

abbrev pub default_args : RunArgs
default_args = record {
  tcp_port = 4001;
  quic_port = 4001;
  key_file = none;
  listen_addr = "0.0.0.0";
  idle_timeout = 120;
  external_ip = none;
  max_reservations = default_max_reservations;
  max_reservations_per_peer = default_max_reservations_per_peer;
  reservation_duration_secs = default_reservation_duration_secs;
  max_circuits = default_max_circuits;
  max_circuits_per_peer = default_max_circuits_per_peer;
  max_circuit_duration_secs = default_max_circuit_duration_secs;
  max_circuit_bytes = default_max_circuit_bytes;
}

pub data Command : Type 0 where
  run : RunArgs → Command
  peer_id : Option FilePath → Command

-- All components but the last; a path with none has no parent.
abbrev pub init_of : String → FilePath → FilePath
init_of x [] = []
init_of x (y ∷ ys) = x ∷ init_of y ys

abbrev pub parent : FilePath → Option FilePath
parent [] = none
parent (x ∷ xs) = some (init_of x xs)

abbrev pub beside : Option FilePath → FilePath
beside none = "identity.key" ∷ []
beside (some dir) = List.◌++◌ dir ("identity.key" ∷ [])

-- `current_exe` is what the system knows of the binary's own path.
unfoldable pub resolve_key_file : Option FilePath → Option FilePath → FilePath
resolve_key_file current_exe (some path) = path
resolve_key_file (some exe) none = beside (parent exe)
resolve_key_file none none = beside none

pub data MainError : Type 0 where
  key : KeyError → MainError
  address : String → MainError
  circuit_duration runtime : MainError
  node : String → MainError

infixl 5 ◌>>=◌ ◌>>◌
abbrev pub ◌>>=◌ :
    {A B : Type 0} → Result A MainError → (A → Result B MainError) → Result B MainError
ok a >>= f = f a
err e >>= f = err e

abbrev pub ◌>>◌ :
    {B : Type 0} → Result (Unit {0}) MainError → Result B MainError → Result B MainError
m >> k = m >>= λ u. k

abbrev pub ensure : Bool → MainError → Result (Unit {0}) MainError
ensure true e = ok tt
ensure false e = err e

-- `u32::MAX`.
abbrev pub u32_max : ℕ
u32_max = 2 ^ 32 - 1

-- What `run` is called with.
pub record Launch : Type 0 where
  pub tcp_addr : Multiaddr
  pub quic_addr : Multiaddr
  pub idle_timeout : ℕ
  pub external_addrs : List Multiaddr
  pub relay_limits : RelayLimits

abbrev pub limits_of : RunArgs → RelayLimits
limits_of args = record {
  max_reservations = args.max_reservations;
  max_reservations_per_peer = args.max_reservations_per_peer;
  reservation_duration = args.reservation_duration_secs;
  max_circuits = args.max_circuits;
  max_circuits_per_peer = args.max_circuits_per_peer;
  max_circuit_duration = args.max_circuit_duration_secs;
  max_circuit_bytes = args.max_circuit_bytes;
}

-- `display` is the decimal text of a port, and `parse` is libp2p's reading of an address.
module _ (display : ℕ → String) (parse : String → Result Multiaddr String) where
  abbrev pub tcp_text : String → ℕ → String
  tcp_text ip port = "/ip4/" ++ ip ++ "/tcp/" ++ display port

  abbrev pub quic_text : String → ℕ → String
  quic_text ip port = "/ip4/" ++ ip ++ "/udp/" ++ display port ++ "/quic-v1"

  abbrev pub parsed : Result Multiaddr String → Result Multiaddr MainError
  parsed (ok addr) = ok addr
  parsed (err e) = err (address e)

  abbrev pub external_addrs_of : RunArgs → Option String → Result (List Multiaddr) MainError
  external_addrs_of args none = ok []
  external_addrs_of args (some ip) = do
    tcp ← parsed (parse (tcp_text ip args.tcp_port))
    quic ← parsed (parse (quic_text ip args.quic_port))
    ok (tcp ∷ quic ∷ [])

  unfoldable pub launch_of : RunArgs → Result Launch MainError
  launch_of args = do
    tcp_addr ← parsed (parse (tcp_text args.listen_addr args.tcp_port))
    quic_addr ← parsed (parse (quic_text args.listen_addr args.quic_port))
    external_addrs ← external_addrs_of args args.external_ip
    ensure (leb args.max_circuit_duration_secs u32_max) circuit_duration
    ok (record {
      tcp_addr = tcp_addr;
      quic_addr = quic_addr;
      idle_timeout = args.idle_timeout;
      external_addrs = external_addrs;
      relay_limits = limits_of args;
    })
