-- ===== src/Config.antt =====
-- core/src/config.rs: the configuration of a node. Durations are milliseconds.
pub mod Build
use swarm_p2p.Prelude.{ℕ, ◌*◌, String, Bool, true, false, Option, List, [], ◌∷◌, prefixed}
use swarm_p2p.DataChannel.{PeerId, StreamProtocol, DataChannelLimits, default_data_channel_limits}
use swarm_p2p.Swarm.Addr.{Multiaddr, Protocol, ip4, ip6, tcp}

abbrev secs : ℕ → ℕ
secs n = n * 1000

pub record RelayLimits : Type 0 where
  pub max_reservations : ℕ
  pub max_reservations_per_peer : ℕ
  pub reservation_duration : ℕ
  pub max_circuits : ℕ
  pub max_circuits_per_peer : ℕ
  pub max_circuit_duration : ℕ
  pub max_circuit_bytes : ℕ

abbrev pub default_relay_limits : RelayLimits
default_relay_limits = record {
  max_reservations = 16;
  max_reservations_per_peer = 2;
  reservation_duration = secs (30 * 60);
  max_circuits = 8;
  max_circuits_per_peer = 2;
  max_circuit_duration = secs (30 * 60);
  max_circuit_bytes = 64 * 1024 * 1024;
}

pub record LanHelperConfig : Type 0 where
  pub enable_kad_server : Bool
  pub relay_limits : RelayLimits
  pub announce_private_addrs : Bool

abbrev pub default_lan_helper : LanHelperConfig
default_lan_helper = record {
  enable_kad_server = true;
  relay_limits = default_relay_limits;
  announce_private_addrs = true;
}

pub data InfrastructureMode : Type 0 where
  off : InfrastructureMode
  lan_helper : LanHelperConfig → InfrastructureMode

pub record NodeConfig : Type 0 where
  pub protocol_version : String
  pub agent_version : String
  pub listen_addrs : List Multiaddr
  pub bootstrap_peers : List (PeerId × Multiaddr)
  pub enable_mdns : Bool
  pub enable_relay_client : Bool
  pub enable_dcutr : Bool
  pub enable_autonat : Bool
  pub idle_connection_timeout : ℕ
  pub ping_interval : ℕ
  pub ping_timeout : ℕ
  pub kad_query_timeout : ℕ
  pub kad_server_mode : Bool
  pub infrastructure_mode : InfrastructureMode
  pub req_resp_protocol : String
  pub req_resp_timeout : ℕ
  pub data_channel_protocols : List StreamProtocol
  pub data_channel_open_timeout : ℕ
  pub data_channel_idle_timeout : ℕ
  pub data_channel_limits : DataChannelLimits

-- The crate's version is set by the build.
unfoldable pub default_config : String → NodeConfig
default_config package_version = record {
  protocol_version = "/swarm-p2p/1.0.0";
  agent_version = prefixed "swarm-p2p/" package_version;
  listen_addrs =
      (ip4 (record { a = 0; b = 0; c = 0; d = 0 }) ∷ tcp 0 ∷ []) ∷ (ip6 0 ∷ tcp 0 ∷ []) ∷ [];
  bootstrap_peers = [];
  enable_mdns = true;
  enable_relay_client = true;
  enable_dcutr = true;
  enable_autonat = true;
  idle_connection_timeout = secs 60;
  ping_interval = secs 15;
  ping_timeout = secs 10;
  kad_query_timeout = secs 60;
  kad_server_mode = false;
  infrastructure_mode = off;
  req_resp_protocol = "/swarm-p2p/req/1.0.0";
  req_resp_timeout = secs 120;
  data_channel_protocols = [];
  data_channel_open_timeout = secs 30;
  data_channel_idle_timeout = secs 300;
  data_channel_limits = default_data_channel_limits;
}

unfoldable pub new_config : String → String → String → NodeConfig
unfolding default_config
new_config package_version protocol_version agent_version =
    record (default_config package_version) {
      protocol_version = protocol_version;
      agent_version = agent_version;
    }
