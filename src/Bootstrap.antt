-- ===== src/Bootstrap.antt =====
-- The crate bootstrap, a server for other nodes: bootstrap/src/behaviour.rs here, and its command
-- line, key file and event loop in the modules below. Durations are seconds.
pub mod Identity
pub mod Serve
pub mod Cli
pub mod Process
use swarm_p2p.Prelude.{ℕ, ◌*◌, String, Bool, true, prefixed}

pub record RelayLimits : Type 0 where
  pub max_reservations : ℕ
  pub max_reservations_per_peer : ℕ
  pub reservation_duration : ℕ
  pub max_circuits : ℕ
  pub max_circuits_per_peer : ℕ
  pub max_circuit_duration : ℕ
  pub max_circuit_bytes : ℕ

abbrev pub default_max_reservations : ℕ
default_max_reservations = 128

abbrev pub default_max_reservations_per_peer : ℕ
default_max_reservations_per_peer = 4

abbrev pub default_reservation_duration_secs : ℕ
default_reservation_duration_secs = 3600

abbrev pub default_max_circuits : ℕ
default_max_circuits = 16

abbrev pub default_max_circuits_per_peer : ℕ
default_max_circuits_per_peer = 4

abbrev pub default_max_circuit_duration_secs : ℕ
default_max_circuit_duration_secs = 3600

abbrev pub default_max_circuit_bytes : ℕ
default_max_circuit_bytes = 1024 * 1024 * 512

abbrev pub default_limits : RelayLimits
default_limits = record {
  max_reservations = default_max_reservations;
  max_reservations_per_peer = default_max_reservations_per_peer;
  reservation_duration = default_reservation_duration_secs;
  max_circuits = default_max_circuits;
  max_circuits_per_peer = default_max_circuits_per_peer;
  max_circuit_duration = default_max_circuit_duration_secs;
  max_circuit_bytes = default_max_circuit_bytes;
}

-- What `BootstrapBehaviour::new` hands to libp2p; `version` is the crate's, which the build sets.
pub record BootstrapPlan : Type 0 where
  pub ping_interval : ℕ
  pub ping_timeout : ℕ
  pub identify_protocol_version : String
  pub identify_agent_version : String
  pub identify_push_updates : Bool
  pub identify_cache_size : ℕ
  pub kad_query_timeout : ℕ
  pub kad_record_ttl : ℕ
  pub kad_replication_factor : ℕ
  pub kad_publication_interval : ℕ
  pub kad_provider_record_ttl : ℕ
  pub kad_forced_server : Bool
  pub relay : RelayLimits

abbrev pub new_behaviour : String → RelayLimits → BootstrapPlan
new_behaviour version relay_limits = record {
  ping_interval = 15;
  ping_timeout = 10;
  identify_protocol_version = "/swarmdrop/1.0.0";
  identify_agent_version = prefixed "swarm-bootstrap/" version;
  identify_push_updates = true;
  identify_cache_size = 1000;
  kad_query_timeout = 60;
  kad_record_ttl = 7200;
  kad_replication_factor = 20;
  kad_publication_interval = 3600;
  kad_provider_record_ttl = 7200;
  kad_forced_server = true;
  relay = relay_limits;
}
