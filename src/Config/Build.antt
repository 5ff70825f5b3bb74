-- ===== src/Config/Build.antt =====
-- core/src/config.rs: the builder methods of `NodeConfig`, and what core/src/runtime/behaviour.rs
-- makes of a configuration.
use swarm_p2p.Prelude.{
  ℕ, String, Bool, true, false, ◌||◌, Option, none, some, List, [], ◌∷◌, ◌≡◌, refl,
}
use mathlib.Core.Option
use swarm_p2p.DataChannel.{PeerId, StreamProtocol, DataChannelLimits}
use swarm_p2p.Swarm.Addr.{Multiaddr}
use swarm_p2p.Config.{NodeConfig, RelayLimits, LanHelperConfig, InfrastructureMode, off, lan_helper}

pub data Setting : Type 0 where
  listen_addrs : List Multiaddr → Setting
  bootstrap_peers : List (PeerId × Multiaddr) → Setting
  mdns relay_client dcutr autonat kad_server_mode : Bool → Setting
  infrastructure_mode : InfrastructureMode → Setting
  with_helper : LanHelperConfig → Setting
  req_resp_protocol : String → Setting
  req_resp_timeout open_timeout idle_timeout : ℕ → Setting
  data_channel_protocols : List StreamProtocol → Setting
  limits : DataChannelLimits → Setting

-- The `with_*` methods.
unfoldable pub set_config : Setting → NodeConfig → NodeConfig
set_config (listen_addrs x) c = record c { listen_addrs = x }
set_config (bootstrap_peers x) c = record c { bootstrap_peers = x }
set_config (mdns x) c = record c { enable_mdns = x }
set_config (relay_client x) c = record c { enable_relay_client = x }
set_config (dcutr x) c = record c { enable_dcutr = x }
set_config (autonat x) c = record c { enable_autonat = x }
set_config (kad_server_mode x) c = record c { kad_server_mode = x }
set_config (infrastructure_mode x) c = record c { infrastructure_mode = x }
set_config (with_helper x) c = record c { infrastructure_mode = lan_helper x }
set_config (req_resp_protocol x) c = record c { req_resp_protocol = x }
set_config (req_resp_timeout x) c = record c { req_resp_timeout = x }
set_config (open_timeout x) c = record c { data_channel_open_timeout = x }
set_config (idle_timeout x) c = record c { data_channel_idle_timeout = x }
set_config (data_channel_protocols x) c = record c { data_channel_protocols = x }
set_config (limits x) c = record c { data_channel_limits = x }

unfoldable pub helper_of : InfrastructureMode → Option LanHelperConfig
helper_of (lan_helper config) = some config
helper_of off = none

-- What `CoreBehaviour::new` hands to libp2p. It panics if mDNS cannot start or if the request
-- protocol's name is malformed, which is libp2p's to decide and left out here.
pub record BehaviourPlan : Type 0 where
  pub kad_forced_server : Bool
  pub mdns_enabled : Bool
  pub relay_client_enabled : Bool
  pub relay_server : Option RelayLimits
  pub autonat_enabled : Bool
  pub dcutr_enabled : Bool
  pub ping_interval : ℕ
  pub ping_timeout : ℕ
  pub identify_protocol_version : String
  pub identify_agent_version : String
  pub identify_push_updates : Bool
  pub identify_cache_size : ℕ
  pub kad_query_timeout : ℕ
  pub kad_record_ttl : ℕ
  pub kad_publication_interval : ℕ
  pub kad_provider_record_ttl : ℕ
  pub kad_replication_factor : ℕ
  pub request_timeout : ℕ
  pub req_resp_protocol : String

-- `relay_config`: the limits that differ from libp2p's defaults.
unfoldable pub relay_config : LanHelperConfig → RelayLimits
relay_config helper = helper.relay_limits

abbrev asks_kad_server : Option LanHelperConfig → Bool
asks_kad_server none = false
asks_kad_server (some helper) = helper.enable_kad_server

unfoldable pub plan_behaviour : NodeConfig → BehaviourPlan
unfolding helper_of relay_config
plan_behaviour c =
    let helper = helper_of c.infrastructure_mode in
    record {
      kad_forced_server = c.kad_server_mode || asks_kad_server helper;
      mdns_enabled = c.enable_mdns;
      relay_client_enabled = c.enable_relay_client;
      relay_server = Option.map relay_config helper;
      autonat_enabled = c.enable_autonat;
      dcutr_enabled = c.enable_dcutr;
      ping_interval = c.ping_interval;
      ping_timeout = c.ping_timeout;
      identify_protocol_version = c.protocol_version;
      identify_agent_version = c.agent_version;
      identify_push_updates = true;
      identify_cache_size = 100;
      kad_query_timeout = c.kad_query_timeout;
      kad_record_ttl = 3600000;
      kad_publication_interval = 3600000;
      kad_provider_record_ttl = 3600000;
      kad_replication_factor = 3;
      request_timeout = c.req_resp_timeout;
      req_resp_protocol = c.req_resp_protocol;
    }

-- The infrastructure mode that a chain of settings leaves.
abbrev pub last_mode : InfrastructureMode → List Setting → InfrastructureMode
last_mode mode [] = mode
last_mode mode (infrastructure_mode x ∷ settings) = last_mode x settings
last_mode mode (with_helper x ∷ settings) = last_mode (lan_helper x) settings
last_mode mode (_ ∷ settings) = last_mode mode settings

abbrev pub last_kad : Bool → List Setting → Bool
last_kad flag [] = flag
last_kad flag (kad_server_mode x ∷ settings) = last_kad x settings
last_kad flag (_ ∷ settings) = last_kad flag settings

abbrev pub configure : List Setting → NodeConfig → NodeConfig
configure [] c = c
configure (setting ∷ settings) c = configure settings (set_config setting c)

-- After any chain of settings, the node serves as a relay exactly if the last infrastructure setting
-- is a LAN helper, and then with that helper's limits; and it is a forced Kademlia server exactly if
-- the last Kademlia flag says so or that helper asks for it. No other setting has a say.
pub plan-configure :
    (settings : List Setting) (c : NodeConfig)
    → let helper = helper_of (last_mode c.infrastructure_mode settings) in
      let plan = plan_behaviour (configure settings c) in
      (plan.relay_server ≡ Option.map (λ h. h.relay_limits) helper)
      × (plan.kad_forced_server ≡ (last_kad c.kad_server_mode settings || asks_kad_server helper))
unfolding plan_behaviour set_config
plan-configure [] c = (refl, refl)
plan-configure (infrastructure_mode x ∷ settings) c = plan-configure settings _
plan-configure (with_helper x ∷ settings) c = plan-configure settings _
plan-configure (kad_server_mode x ∷ settings) c = plan-configure settings _
plan-configure (listen_addrs x ∷ settings) c = plan-configure settings _
plan-configure (bootstrap_peers x ∷ settings) c = plan-configure settings _
plan-configure (mdns x ∷ settings) c = plan-configure settings _
plan-configure (relay_client x ∷ settings) c = plan-configure settings _
plan-configure (dcutr x ∷ settings) c = plan-configure settings _
plan-configure (autonat x ∷ settings) c = plan-configure settings _
plan-configure (req_resp_protocol x ∷ settings) c = plan-configure settings _
plan-configure (req_resp_timeout x ∷ settings) c = plan-configure settings _
plan-configure (open_timeout x ∷ settings) c = plan-configure settings _
plan-configure (idle_timeout x ∷ settings) c = plan-configure settings _
plan-configure (data_channel_protocols x ∷ settings) c = plan-configure settings _
plan-configure (limits x ∷ settings) c = plan-configure settings _
