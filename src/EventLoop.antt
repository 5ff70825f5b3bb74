-- ===== src/EventLoop.antt =====
-- core/src/runtime/event_loop.rs: the state of the event loop and what it does at the start. The
-- commands are the type `C`. The channel to the user is the list of the events put into it; its
-- reader, the clock and the order of a `HashSet` are the record `Env`.
pub mod Relay
pub mod Lan
pub mod Convert
pub mod Inbound
pub mod Run
use swarm_p2p.Prelude.{
  ℕ, String, Bool, Option, none, some, List, [], ◌∷◌, ◌++◌, if◌then◌else◌, unwrap_or,
}
use swarm_p2p.Prelude.Map.{Map, get, insert}
use swarm_p2p.DataChannel.{PeerId, DataChannel, DataChannelLimits}
use swarm_p2p.DataChannel.Registry.{RegistryInner}
use swarm_p2p.Error.{Error, Result, ok, err, listen}
use swarm_p2p.Event.{NodeEvent}
use swarm_p2p.PendingMap.{PendingMap}
use swarm_p2p.Handle.{Channel}
use swarm_p2p.Config.{LanHelperConfig, InfrastructureMode, off, lan_helper}
use swarm_p2p.Swarm.{Types, Swarm, Trace, listen_on, kad_add_address, add_peer_address, dial}
use swarm_p2p.Swarm.Addr.{Multiaddr}

pub record EventLoop (T : Types) (C : Type 0) : Type 0 where
  pub trace : Trace T
  pub sent : List (NodeEvent T)
  pub active_commands : List C
  pub protocol_version : String
  pub pending_channels : PendingMap T.ResponseChannel
  pub pending_id_counter : ℕ
  pub bootstrap_peers : Map (List Multiaddr)
  pub enable_relay_client : Bool
  pub lan_helper : Option LanHelperConfig
  pub advertised_lan_addrs : List Multiaddr
  pub dc_limits : DataChannelLimits
  pub dc_registry : RegistryInner
  pub inbound_dc_tx : Channel DataChannel
  pub next_channel_id : ℕ

-- What the loop finds while it handles one event: the time, whether the user's channel is open and
-- has room, and the order in which a set of peers comes out of a `HashSet`.
pub record Env : Type 0 where
  pub now : ℕ
  pub event_open : Bool
  pub event_room : Bool
  pub set_order : List PeerId → List PeerId

abbrev pub lan_helper_of : InfrastructureMode → Option LanHelperConfig
lan_helper_of off = none
lan_helper_of (lan_helper config) = some config

abbrev pub new_event_loop :
    {T : Types} {C : Type 0}
    → Trace T
    → PendingMap T.ResponseChannel
    → String
    → DataChannelLimits
    → RegistryInner
    → Channel DataChannel
    → ℕ
    → Bool
    → InfrastructureMode
    → EventLoop T C
new_event_loop trace pending version limits registry inbound next_id relay_client mode = record {
  trace = trace;
  sent = [];
  active_commands = [];
  protocol_version = version;
  pending_channels = pending;
  pending_id_counter = 0;
  bootstrap_peers = [];
  enable_relay_client = relay_client;
  lan_helper = lan_helper_of mode;
  advertised_lan_addrs = [];
  dc_limits = limits;
  dc_registry = registry;
  inbound_dc_tx = inbound;
  next_channel_id = next_id;
}

-- `bootstrap_peers.entry(peer).or_default().extend(addrs)`.
unfoldable pub remember : PeerId → List Multiaddr → Map (List Multiaddr) → Map (List Multiaddr)
remember peer addrs peers = insert peer (unwrap_or (get peer peers) [] ++ addrs) peers

module _ {T : Types} where
  -- After one call to listen: the rest of the calls, or the error.
  abbrev pub listen_next :
      Trace T × Result (Unit {0}) Error
      → Trace T
      → Result (Unit {0}) String
      → Trace T × Result (Unit {0}) Error
  listen_next rest trace (ok u) = rest
  listen_next rest trace (err e) = (trace, err (listen e))

module _ {T : Types} (sw : Swarm T) where
  -- The first address that cannot be listened on ends it.
  unfoldable pub start_listen : List Multiaddr → Trace T → Trace T × Result (Unit {0}) Error
  start_listen [] trace = (trace, ok tt)
  start_listen (addr ∷ addrs) trace =
      let trace' : Trace T = listen_on addr ∷ trace in
      listen_next (start_listen addrs trace') trace' (sw.listen_answer trace addr)

-- A dial that fails is only logged.
unfoldable pub connect_bootstrap_peers :
    {T : Types} {C : Type 0} → List (PeerId × Multiaddr) → EventLoop T C → EventLoop T C
connect_bootstrap_peers [] s = s
connect_bootstrap_peers ((peer, addr) ∷ peers) s = connect_bootstrap_peers peers (record s {
  trace = dial peer ∷ add_peer_address peer addr ∷ kad_add_address peer addr ∷ s.trace;
  bootstrap_peers =
      if s.enable_relay_client
      then remember peer (addr ∷ []) s.bootstrap_peers
      else s.bootstrap_peers;
})
