-- ===== src/Client/Net.antt =====
-- core/src/client/mod.rs and core/src/client/kad.rs: the client and its methods. A method makes a
-- command and the future that is then awaited; what goes through the command channel is the task's
-- object, whose handle the future shares. Requests and answers are in `Client` and `Client.Request`.
use swarm_p2p.Prelude.{ℕ, ◌+◌, ◌-◌, Bool, Option, List, Poll}
use swarm_p2p.DataChannel.{PeerId, StreamProtocol, DataChannel}
use swarm_p2p.DataChannel.Registry.{RegistryInner}
use swarm_p2p.DataChannel.Open.{OpenState, new_open_future}
use swarm_p2p.PendingMap.{PendingMap}
use swarm_p2p.Handle.{Channel, CommandFuture, new_future, recv}
use swarm_p2p.Event.{NodeEvent}
use swarm_p2p.Swarm.{Types, QueryStatsInfo}
use swarm_p2p.Swarm.Addr.{Multiaddr}
use swarm_p2p.Command.{CommandTask}
use swarm_p2p.Command.Peer.{InfrastructureRoles, new_add_infrastructure_peer}
use swarm_p2p.Command.Listing.{get_listen_addrs}
use swarm_p2p.Command.Kad.{new_put_record, new_start_provide}
use swarm_p2p.Command.KadQueries.{
  BootstrapResult, GetClosestPeersResult, GetProvidersResult, GetRecordResult, new_bootstrap,
  new_get_closest_peers, new_get_providers, new_get_record,
}
use swarm_p2p.Command.Active.Queue.{
  Active, dialing, disconnecting, listing, checking, adding_addrs, adding_infrastructure,
  bootstrapping, getting_closest, getting_providers, getting_record, putting_record, providing,
  unproviding, removing,
}
use swarm_p2p.Client.Call.{new_task}

-- `control` is libp2p's; the future of a data channel is told what it answers.
pub record NetClient (T : Types) : Type 0 where
  pub command_tx : Channel (Active T)
  pub pending_channels : PendingMap T.ResponseChannel
  pub dc_registry : RegistryInner
  pub dc_open_timeout : ℕ

abbrev pub new_client :
    {T : Types}
    → Channel (Active T)
    → PendingMap T.ResponseChannel
    → RegistryInner
    → ℕ
    → NetClient T
new_client command_tx pending_channels dc_registry dc_open_timeout = record {
  command_tx = command_tx;
  pending_channels = pending_channels;
  dc_registry = dc_registry;
  dc_open_timeout = dc_open_timeout;
}

-- A clone shares the channel, the map and the registry: what it adds is one more sender.
abbrev pub clone_client : ℕ → ℕ
clone_client senders = senders + 1

-- It drops the sender of this client only.
abbrev pub shutdown : ℕ → ℕ
shutdown senders = senders - 1

module _ {T : Types} (client : NetClient T) where
  -- `CommandFuture::new(cmd, self.command_tx.clone())`.
  abbrev pub future_of :
      {C R : Type 0} → (CommandTask C R → Active T) → C → CommandFuture (Active T) R
  future_of kind c = new_future (kind (new_task c)) client.command_tx

  abbrev pub dial : PeerId → CommandFuture (Active T) (Unit {0})
  dial peer_id = future_of dialing (record { peer_id = peer_id })

  abbrev pub is_connected : PeerId → CommandFuture (Active T) Bool
  is_connected peer_id = future_of checking (record { peer_id = peer_id })

  abbrev pub disconnect : PeerId → CommandFuture (Active T) (Unit {0})
  disconnect peer_id = future_of disconnecting (record { peer_id = peer_id })

  abbrev pub get_addrs : CommandFuture (Active T) (List Multiaddr)
  get_addrs = future_of listing get_listen_addrs

  abbrev pub add_peer_addrs : PeerId → List Multiaddr → CommandFuture (Active T) (Unit {0})
  add_peer_addrs peer_id addrs =
      future_of adding_addrs (record { peer_id = peer_id; addrs = addrs })

  abbrev pub add_infrastructure_peer :
      PeerId → List Multiaddr → InfrastructureRoles → CommandFuture (Active T) (Unit {0})
  add_infrastructure_peer peer_id addrs roles =
      future_of adding_infrastructure (new_add_infrastructure_peer peer_id addrs roles)

  -- The future of a data channel, before its first poll.
  abbrev pub open_data_channel : PeerId → StreamProtocol → OpenState
  open_data_channel peer_id protocol = new_open_future peer_id protocol client.dc_open_timeout

  abbrev pub bootstrap : CommandFuture (Active T) BootstrapResult
  bootstrap = future_of bootstrapping new_bootstrap

  abbrev pub get_record : T.RecordKey → CommandFuture (Active T) (GetRecordResult T)
  get_record key = future_of getting_record (new_get_record key)

  abbrev pub put_record : T.Record → CommandFuture (Active T) QueryStatsInfo
  put_record value = future_of putting_record (new_put_record value)

  abbrev pub get_providers : T.RecordKey → CommandFuture (Active T) GetProvidersResult
  get_providers key = future_of getting_providers (new_get_providers key)

  abbrev pub get_closest_peers : T.RecordKey → CommandFuture (Active T) GetClosestPeersResult
  get_closest_peers key = future_of getting_closest (new_get_closest_peers key)

  abbrev pub start_provide : T.RecordKey → CommandFuture (Active T) QueryStatsInfo
  start_provide key = future_of providing (new_start_provide key)

  abbrev pub stop_provide : T.RecordKey → CommandFuture (Active T) (Unit {0})
  stop_provide key = future_of unproviding (record { key = key })

  abbrev pub remove_record : T.RecordKey → CommandFuture (Active T) (Unit {0})
  remove_record key = future_of removing (record { key = key })

pub record EventReceiver (T : Types) : Type 0 where
  pub event_rx : Channel (NodeEvent T)

abbrev pub recv_event :
    {T : Types} → ℕ → EventReceiver T → Poll (Option (NodeEvent T)) × EventReceiver T
recv_event senders r =
    let (event, event_rx) = recv senders r.event_rx in (event, record { event_rx = event_rx })

-- core/src/data_channel.rs.
pub record DataChannelReceiver : Type 0 where
  pub rx : Channel DataChannel

abbrev pub recv_channel : ℕ → DataChannelReceiver → Poll (Option DataChannel) × DataChannelReceiver
recv_channel senders r = let (channel, rx) = recv senders r.rx in (channel, record { rx = rx })
