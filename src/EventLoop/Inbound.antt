-- ===== src/EventLoop/Inbound.antt =====
-- core/src/runtime/event_loop.rs: `handle_inbound_channel`.
pub mod Accounts
use swarm_p2p.Prelude.{Option, none, some}
use swarm_p2p.DataChannel.{
  PeerId, StreamProtocol, Stream, inbound, ChannelGuard, DataChannel, next_channel_id,
}
use swarm_p2p.DataChannel.Registry.{RegistryInner, try_acquire, drop_guard}
use swarm_p2p.Handle.{Channel, try_send}
use swarm_p2p.Swarm.{Types}
use swarm_p2p.EventLoop.{EventLoop}

module _ {T : Types} {C : Type 0} where
  -- A channel that its consumer does not take is dropped, and its guard with it.
  abbrev pub hand_over : Option (Channel DataChannel) → ChannelGuard → EventLoop T C → EventLoop T C
  hand_over none guard s = record s { dc_registry = drop_guard s.dc_registry guard }
  hand_over (some inbound_dc_tx) guard s = record s { inbound_dc_tx = inbound_dc_tx }

  abbrev pub accept_channel :
      PeerId
      → StreamProtocol
      → Stream
      → RegistryInner × Option ChannelGuard
      → EventLoop T C
      → EventLoop T C
  accept_channel peer protocol stream (inner, none) s = record s { dc_registry = inner }
  accept_channel peer protocol stream (inner, some guard) s =
      let (id, counter) = next_channel_id s.next_channel_id in
      let channel : DataChannel = record {
        id = id;
        peer = peer;
        protocol = protocol;
        direction = inbound;
        stream = stream;
        guard = some guard;
      } in
      hand_over (try_send channel s.inbound_dc_tx) guard
        (record s { dc_registry = inner; next_channel_id = counter })

  unfoldable pub handle_inbound_channel :
      StreamProtocol → PeerId → Stream → EventLoop T C → EventLoop T C
  handle_inbound_channel protocol peer stream s =
      accept_channel peer protocol stream
        (try_acquire s.dc_limits s.dc_registry peer protocol inbound) s
