-- ===== src/DataChannel/Channel.antt =====
-- core/src/data_channel.rs: the handle of a channel, from its making to its end, and the text of its id. The
-- decimal text of an id is the argument `display`. `InboundDataChannel` wraps one channel and stands
-- here as the channel itself.
use swarm_p2p.Prelude.{ℕ, String, Option, none, some, prefixed}
use swarm_p2p.DataChannel.{
  PeerId, StreamProtocol, Stream, DataChannelDirection, DataChannelId, ChannelGuard, DataChannel,
}
use swarm_p2p.DataChannel.Registry.{RegistryInner, drop_guard}

-- `Display for DataChannelId`.
abbrev pub display_channel_id : (ℕ → String) → DataChannelId → String
display_channel_id display id = prefixed "dc#" (display id.value)

abbrev pub new_data_channel :
    DataChannelId
    → PeerId
    → StreamProtocol
    → DataChannelDirection
    → Stream
    → Option ChannelGuard
    → DataChannel
new_data_channel id peer protocol direction stream guard = record {
  id = id;
  peer = peer;
  protocol = protocol;
  direction = direction;
  stream = stream;
  guard = guard;
}

-- The accessors.
abbrev pub id : DataChannel → DataChannelId
id c = c.id

abbrev pub peer : DataChannel → PeerId
peer c = c.peer

abbrev pub protocol : DataChannel → StreamProtocol
protocol c = c.protocol

abbrev pub direction : DataChannel → DataChannelDirection
direction c = c.direction

-- What a mutable borrow of the stream makes of it.
abbrev pub stream_mut : (Stream → Stream) → DataChannel → DataChannel
stream_mut f c = record c { stream = f c.stream }

-- A guard that a handle leaves behind.
abbrev pub release : Option ChannelGuard → RegistryInner → RegistryInner
release none inner = inner
release (some guard) inner = drop_guard inner guard

-- The drop of a handle closes its stream and gives the quota back.
unfoldable pub drop_channel : DataChannel → RegistryInner → RegistryInner
drop_channel c inner = release c.guard inner

-- The stream moves out and stays open; what is left of the handle is dropped, with its guard.
unfoldable pub into_stream : DataChannel → RegistryInner → Stream × RegistryInner
into_stream c inner = (c.stream, release c.guard inner)
