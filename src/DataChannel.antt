-- ===== src/DataChannel.antt =====
-- core/src/data_channel.rs: identifiers, directions, limits, close reasons and the channel handle.
-- `PeerId` and `StreamProtocol` are libp2p's: the code only compares them, so they are numbers here.
pub mod Registry
pub mod Quota
pub mod Bounds
pub mod Channel
pub mod Open
pub mod OpenQuota
use swarm_p2p.Prelude.{ℕ, String, Option, Bool, true, false, word_add, prefixed}

abbrev pub PeerId : Type 0
PeerId = ℕ

abbrev pub StreamProtocol : Type 0
StreamProtocol = ℕ

-- libp2p's `Stream`: never inspected by this code.
abbrev pub Stream : Type 0
Stream = ℕ

pub data DataChannelDirection : Type 0 where
  outbound inbound : DataChannelDirection

abbrev pub same_direction : DataChannelDirection → DataChannelDirection → Bool
same_direction outbound outbound = true
same_direction inbound inbound = true
same_direction _ _ = false

-- The counter behind `DataChannelId::next` is passed in and returned.
pub record DataChannelId : Type 0 where
  pub value : ℕ

unfoldable pub next_channel_id : ℕ → DataChannelId × ℕ
next_channel_id counter = (record { value = counter }, word_add counter 1)

pub data DataChannelCloseReason : Type 0 where
  normal connection_closed local_cancelled unsupported_protocol : DataChannelCloseReason
  resource_limit_exceeded : DataChannelCloseReason
  io : String → DataChannelCloseReason

-- `Display`.
unfoldable pub display_close_reason : DataChannelCloseReason → String
display_close_reason normal = "normal end-of-stream"
display_close_reason connection_closed = "underlying connection closed"
display_close_reason local_cancelled = "locally cancelled"
display_close_reason unsupported_protocol = "unsupported protocol"
display_close_reason resource_limit_exceeded = "resource limit exceeded"
display_close_reason (io detail) = prefixed "io error: " detail

pub record DataChannelLimits : Type 0 where
  pub max_inbound_per_peer : ℕ
  pub max_outbound_per_peer : ℕ
  pub max_per_protocol : ℕ

abbrev pub default_data_channel_limits : DataChannelLimits
default_data_channel_limits = record {
  max_inbound_per_peer = 4;
  max_outbound_per_peer = 4;
  max_per_protocol = 64;
}

-- The guard's `registry` is the one registry that the runtime shares.
pub record ChannelGuard : Type 0 where
  pub peer : PeerId
  pub protocol : StreamProtocol
  pub direction : DataChannelDirection

pub record DataChannel : Type 0 where
  pub id : DataChannelId
  pub peer : PeerId
  pub protocol : StreamProtocol
  pub direction : DataChannelDirection
  pub stream : Stream
  pub guard : Option ChannelGuard
