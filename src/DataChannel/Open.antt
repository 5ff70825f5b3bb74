-- ===== src/DataChannel/Open.antt =====
-- core/src/client/data_channel_open.rs: the future that opens an outbound data channel. What tokio
-- and libp2p answer to a poll is an argument of it.
use swarm_p2p.Prelude.{Poll, ready, pending, panicked, ℕ, String, Option, none, some}
use swarm_p2p.DataChannel.{
  PeerId, StreamProtocol, Stream, outbound, resource_limit_exceeded, io, DataChannelLimits,
  DataChannelId, ChannelGuard, DataChannel, next_channel_id,
}
use swarm_p2p.DataChannel
use swarm_p2p.DataChannel.Registry.{RegistryInner, try_acquire, drop_guard}
use swarm_p2p.Error.{Error, Result, ok, err, network, data_channel, timeout, unknown}

-- `libp2p_stream::OpenStreamError`, which is non-exhaustive.
pub data OpenStreamError : Type 0 where
  unsupported : StreamProtocol → OpenStreamError
  failed : String → OpenStreamError
  other : OpenStreamError

-- What `tokio::time::timeout(_, control.open_stream(..))` answers to one poll.
pub data OpenAnswer : Type 0 where
  waiting : OpenAnswer
  answered : Result Stream OpenStreamError → OpenAnswer
  elapsed : OpenAnswer

pub record OpenInit : Type 0 where
  pub peer_id : PeerId
  pub protocol : StreamProtocol
  pub open_timeout : ℕ

-- The boxed `open_stream_with_guard`: its arguments, and the id once its first poll has drawn it.
pub record Opening : Type 0 where
  pub peer_id : PeerId
  pub protocol : StreamProtocol
  pub open_timeout : ℕ
  pub guard : ChannelGuard
  pub id : Option DataChannelId

pub data OpenState : Type 0 where
  init : OpenInit → OpenState
  opening : Opening → OpenState
  finished : OpenState

-- `DataChannelOpenFuture::new`: nothing happens before the first poll.
abbrev pub new_open_future : PeerId → StreamProtocol → ℕ → OpenState
new_open_future peer_id protocol open_timeout =
    init (record { peer_id = peer_id; protocol = protocol; open_timeout = open_timeout })

-- What the futures of a process share: the registry and the counter of channel ids.
pub record Shared : Type 0 where
  pub inner : RegistryInner
  pub next_id : ℕ

unfoldable pub map_open_stream_error : OpenStreamError → Error
map_open_stream_error (unsupported p) = data_channel DataChannel.unsupported_protocol
map_open_stream_error (failed e) = data_channel (io e)
map_open_stream_error other = network unknown

abbrev pub opened_with :
    OpenInit → RegistryInner × Option ChannelGuard → RegistryInner × Result Opening Error
opened_with start (inner, none) = (inner, err (data_channel resource_limit_exceeded))
opened_with start (inner, some g) = (
  inner,
  ok (record {
    peer_id = start.peer_id;
    protocol = start.protocol;
    open_timeout = start.open_timeout;
    guard = g;
    id = none;
  }),
)

unfoldable pub into_opening_future :
    DataChannelLimits → RegistryInner → OpenInit → RegistryInner × Result Opening Error
into_opening_future limits inner start =
    opened_with start (try_acquire limits inner start.peer_id start.protocol outbound)

-- The first poll draws the channel's id.
unfoldable pub draw_id : Option DataChannelId → ℕ → DataChannelId × ℕ
draw_id (some id) counter = (id, counter)
draw_id none counter = next_channel_id counter

-- One poll of `open_stream_with_guard`. An error return drops the guard; a channel takes it along.
unfoldable pub open_stream_with_guard :
    Opening → OpenAnswer → Shared → Shared × Opening × Poll (Result DataChannel Error)
unfolding draw_id
open_stream_with_guard o answer s =
    let (id, counter) = draw_id o.id s.next_id in
    let o' : Opening = record o { id = some id } in
    let released : Shared = record { inner = drop_guard s.inner o.guard; next_id = counter } in
    elim answer [
      | waiting ↦ (record s { next_id = counter }, o', pending)
      | answered r ↦ elim r [
        | ok stream ↦ (
          record s { next_id = counter },
          o',
          ready (
              ok (record {
                id = id;
                peer = o.peer_id;
                protocol = o.protocol;
                direction = outbound;
                stream = stream;
                guard = some o.guard;
              })),
        )
        | err e ↦ (released, o', ready (err (map_open_stream_error e)))
      ]
      | elapsed ↦ (released, o', ready (err (network timeout)))
    ]

abbrev pub Polled : Type 0
Polled = Shared × OpenState × Poll (Result DataChannel Error)

abbrev pub after_poll : Shared × Opening × Poll (Result DataChannel Error) → Polled
after_poll (s, o, ready r) = (s, finished, ready r)
after_poll (s, o, pending) = (s, opening o, pending)
after_poll (s, o, panicked) = (s, finished, panicked)

-- The second turn of the loop of `poll`, after `into_opening_future`.
abbrev pub poll_opened : Shared → OpenAnswer → RegistryInner × Result Opening Error → Polled
poll_opened s answer (inner, err e) = (record s { inner = inner }, finished, ready (err e))
poll_opened s answer (inner, ok o) =
    after_poll (open_stream_with_guard o answer (record s { inner = inner }))

-- `DataChannelOpenFuture::poll`: its loop turns twice at most, from `init` to `opening`.
unfoldable pub poll_open : DataChannelLimits → OpenState → OpenAnswer → Shared → Polled
unfolding into_opening_future
poll_open limits (opening o) answer s = after_poll (open_stream_with_guard o answer s)
poll_open limits (init start) answer s =
    poll_opened s answer (into_opening_future limits s.inner start)
poll_open limits finished answer s = (s, finished, panicked)

-- The drop of the future, at any time.
unfoldable pub drop_open : OpenState → Shared → Shared
drop_open (init start) s = s
drop_open (opening o) s = record s { inner = drop_guard s.inner o.guard }
drop_open finished s = s
