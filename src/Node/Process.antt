-- ===== src/Node/Process.antt =====
-- A whole node, which core/src/runtime/node.rs puts together: the event loop of
-- core/src/runtime/event_loop.rs, the futures of core/src/client/data_channel_open.rs that clients
-- poll, and the channels of core/src/data_channel.rs that the user holds. They share the registry and
-- the counter of channel ids, and go on in any order.
pub mod Parts
pub mod Share
pub mod Lan
pub mod Quota
pub mod Ids
pub mod Replies
pub mod Relay
use swarm_p2p.Prelude.{
  ℕ, Poll, ready, pending, panicked, true, Option, none, some, List, [], ◌∷◌, ◌++◌, take_at,
}
use swarm_p2p.DataChannel.{DataChannel}
use swarm_p2p.DataChannel.Registry.{RegistryInner}
use swarm_p2p.DataChannel.Open.{
  OpenState, init, OpenInit, OpenAnswer, Shared, Polled, poll_open, drop_open,
}
use swarm_p2p.DataChannel.Channel.{drop_channel, into_stream}
use swarm_p2p.Handle.{Channel}
use swarm_p2p.Client.Net.{DataChannelReceiver, recv_channel}
use swarm_p2p.Error.{Error, Result, ok, err}
use swarm_p2p.Swarm.{Types, Swarm}
use swarm_p2p.Command.{CommandTrait}
use swarm_p2p.EventLoop.{EventLoop, Env}
use swarm_p2p.EventLoop.Run.{Selected, turn}

pub record Process (T : Types) (C : Type 0) : Type 0 where
  pub loop : EventLoop T C
  pub futures : List OpenState
  pub channels : List DataChannel

module _ {T : Types} {C : Type 0} (sw : Swarm T) (cmds : CommandTrait T C) where
  -- A turn of the loop; a client that asks for a channel, polls its future or drops it; a consumer
  -- that takes a channel from the receiver or drops the receiver; a user who drops a channel or takes
  -- its stream out.
  pub data Move : Type 0 where
    turned : Env → Selected sw cmds → Move
    asked : OpenInit → Move
    polled_at : ℕ → OpenAnswer → Move
    abandoned_at : ℕ → Move
    received : Move
    unheard : Move
    dropped_at : ℕ → Move
    unwrapped_at : ℕ → Move

-- The channel that a poll returns.
abbrev pub returned : Poll (Result DataChannel Error) → List DataChannel
returned (ready (ok channel)) = channel ∷ []
returned _ = []

-- The channels in the queue of a receiver that is dropped.
pub drop_channels : List DataChannel → RegistryInner → RegistryInner
drop_channels [] inner = inner
drop_channels (c ∷ cs) inner = drop_channels cs (drop_channel c inner)

module _ {T : Types} {C : Type 0} where
  -- The node as it has started.
  abbrev pub launched : EventLoop T C → Process T C
  launched loop = record { loop = loop; futures = []; channels = [] }

  abbrev pub shared : Process T C → Shared
  shared s = record { inner = s.loop.dc_registry; next_id = s.loop.next_channel_id }

  abbrev pub sharing : Shared → EventLoop T C → EventLoop T C
  sharing sh loop = record loop { dc_registry = sh.inner; next_channel_id = sh.next_id }

  abbrev pub after_poll : List OpenState → Polled → Process T C → Process T C
  after_poll others (sh, st, r) s = record s {
    loop = sharing sh s.loop;
    futures = st ∷ others;
    channels = returned r ++ s.channels;
  }

  abbrev pub poll_taken :
      OpenAnswer → Option (OpenState × List OpenState) → Process T C → Process T C
  poll_taken answer none s = s
  poll_taken answer (some (st, others)) s =
      after_poll others (poll_open s.loop.dc_limits st answer (shared s)) s

  abbrev pub abandon : Option (OpenState × List OpenState) → Process T C → Process T C
  abandon none s = s
  abandon (some (st, others)) s = record s {
    loop = sharing (drop_open st (shared s)) s.loop;
    futures = others;
  }

  -- The loop holds the one sender, so the channel does not end.
  abbrev pub take_received :
      Poll (Option DataChannel) × Channel DataChannel → Process T C → Process T C
  take_received (ready (some channel), rx) s = record s {
    loop = record s.loop { inbound_dc_tx = rx };
    channels = channel ∷ s.channels;
  }
  take_received _ s = s

  abbrev pub with_registry : RegistryInner → EventLoop T C → EventLoop T C
  with_registry inner loop = record loop { dc_registry = inner }

  abbrev pub drop_receiver : Process T C → Process T C
  drop_receiver s = record s {
    loop =
        with_registry (drop_channels s.loop.inbound_dc_tx.queue s.loop.dc_registry) (record s.loop {
          inbound_dc_tx = record s.loop.inbound_dc_tx { queue = []; closed = true };
        });
  }

  abbrev pub drop_taken : Option (DataChannel × List DataChannel) → Process T C → Process T C
  drop_taken none s = s
  drop_taken (some (c, others)) s = record s {
    loop = with_registry (drop_channel c s.loop.dc_registry) s.loop;
    channels = others;
  }

  abbrev pub unwrap_taken : Option (DataChannel × List DataChannel) → Process T C → Process T C
  unwrap_taken none s = s
  unwrap_taken (some (c, others)) s = record s {
    loop = with_registry (into_stream c s.loop.dc_registry).1 s.loop;
    channels = others;
  }

module _ {T : Types} {C : Type 0} (sw : Swarm T) (cmds : CommandTrait T C) where
  unfoldable pub move : Move sw cmds → Process T C → Process T C
  move (turned env selected) s = record s { loop = turn sw cmds env selected s.loop }
  move (asked start) s = record s { futures = init start ∷ s.futures }
  move (polled_at i answer) s = poll_taken answer (take_at i s.futures) s
  move (abandoned_at i) s = abandon (take_at i s.futures) s
  move received s =
      let (channel, receiver) = recv_channel 1 (record { rx = s.loop.inbound_dc_tx }) in
      take_received (channel, receiver.rx) s
  move unheard s = drop_receiver s
  move (dropped_at i) s = drop_taken (take_at i s.channels) s
  move (unwrapped_at i) s = unwrap_taken (take_at i s.channels) s

  unfoldable pub moves : List (Move sw cmds) → Process T C → Process T C
  moves [] s = s
  moves (m ∷ ms) s = moves ms (move m s)
