-- ===== src/EventLoop/Run.antt =====
-- core/src/runtime/event_loop.rs: `handle_command`, `handle_swarm_event` and the turns of `run`.
pub mod Turn
use swarm_p2p.Prelude.{not, Option, none, some, [], ◌∷◌, ◌++◌, if◌then◌else◌, retain}
use swarm_p2p.DataChannel.{PeerId, StreamProtocol, Stream}
use swarm_p2p.Swarm.{Types, Swarm, SwarmEvent, polled}
use swarm_p2p.Event.{NodeEvent}
use swarm_p2p.Command.{CommandTrait, RelayRequest}
use swarm_p2p.Chain.{chain}
use swarm_p2p.EventLoop.{EventLoop, Env, remember}
use swarm_p2p.EventLoop.Relay.{request_relay_reservations}
use swarm_p2p.EventLoop.Convert.{convert_to_node_event}
use swarm_p2p.EventLoop.Inbound.{handle_inbound_channel}

module _ {T : Types} (sw : Swarm T) {C : Type 0} where
  -- The relay reservation that a command asks for: at once if the peer is connected, and otherwise
  -- when it is identified.
  abbrev pub reserve : RelayRequest → EventLoop T C → EventLoop T C
  reserve none s = s
  reserve (some (peer, addrs)) s =
      if sw.is_connected s.trace peer
      then record s { trace = request_relay_reservations peer addrs s.trace }
      else record s { bootstrap_peers = remember peer addrs s.bootstrap_peers }

  module _ (cmds : CommandTrait T C) where
    unfoldable pub handle_command : C → EventLoop T C → EventLoop T C
    handle_command cmd s =
        let (ran, trace) = cmds.run_boxed cmd s.trace in
        let (cmd', request) = cmds.take_relay_reservation_request ran in
        let s' = reserve request (record s { trace = trace }) in
        record s' { active_commands = s'.active_commands ++ cmd' ∷ [] }

    -- `event_tx.send`: it waits for room, and fails only when the user's channel is closed.
    abbrev pub send : Env → EventLoop T C × Option (NodeEvent T) → EventLoop T C
    send env (s, none) = s
    send env (s, some event) =
        if env.event_open then record s { sent = s.sent ++ event ∷ [] } else s

    abbrev pub forward : Env → Option (SwarmEvent T) → EventLoop T C → EventLoop T C
    forward env none s = s
    forward env (some event) s = send env (convert_to_node_event sw env event s)

    unfoldable pub handle_swarm_event : Env → SwarmEvent T → EventLoop T C → EventLoop T C
    handle_swarm_event env event s =
        let (active, remaining) = chain cmds.on_event_boxed s.active_commands event in
        forward env remaining (record s { active_commands = active })

    -- What `select!` yields in one turn of the loop. A closed command channel ends the loop and is no
    -- turn.
    pub data Selected : Type 0 where
      command : C → Selected
      swarm_event : SwarmEvent T → Selected
      inbound_channel : StreamProtocol → PeerId → Stream → Selected

    abbrev pub handle_selected : Env → Selected → EventLoop T C → EventLoop T C
    handle_selected env (command cmd) s = handle_command cmd s
    handle_selected env (swarm_event event) s =
        handle_swarm_event env event (record s { trace = polled ∷ s.trace })
    handle_selected env (inbound_channel protocol peer stream) s =
        handle_inbound_channel protocol peer stream s

    -- A turn begins with the commands that were cancelled, which leave.
    unfoldable pub turn : Env → Selected → EventLoop T C → EventLoop T C
    turn env selected s =
        handle_selected env selected
          (record s { active_commands = retain (λ c. not (cmds.is_cancelled c)) s.active_commands })
