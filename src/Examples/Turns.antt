-- ===== src/Examples/Turns.antt =====
-- The theorem on a turn of the loop in core/src/runtime/event_loop.rs at a concrete input.
use swarm_p2p.Prelude.{none, some, [], ◌∷◌, true, false}
use swarm_p2p.DataChannel.Registry.{new_registry}
use swarm_p2p.PendingMap.{new_pending}
use swarm_p2p.Config.{off}
use swarm_p2p.Handle.{new_handle}
use swarm_p2p.Swarm.{connection_established, polled}
use swarm_p2p.Command.{command_trait}
use swarm_p2p.Command.KadQueries.{new_get_record}
use swarm_p2p.Command.Active.Queue.{Active, dialing, getting_record, active_trait}
use swarm_p2p.Command.Active.Queue.Offers.{active-hands_on}
use swarm_p2p.EventLoop.{EventLoop, new_event_loop}
use swarm_p2p.EventLoop.Run.{turn, swarm_event}
use swarm_p2p.EventLoop.Run.Turn.{Turned, turn-Turned}
use swarm_p2p.Examples.{types, network, limits}
use swarm_p2p.Examples.Loop.{env}

-- A dial of peer 7.
abbrev kept : Active types
kept = dialing (record { handler = record { peer_id = 7 }; handle = new_handle })

abbrev idle : EventLoop types (Active types)
idle =
    new_event_loop [] (new_pending 97) "v1" limits new_registry
      (record { queue = []; capacity = 16; closed = false }) 0 true off

-- The dial, and a query that its caller has given up.
abbrev busy : EventLoop types (Active types)
busy = record idle {
  active_commands =
      getting_record (record {
        handler = new_get_record 6;
        handle = record { result = none; waker = some 1; cancelled = true };
      })
      ∷ kept
      ∷ [];
}

turn-Turned_example :
    Turned network
      (active_trait network)
      env
      (connection_established 7 1)
      (kept ∷ [])
      (record idle { trace = polled ∷ []; active_commands = busy.active_commands })
      (turn network (active_trait network) env (swarm_event (connection_established 7 1)) idle)
      (turn network (active_trait network) env (swarm_event (connection_established 7 1)) busy)
unfolding command_trait
turn-Turned_example =
    turn-Turned network (active_trait network) env (connection_established 7 1)
      (active-hands_on network (connection_established 7 1)) busy
