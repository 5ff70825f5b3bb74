-- ===== src/Node.antt =====
-- core/src/runtime/node.rs: how a node starts. The builder of the swarm and the acceptance of data
-- channel protocols are libp2p's; the event loop begins with the trace of its first calls.
pub mod Started
pub mod Ends
pub mod Process
use swarm_p2p.Prelude.{false, ℕ, Bool, String, List, [], ◌∷◌, if◌then◌else◌}
use swarm_p2p.Error.{Error, Result, ok, err}
use swarm_p2p.DataChannel.{DataChannel}
use swarm_p2p.DataChannel.Registry.{new_registry}
use swarm_p2p.PendingMap.{new_pending}
use swarm_p2p.Handle.{Channel}
use swarm_p2p.Config.{NodeConfig}
use swarm_p2p.Config.Build.{BehaviourPlan, plan_behaviour}
use swarm_p2p.Swarm.{Types, Swarm, Trace}
use swarm_p2p.EventLoop.{EventLoop, new_event_loop, start_listen, connect_bootstrap_peers}

abbrev pub dc_inbound_channel_size : ℕ
dc_inbound_channel_size = 16

module _ {T : Types} {C : Type 0} where
  -- The event loop over the swarm with these calls made.
  abbrev pub loop_of : NodeConfig → ℕ → Trace T → EventLoop T C
  loop_of config next_id trace =
      new_event_loop trace (new_pending config.req_resp_timeout) config.protocol_version
        config.data_channel_limits new_registry
        (record { queue = []; capacity = dc_inbound_channel_size; closed = false }) next_id
        config.enable_relay_client config.infrastructure_mode

  abbrev pub after_listening :
      NodeConfig → ℕ → Trace T × Result (Unit {0}) Error → Trace T × Result (EventLoop T C) Error
  after_listening config next_id (trace, err e) = (trace, err e)
  after_listening config next_id (trace, ok u) =
      let s : EventLoop T C =
        connect_bootstrap_peers config.bootstrap_peers (loop_of config next_id trace) in
      (s.trace, ok s)

  -- `start` from the swarm on, once it is built: the calls made and the event loop that runs from then
  -- on, or the error. With no bootstrap peers
  -- the loop over them does nothing, which is what the code's test for them comes to.
  unfoldable pub start_node : Swarm T → NodeConfig → ℕ → Trace T × Result (EventLoop T C) Error
  start_node sw config next_id =
      after_listening config next_id (start_listen sw config.listen_addrs [])

-- libp2p's `SwarmBuilder`: the answers of its steps, and the swarm that it builds with a behaviour and
-- an idle timeout. `with_dns` is `ok` where the feature `dns` is off.
pub record SwarmBuilder (T : Types) : Type 0 where
  pub with_tcp : Result (Unit {0}) String
  pub with_dns : Result (Unit {0}) String
  pub with_relay_client : Result (Unit {0}) String
  pub with_behaviour : BehaviourPlan → Result (Unit {0}) String
  pub build : BehaviourPlan → ℕ → Swarm T

-- What `anyhow` wraps of a start that fails: a step of the builder, by its text, or an error of the
-- event loop.
pub data StartError : Type 0 where
  not_built : String → StartError
  not_started : Error → StartError

module _ {T : Types} where
  -- `?` on a step of the builder.
  abbrev pub and_build :
      Result (Unit {0}) String → Result (Swarm T) String → Result (Swarm T) String
  and_build (ok u) next = next
  and_build (err e) next = err e

  unfoldable pub build_swarm : SwarmBuilder T → NodeConfig → Result (Swarm T) String
  build_swarm b config =
      let plan = plan_behaviour config in
      and_build b.with_tcp (
        and_build b.with_dns (
          and_build b.with_relay_client
            (and_build (b.with_behaviour plan) (ok (b.build plan config.idle_connection_timeout)))))

  module _ {C : Type 0} where
    abbrev pub wrapped :
        Trace T × Result (EventLoop T C) Error → Trace T × Result (EventLoop T C) StartError
    wrapped (trace, ok s) = (trace, ok s)
    wrapped (trace, err e) = (trace, err (not_started e))

    abbrev pub after_built :
        NodeConfig → ℕ → Result (Swarm T) String → Trace T × Result (EventLoop T C) StartError
    after_built config next_id (err e) = ([], err (not_built e))
    after_built config next_id (ok sw) = wrapped (start_node sw config next_id)

    unfoldable pub start :
        SwarmBuilder T → NodeConfig → ℕ → Trace T × Result (EventLoop T C) StartError
    start b config next_id = after_built config next_id (build_swarm b config)
