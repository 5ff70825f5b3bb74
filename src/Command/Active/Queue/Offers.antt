-- ===== src/Command/Active/Queue/Offers.antt =====
-- An event of the swarm that goes through active commands of any kinds, as the loop of
-- core/src/runtime/event_loop.rs offers it.
use swarm_p2p.Prelude.{refl, ◌⊎◌, inr, List}
use swarm_p2p.Swarm.{Types, Swarm, SwarmEvent}
use swarm_p2p.Chain.{chain}
use swarm_p2p.Chain.Delivery.{Consumes, Passes, Delivered, chain-Delivered}
use swarm_p2p.Command.{command_trait, on_event_boxed}
use swarm_p2p.Command.Active.{
  dial-HandsOn, disconnect-HandsOn, send_request-HandsOn, bootstrap-HandsOn,
  get_closest_peers-HandsOn, get_providers-HandsOn, get_record-HandsOn, put_record-HandsOn,
  start_provide-HandsOn,
}
use swarm_p2p.Command.Active.Queue.{
  Active, dialing, disconnecting, listing, checking, adding_addrs, adding_infrastructure,
  requesting, responding, bootstrapping, getting_closest, getting_providers, getting_record,
  putting_record, providing, unproviding, removing, on_event_active,
}

module _ {T : Types} (sw : Swarm T) where
  pub active-hands_on :
      (event : SwarmEvent T) (c : Active T)
      → Consumes (on_event_active sw) event c ⊎ Passes (on_event_active sw) event c
  unfolding command_trait on_event_boxed
  active-hands_on event (dialing t) = dial-HandsOn sw t.handler event
  active-hands_on event (disconnecting t) = disconnect-HandsOn sw t.handler event
  active-hands_on event (listing t) = inr refl
  active-hands_on event (checking t) = inr refl
  active-hands_on event (adding_addrs t) = inr refl
  active-hands_on event (adding_infrastructure t) = inr refl
  active-hands_on event (requesting t) = send_request-HandsOn sw t.handler event
  active-hands_on event (responding t) = inr refl
  active-hands_on event (bootstrapping t) = bootstrap-HandsOn sw t.handler event
  active-hands_on event (getting_closest t) = get_closest_peers-HandsOn sw t.handler event
  active-hands_on event (getting_providers t) = get_providers-HandsOn sw t.handler event
  active-hands_on event (getting_record t) = get_record-HandsOn sw t.handler event
  active-hands_on event (putting_record t) = put_record-HandsOn sw t.handler event
  active-hands_on event (providing t) = start_provide-HandsOn sw t.handler event
  active-hands_on event (unproviding t) = inr refl
  active-hands_on event (removing t) = inr refl

  -- With active commands of any kinds, the loop offers an event to each at most once, to all of them
  -- unless one consumes it, and to no further command after that one. Afterwards the active commands
  -- are, in some order, those that were offered the event and stay, with their new states, and those
  -- that were not offered it, unchanged. The event is handed on exactly if nobody consumed it.
  pub active-Delivered :
      (event : SwarmEvent T) (active : List (Active T))
      → Delivered
          (on_event_active sw)
          event
          active
          (chain (on_event_active sw) active event).0
          (chain (on_event_active sw) active event).1
  active-Delivered event active =
      chain-Delivered (on_event_active sw) event (active-hands_on event) active
