-- ===== src/Node/Process/Relay/Turn.antt =====
-- The relay reservations over a whole turn of the loop in core/src/runtime/event_loop.rs, with the
-- commands of core/src/command.
use swarm_p2p.Prelude.{
  ℕ, ◌≡◌, refl, not, ◌&&◌, inl, inr, Bool, Bool-cases, Option, none, some, List, [], ◌∷◌, arith,
  length, unwrap_or, if◌then◌else◌, retain,
}
use swarm_p2p.Prelude.Map.{IsMap}
use swarm_p2p.DataChannel.{PeerId}
use swarm_p2p.Swarm.{Types, Swarm, Trace, SwarmEvent, polled}
use swarm_p2p.Swarm.Addr.{Multiaddr}
use swarm_p2p.Chain.{chain}
use swarm_p2p.Command.{command_trait, run_boxed}
use swarm_p2p.Command.Peer.{run_add_infrastructure_peer, take_relay_request, register_addresses}
use swarm_p2p.Command.Active.Queue.{
  Active, adding_infrastructure, active_trait, run_active, take_relay_active,
}
use swarm_p2p.Command.Active.Queue.Calls.{run_active-Quietly}
use swarm_p2p.EventLoop.{EventLoop, Env}
use swarm_p2p.EventLoop.Relay.Conserved.{requested, reserve-Adds}
use swarm_p2p.EventLoop.Run.{
  handle_command, handle_swarm_event, handle_selected, Selected, command, swarm_event,
  inbound_channel, turn,
}
use swarm_p2p.Node.Process.Relay.{Grown, listens-Quietly, forward-Grown, inbound-Grown}

-- The addresses that a command asks a reservation for when it is run, with and without a relay client.
abbrev pub asked_for : {T : Types} → Bool → Active T → ℕ
asked_for relay_client (adding_infrastructure t) =
    if t.handler.roles.relay_server && relay_client
    then length t.handler.addrs
    else length (unwrap_or t.handler.pending_relay_addrs [])
asked_for relay_client _ = 0

-- What a turn's command asks for.
abbrev pub selected_for : {T : Types} (sw : Swarm T) → Bool → Selected sw (active_trait sw) → ℕ
selected_for sw relay_client (command cmd) = asked_for relay_client cmd
selected_for sw relay_client _ = 0

requested-pending :
    (peer : PeerId) (waiting : Option (List Multiaddr))
    → requested (elim waiting [ none ↦ none | some addrs ↦ some (peer, addrs) ])
      ≡ length (unwrap_or waiting [])
requested-pending peer none = refl
requested-pending peer (some addrs) = refl

module _ {T : Types} (sw : Swarm T) (relay_client : Bool)
    (steady : (trace : Trace T) → sw.relay_client_is_enabled trace ≡ relay_client) where
  requested-active :
      (cmd : Active T) (trace : Trace T)
      → requested (take_relay_active sw (run_active sw cmd trace).0).1 ≡ asked_for relay_client cmd
  unfolding command_trait run_boxed run_add_infrastructure_peer take_relay_request
  requested-active (adding_infrastructure t) trace =
      let c = t.handler in
      let trace' = register_addresses sw c.peer_id c.roles.kad_server c.addrs trace in
      elim (Bool-cases (c.roles.relay_server && relay_client)) [
        | inl relay ↦ rw (steady trace', relay) refl
        | inr no_relay ↦
            rw (steady trace', no_relay) (requested-pending c.peer_id c.pending_relay_addrs)
      ]
  requested-active _ trace = refl

  command-Grown :
      (cmd : Active T) (s : EventLoop T (Active T))
      → IsMap s.bootstrap_peers
      → Grown (asked_for relay_client cmd) s (handle_command sw (active_trait sw) cmd s)
  unfolding handle_command
  command-Grown cmd s k =
      let (ran, trace) = run_active sw cmd s.trace in
      let (b, c, m) = reserve-Adds sw (take_relay_active sw ran).1 (record s { trace = trace }) k in
      record {
        sum = omega (
          arith,
          b,
          listens-Quietly trace (run_active-Quietly sw s.trace cmd),
          requested-active cmd s.trace,
        );
        kept = m;
      }

  event-Grown :
      (env : Env) (event : SwarmEvent T) (s : EventLoop T (Active T))
      → IsMap s.bootstrap_peers
      → Grown 0 s (handle_swarm_event sw (active_trait sw) env event s)
  unfolding handle_swarm_event
  event-Grown env event s k =
      let (active, remaining) = chain (active_trait sw).on_event_boxed s.active_commands event in
      let g =
        forward-Grown sw (active_trait sw) env remaining (record s { active_commands = active })
          k in
      record { sum = g.sum; kept = g.kept }

  selected-Grown :
      (env : Env) (selected : Selected sw (active_trait sw)) (s : EventLoop T (Active T))
      → IsMap s.bootstrap_peers
      → Grown
          (selected_for sw relay_client selected)
          s
          (handle_selected sw (active_trait sw) env selected s)
  selected-Grown env (command cmd) s k = command-Grown cmd s k
  selected-Grown env (swarm_event event) s k =
      let g = event-Grown env event (record s { trace = polled ∷ s.trace }) k in
      record { sum = g.sum; kept = g.kept }
  selected-Grown env (inbound_channel protocol peer stream) s k =
      inbound-Grown protocol peer stream s k

  pub turn-Grown :
      (env : Env) (selected : Selected sw (active_trait sw)) (s : EventLoop T (Active T))
      → IsMap s.bootstrap_peers
      → Grown (selected_for sw relay_client selected) s (turn sw (active_trait sw) env selected s)
  unfolding turn
  turn-Grown env selected s k =
      let active = retain (λ c. not ((active_trait sw).is_cancelled c)) s.active_commands in
      let g = selected-Grown env selected (record s { active_commands = active }) k in
      record { sum = g.sum; kept = g.kept }
