-- ===== src/Node/Process/Lan.antt =====
-- The LAN addresses that a whole node advertises, over any turns of the loop in
-- core/src/runtime/event_loop.rs with the commands of core/src/command.
pub mod Always
use swarm_p2p.Prelude.{
  ℕ, ◌≡◌, refl, true, ap, ◌∙◌, not, ◌&&◌, inl, inr, Bool-cases, Option-cases, Option, none, some,
  List, [], ◌∷◌, ◌++◌, take_at, retain,
}
use swarm_p2p.DataChannel.{
  PeerId, StreamProtocol, Stream, inbound, ChannelGuard, DataChannel, next_channel_id,
}
use swarm_p2p.DataChannel.Registry.{RegistryInner, try_acquire}
use swarm_p2p.Error.{ok, Result-cases}
use swarm_p2p.Handle.{Channel, try_send}
use swarm_p2p.Config.{NodeConfig}
use swarm_p2p.Event.{NodeEvent}
use swarm_p2p.Swarm.{Types, Swarm, Trace, SwarmEvent, Call, polled, listen_on, add_external_address}
use swarm_p2p.Swarm.Addr.{Multiaddr}
use swarm_p2p.Chain.{chain}
use swarm_p2p.Command.{RelayRequest, CommandTrait}
use swarm_p2p.Command.Active.Queue.{Active, active_trait, run_active}
use swarm_p2p.Command.Active.Queue.Calls.{Quietly, same, more, is_quiet, run_active-Quietly}
use swarm_p2p.EventLoop.{EventLoop, Env, start_listen, connect_bootstrap_peers, listen_next}
use swarm_p2p.EventLoop.Relay.{request_relay_reservations}
use swarm_p2p.EventLoop.Lan.Advertised.{
  Advertises, Fit, empty, externals, externals-request, convert-Advertises,
}
use swarm_p2p.EventLoop.Convert.{convert_to_node_event}
use swarm_p2p.EventLoop.Inbound.{hand_over, accept_channel, handle_inbound_channel}
use swarm_p2p.EventLoop.Run.{
  reserve, send, forward, handle_command, handle_swarm_event, handle_selected, Selected, command,
  swarm_event, inbound_channel, turn,
}
use swarm_p2p.Node.{start_node, after_listening, loop_of}

module _ {T : Types} where
  externals-quiet :
      (call : Call T) (trace : Trace T)
      → is_quiet call ≡ true
      → externals (call ∷ trace) ≡ externals trace
  externals-quiet (add_external_address addr) trace quiet = cc
  externals-quiet _ trace quiet = refl

  externals-Quietly :
      {before : Trace T} (after : Trace T)
      → Quietly before after
      → externals after ≡ externals before
  externals-Quietly after same = refl
  externals-Quietly _ (more call {after} q quiet) =
      externals-quiet call after quiet ∙ externals-Quietly after q

  pub externals-listened :
      (sw : Swarm T) (addrs : List Multiaddr) (trace : Trace T)
      → externals (start_listen sw addrs trace).0 ≡ externals trace
  unfolding start_listen
  externals-listened sw [] trace = refl
  externals-listened sw (addr ∷ addrs) trace = elim (Result-cases (sw.listen_answer trace addr)) [
    | inl (u, e) ↦ rw e (externals-listened sw addrs (listen_on addr ∷ trace))
    | inr (text, e) ↦ rw e refl
  ]

  module _ {C : Type 0} where
    -- The same addresses told and kept.
    pub record Views (s s' : EventLoop T C) : Type 0 where
      pub told : externals s'.trace ≡ externals s.trace
      pub kept : s'.advertised_lan_addrs ≡ s.advertised_lan_addrs

    pub Views-Advertises : (s s' : EventLoop T C) → Views s s' → Advertises s → Advertises s'
    Views-Advertises s s' v a = record { fit = rw v.kept a.fit; told = v.told ∙ rw v.kept a.told }

    pub connect-Views :
        (peers : List (PeerId × Multiaddr)) (s : EventLoop T C)
        → Views s (connect_bootstrap_peers peers s)
    unfolding connect_bootstrap_peers
    connect-Views [] s = record { told = refl; kept = refl }
    connect-Views ((peer, addr) ∷ peers) s =
        let v = connect-Views peers _ in record { told = v.told; kept = v.kept }

    reserve-Views :
        (sw : Swarm T) (request : RelayRequest) (s : EventLoop T C) → Views s (reserve sw request s)
    reserve-Views sw none s = record { told = refl; kept = refl }
    reserve-Views sw (some (peer, addrs)) s = elim (Bool-cases (sw.is_connected s.trace peer)) [
      | inl connected ↦
          rw connected (record { told = externals-request peer addrs s.trace; kept = refl })
      | inr waits ↦ rw waits (record { told = refl; kept = refl })
    ]

    hand_over-Views :
        (taken : Option (Channel DataChannel)) (g : ChannelGuard) (s : EventLoop T C)
        → Views s (hand_over taken g s)
    hand_over-Views none g s = record { told = refl; kept = refl }
    hand_over-Views (some tx) g s = record { told = refl; kept = refl }

    accept-Views :
        (peer : PeerId) (protocol : StreamProtocol) (stream : Stream) (s : EventLoop T C)
        (r : RegistryInner × Option ChannelGuard)
        → Views s (accept_channel peer protocol stream r s)
    accept-Views peer protocol stream s (inner, none) = record { told = refl; kept = refl }
    accept-Views peer protocol stream s (inner, some g) =
        let (id, counter) = next_channel_id s.next_channel_id in
        let channel : DataChannel = record {
          id = id;
          peer = peer;
          protocol = protocol;
          direction = inbound;
          stream = stream;
          guard = some g;
        } in
        let v =
          hand_over-Views (try_send channel s.inbound_dc_tx) g
            (record s { dc_registry = inner; next_channel_id = counter }) in
        record { told = v.told; kept = v.kept }

    inbound-Views :
        (protocol : StreamProtocol) (peer : PeerId) (stream : Stream) (s : EventLoop T C)
        → Views s (handle_inbound_channel protocol peer stream s)
    unfolding handle_inbound_channel
    inbound-Views protocol peer stream s =
        accept-Views peer protocol stream s
          (try_acquire s.dc_limits s.dc_registry peer protocol inbound)

    send-Advertises :
        (sw : Swarm T) (cmds : CommandTrait T C) (env : Env)
        (r : EventLoop T C × Option (NodeEvent T))
        → Advertises r.0
        → Advertises (send sw cmds env r)
    send-Advertises sw cmds env (s, none) a = a
    send-Advertises sw cmds env (s, some event) a = elim (Bool-cases env.event_open) [
      | inl heard ↦ rw heard (record { fit = a.fit; told = a.told })
      | inr gone ↦ rw gone a
    ]

    forward-Advertises :
        (sw : Swarm T) (cmds : CommandTrait T C) (env : Env) (remaining : Option (SwarmEvent T))
        (s : EventLoop T C)
        → Advertises s
        → Advertises (forward sw cmds env remaining s)
    forward-Advertises sw cmds env none s a = a
    forward-Advertises sw cmds env (some event) s a =
        send-Advertises sw cmds env (convert_to_node_event sw env event s)
          (convert-Advertises sw env event s a)

module _ {T : Types} (sw : Swarm T) (env : Env) where
  command-Advertises :
      (cmd : Active T) (s : EventLoop T (Active T))
      → Advertises s
      → Advertises (handle_command sw (active_trait sw) cmd s)
  unfolding handle_command
  command-Advertises cmd s a =
      let (ran, trace) = run_active sw cmd s.trace in
      let request = ((active_trait sw).take_relay_reservation_request ran).1 in
      let after = record s { trace = trace } in
      let b =
        Views-Advertises after (reserve sw request after) (reserve-Views sw request after) (record {
          fit = a.fit;
          told = externals-Quietly trace (run_active-Quietly sw s.trace cmd) ∙ a.told;
        }) in
      record { fit = b.fit; told = b.told }

  event-Advertises :
      (event : SwarmEvent T) (s : EventLoop T (Active T))
      → Advertises s
      → Advertises (handle_swarm_event sw (active_trait sw) env event s)
  unfolding handle_swarm_event
  event-Advertises event s a =
      let (active, remaining) = chain (active_trait sw).on_event_boxed s.active_commands event in
      forward-Advertises sw (active_trait sw) env remaining (record s { active_commands = active })
        (record { fit = a.fit; told = a.told })

  selected-Advertises :
      (selected : Selected sw (active_trait sw)) (s : EventLoop T (Active T))
      → Advertises s
      → Advertises (handle_selected sw (active_trait sw) env selected s)
  selected-Advertises (command cmd) s a = command-Advertises cmd s a
  selected-Advertises (swarm_event event) s a =
      event-Advertises event (record s { trace = polled ∷ s.trace })
        (record { fit = a.fit; told = a.told })
  selected-Advertises (inbound_channel protocol peer stream) s a =
      Views-Advertises s (handle_inbound_channel protocol peer stream s)
        (inbound-Views protocol peer stream s) a

  pub turn-Advertises :
      (selected : Selected sw (active_trait sw)) (s : EventLoop T (Active T))
      → Advertises s
      → Advertises (turn sw (active_trait sw) env selected s)
  unfolding turn
  turn-Advertises selected s a =
      let kept = retain (λ c. not ((active_trait sw).is_cancelled c)) s.active_commands in
      selected-Advertises selected (record s { active_commands = kept })
        (record { fit = a.fit; told = a.told })
