-- ===== src/Node/Process/Relay.antt =====
-- The relay reservations of a whole node: what the events and streams of core/src/runtime/event_loop.rs
-- leave of them.
pub mod Turn
pub mod Always
use swarm_p2p.Prelude.{
  ℕ, ◌+◌, ◌≡◌, refl, ap, ◌∙◌, not, ◌&&◌, inl, inr, Bool, true, false, Bool-cases, Option-cases,
  Option, none, some, List, [], ◌∷◌, ◌++◌, arith, length, unwrap_or, if◌then◌else◌, retain,
}
use swarm_p2p.Prelude.Map.{IsMap}
use swarm_p2p.DataChannel.{
  PeerId, StreamProtocol, Stream, inbound, ChannelGuard, DataChannel, next_channel_id,
}
use swarm_p2p.DataChannel.Registry.{RegistryInner, try_acquire}
use swarm_p2p.Handle.{Channel, try_send}
use swarm_p2p.Config.{LanHelperConfig}
use swarm_p2p.Event.{NodeEvent}
use swarm_p2p.Swarm.{Types, Swarm, Trace, SwarmEvent, Call, polled, listen_on}
use swarm_p2p.Swarm
use swarm_p2p.Swarm.Addr.{Multiaddr}
use swarm_p2p.Chain.{chain}
use swarm_p2p.Command.{CommandTrait, command_trait, run_boxed}
use swarm_p2p.Command.Peer.{run_add_infrastructure_peer, take_relay_request, register_addresses}
use swarm_p2p.Command.Active.Queue.{
  Active, dialing, disconnecting, listing, checking, adding_addrs, adding_infrastructure,
  requesting, responding, bootstrapping, getting_closest, getting_providers, getting_record,
  putting_record, providing, unproviding, removing, active_trait, run_active, take_relay_active,
}
use swarm_p2p.Command.Active.Queue.Calls.{Quietly, same, more, is_quiet, run_active-Quietly}
use swarm_p2p.EventLoop.{EventLoop, Env}
use swarm_p2p.EventLoop.Lan.{
  is_usable_lan_addr, contains, advertise, report_status, announce_for,
  maybe_announce_lan_helper_addr,
}
use swarm_p2p.EventLoop.Relay.Conserved.{
  listens, balance, Adds, requested, reserve-Adds, identify-Adds,
}
use swarm_p2p.EventLoop.Convert.{
  convert_to_node_event, sync_addresses, add_discovered, dial_discovered, on_inbound_request,
}
use swarm_p2p.EventLoop.Inbound.{hand_over, accept_channel, handle_inbound_channel}
use swarm_p2p.EventLoop.Run.{
  reserve, send, forward, handle_command, handle_swarm_event, handle_selected, Selected, command,
  swarm_event, inbound_channel, turn,
}
use swarm_p2p.EventLoop.Run.Turn.{remaining-cases}

module _ {T : Types} where
  listens-quiet :
      (call : Call T) (trace : Trace T)
      → is_quiet call ≡ true
      → listens (call ∷ trace) ≡ listens trace
  listens-quiet (listen_on addr) trace quiet = cc
  listens-quiet _ trace quiet = refl

  pub listens-Quietly :
      {before : Trace T} (after : Trace T) → Quietly before after → listens after ≡ listens before
  listens-Quietly after same = refl
  listens-Quietly _ (more call {after} q quiet) =
      listens-quiet call after quiet ∙ listens-Quietly after q

  listens-sync :
      (peer : PeerId) (addrs : List Multiaddr) (trace : Trace T)
      → listens (sync_addresses peer addrs trace) ≡ listens trace
  unfolding sync_addresses
  listens-sync peer [] trace = refl
  listens-sync peer (addr ∷ addrs) trace = listens-sync peer addrs _

  listens-discovered :
      (peers : List (PeerId × Multiaddr)) (trace : Trace T)
      → listens (add_discovered peers trace) ≡ listens trace
  unfolding add_discovered
  listens-discovered [] trace = refl
  listens-discovered ((peer, addr) ∷ peers) trace = listens-discovered peers _

  listens-dialed :
      (sw : Swarm T) (peers : List PeerId) (trace : Trace T)
      → listens (dial_discovered sw peers trace) ≡ listens trace
  unfolding dial_discovered
  listens-dialed sw [] trace = refl
  listens-dialed sw (peer ∷ peers) trace = elim (Bool-cases (sw.is_connected trace peer)) [
    | inl connected ↦ rw connected (listens-dialed sw peers trace)
    | inr absent ↦ rw absent (listens-dialed sw peers _)
  ]

  module _ {C : Type 0} where
    -- From `s` to `s'` with `n` more addresses.
    pub record Grown (n : ℕ) (s s' : EventLoop T C) : Type 0 where
      pub sum : balance s' ≡ balance s + n
      pub kept : IsMap s'.bootstrap_peers

    module _ (s : EventLoop T C) (k : IsMap s.bootstrap_peers) where
      advertise-Grown : (addr : Multiaddr) → Grown 0 s (advertise addr s)
      unfolding advertise
      advertise-Grown addr =
          elim (Bool-cases
            (is_usable_lan_addr addr && not (contains addr s.advertised_lan_addrs))) [
              | inl new ↦ rw new (record { sum = omega arith; kept = k })
              | inr known ↦ rw known (record { sum = omega arith; kept = k })
            ]

      announce-Grown :
          (sw : Swarm T) (env : Env) (helper : Option LanHelperConfig) (addr : Multiaddr)
          → Grown 0 s (announce_for sw env helper addr s)
      unfolding report_status
      announce-Grown sw env none addr = record { sum = omega arith; kept = k }
      announce-Grown sw env (some config) addr = elim (Bool-cases config.announce_private_addrs) [
        | inr off ↦ rw off (record { sum = omega arith; kept = k })
        | inl on ↦
            let g = advertise-Grown addr in
            elim (Bool-cases (env.event_open && env.event_room)) [
              | inl room ↦ rw (on, room) (record { sum = g.sum; kept = g.kept })
              | inr full ↦ rw (on, full) g
            ]
      ]

      convert-Grown :
          (sw : Swarm T) (env : Env) (event : SwarmEvent T)
          → Grown 0 s (convert_to_node_event sw env event s).0
      unfolding convert_to_node_event maybe_announce_lan_helper_addr on_inbound_request
      convert-Grown sw env (Swarm.new_listen_addr addr) = announce-Grown sw env s.lan_helper addr
      convert-Grown sw env (Swarm.identify_received peer info) =
          let (b, c, m) = identify-Adds peer info s k in record { sum = b; kept = m }
      convert-Grown sw env (Swarm.mdns_discovered peers) = record {
        sum = omega (
          arith,
          listens-dialed sw _ (add_discovered peers s.trace),
          listens-discovered peers s.trace,
        );
        kept = k;
      }
      convert-Grown sw env (Swarm.kad_routing_updated peer addrs) = record {
        sum = omega (arith, listens-sync peer addrs s.trace);
        kept = k;
      }
      convert-Grown sw env _ = record { sum = omega arith; kept = k }

    send-Grown :
        (sw : Swarm T) (cmds : CommandTrait T C) (env : Env) (s : EventLoop T C)
        (r : EventLoop T C × Option (NodeEvent T))
        → Grown 0 s r.0
        → Grown 0 s (send sw cmds env r)
    send-Grown sw cmds env s (s', none) g = g
    send-Grown sw cmds env s (s', some event) g = elim (Bool-cases env.event_open) [
      | inl heard ↦ rw heard (record { sum = g.sum; kept = g.kept })
      | inr gone ↦ rw gone g
    ]

    pub forward-Grown :
        (sw : Swarm T) (cmds : CommandTrait T C) (env : Env) (remaining : Option (SwarmEvent T))
        (s : EventLoop T C)
        → IsMap s.bootstrap_peers
        → Grown 0 s (forward sw cmds env remaining s)
    forward-Grown sw cmds env none s k = record { sum = omega arith; kept = k }
    forward-Grown sw cmds env (some event) s k =
        send-Grown sw cmds env s (convert_to_node_event sw env event s)
          (convert-Grown s k sw env event)

    hand_over-Grown :
        (taken : Option (Channel DataChannel)) (g : ChannelGuard) (s : EventLoop T C)
        → IsMap s.bootstrap_peers
        → Grown 0 s (hand_over taken g s)
    hand_over-Grown none g s k = record { sum = omega arith; kept = k }
    hand_over-Grown (some tx) g s k = record { sum = omega arith; kept = k }

    accept-Grown :
        (peer : PeerId) (protocol : StreamProtocol) (stream : Stream) (s : EventLoop T C)
        (r : RegistryInner × Option ChannelGuard)
        → IsMap s.bootstrap_peers
        → Grown 0 s (accept_channel peer protocol stream r s)
    accept-Grown peer protocol stream s (inner, none) k = record { sum = omega arith; kept = k }
    accept-Grown peer protocol stream s (inner, some g) k =
        let (id, counter) = next_channel_id s.next_channel_id in
        let channel : DataChannel = record {
          id = id;
          peer = peer;
          protocol = protocol;
          direction = inbound;
          stream = stream;
          guard = some g;
        } in
        let grown =
          hand_over-Grown (try_send channel s.inbound_dc_tx) g
            (record s { dc_registry = inner; next_channel_id = counter }) k in
        record { sum = grown.sum; kept = grown.kept }

    pub inbound-Grown :
        (protocol : StreamProtocol) (peer : PeerId) (stream : Stream) (s : EventLoop T C)
        → IsMap s.bootstrap_peers
        → Grown 0 s (handle_inbound_channel protocol peer stream s)
    unfolding handle_inbound_channel
    inbound-Grown protocol peer stream s k =
        accept-Grown peer protocol stream s
          (try_acquire s.dc_limits s.dc_registry peer protocol inbound) k
