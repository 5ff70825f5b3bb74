-- ===== src/Node/Process/Share.antt =====
-- What of the state in core/src/runtime/event_loop.rs is about data channels: commands and events
-- leave it alone.
use swarm_p2p.Prelude.{
  ℕ, ◌≡◌, refl, ◌∙◌, ◌&&◌, not, inl, inr, Bool-cases, Option-cases, Option, none, some, List, [],
  ◌∷◌, arith,
}
use swarm_p2p.Prelude.Map.{get}
use swarm_p2p.DataChannel.{PeerId, DataChannelLimits, DataChannel}
use swarm_p2p.DataChannel.Registry.{RegistryInner}
use swarm_p2p.Handle.{Channel}
use swarm_p2p.Swarm.{Types, Swarm, Trace, SwarmEvent, IdentifyInfo, polled}
use swarm_p2p.Swarm
use swarm_p2p.Swarm.Addr.{Multiaddr}
use swarm_p2p.Error.{Error, Result, ok, err}
use swarm_p2p.Config.{LanHelperConfig, NodeConfig}
use swarm_p2p.Node.{start_node, after_listening, loop_of}
use swarm_p2p.Event.{NodeEvent}
use swarm_p2p.Command.{CommandTrait, RelayRequest}
use swarm_p2p.Chain.{chain}
use swarm_p2p.EventLoop.{EventLoop, Env, connect_bootstrap_peers, start_listen}
use swarm_p2p.EventLoop.Lan.{
  is_usable_lan_addr, contains, advertise, report_status, announce_for,
  maybe_announce_lan_helper_addr,
}
use swarm_p2p.EventLoop.Convert.{same_text, on_identify, on_inbound_request, convert_to_node_event}
use swarm_p2p.EventLoop.Run.{reserve, send, forward, handle_command, handle_swarm_event}

-- What the data channels of a loop are about.
abbrev pub Share : Type 0
Share = DataChannelLimits × RegistryInner × Channel DataChannel × ℕ

module _ {T : Types} {C : Type 0} where
  abbrev pub share : EventLoop T C → Share
  share s = (s.dc_limits, s.dc_registry, s.inbound_dc_tx, s.next_channel_id)

  share-advertise : (addr : Multiaddr) (s : EventLoop T C) → share (advertise addr s) ≡ share s
  unfolding advertise
  share-advertise addr s =
      elim (Bool-cases (is_usable_lan_addr addr && not (contains addr s.advertised_lan_addrs))) [
        | inl new ↦ rw new refl
        | inr known ↦ rw known refl
      ]

  share-identify :
      (peer : PeerId) (info : IdentifyInfo) (s : EventLoop T C)
      → share (on_identify peer info s) ≡ share s
  unfolding on_identify
  share-identify peer info s =
      elim (Bool-cases (same_text info.protocol_version s.protocol_version)) [
        | inr mismatch ↦ rw mismatch refl
        | inl match ↦ rw match (elim (Option-cases (get peer s.bootstrap_peers)) [
          | inl missing ↦ rw missing refl
          | inr (addrs, found) ↦ rw found refl
        ])
      ]

  share-connect :
      (peers : List (PeerId × Multiaddr)) (s : EventLoop T C)
      → share (connect_bootstrap_peers peers s) ≡ share s
  unfolding connect_bootstrap_peers
  share-connect [] s = refl
  share-connect ((peer, addr) ∷ peers) s = share-connect peers _

  share-listened :
      (config : NodeConfig) (next_id : ℕ) (listened : Trace T × Result (Unit {0}) Error)
      (loop : EventLoop T C)
      → (after_listening {C = C} config next_id listened).1 ≡ ok loop
      → share loop ≡ share (loop_of {T = T} {C = C} config next_id [])
  share-listened config next_id (trace, err e) loop started = cc
  share-listened config next_id (trace, ok u) loop started =
      ground (arith, share-connect config.bootstrap_peers (loop_of config next_id trace))

  module _ (sw : Swarm T) where
    -- A node begins with an empty registry and an empty queue.
    pub share-start_node :
        (config : NodeConfig) (next_id : ℕ) (loop : EventLoop T C)
        → (start_node sw config next_id).1 ≡ ok loop
        → share loop ≡ share (loop_of {T = T} {C = C} config next_id [])
    unfolding start_node
    share-start_node config next_id loop started =
        share-listened config next_id (start_listen sw config.listen_addrs []) loop started

    share-reserve :
        (request : RelayRequest) (s : EventLoop T C) → share (reserve sw request s) ≡ share s
    share-reserve none s = refl
    share-reserve (some (peer, addrs)) s = elim (Bool-cases (sw.is_connected s.trace peer)) [
      | inl connected ↦ rw connected refl
      | inr waits ↦ rw waits refl
    ]

    module _ (env : Env) where
      share-report : (s : EventLoop T C) → share (report_status sw env s) ≡ share s
      unfolding report_status
      share-report s = elim (Bool-cases (env.event_open && env.event_room)) [
        | inl room ↦ rw room refl
        | inr full ↦ rw full refl
      ]

      share-announce :
          (helper : Option LanHelperConfig) (addr : Multiaddr) (s : EventLoop T C)
          → share (announce_for sw env helper addr s) ≡ share s
      share-announce none addr s = refl
      share-announce (some config) addr s = elim (Bool-cases config.announce_private_addrs) [
        | inr off ↦ rw off refl
        | inl on ↦ rw on (share-report (advertise addr s) ∙ share-advertise addr s)
      ]

      share-convert :
          (event : SwarmEvent T) (s : EventLoop T C)
          → share (convert_to_node_event sw env event s).0 ≡ share s
      unfolding convert_to_node_event maybe_announce_lan_helper_addr on_inbound_request
      share-convert (Swarm.new_listen_addr addr) s = share-announce s.lan_helper addr s
      share-convert (Swarm.identify_received peer info) s = share-identify peer info s
      share-convert _ s = refl

      module _ (cmds : CommandTrait T C) where
        share-send :
            (r : EventLoop T C × Option (NodeEvent T)) → share (send sw cmds env r) ≡ share r.0
        share-send (s, none) = refl
        share-send (s, some event) = elim (Bool-cases env.event_open) [
          | inl heard ↦ rw heard refl
          | inr gone ↦ rw gone refl
        ]

        share-forward :
            (remaining : Option (SwarmEvent T)) (s : EventLoop T C)
            → share (forward sw cmds env remaining s) ≡ share s
        share-forward none s = refl
        share-forward (some event) s =
            share-send (convert_to_node_event sw env event s) ∙ share-convert event s

        pub share-handle_swarm_event :
            (event : SwarmEvent T) (s : EventLoop T C)
            → share (handle_swarm_event sw cmds env event s) ≡ share s
        unfolding handle_swarm_event
        share-handle_swarm_event event s =
            let (active, remaining) = chain cmds.on_event_boxed s.active_commands event in
            share-forward remaining (record s { active_commands = active })

        pub share-handle_command :
            (cmd : C) (s : EventLoop T C) → share (handle_command sw cmds cmd s) ≡ share s
        unfolding handle_command
        share-handle_command cmd s =
            let (ran, trace) = cmds.run_boxed cmd s.trace in
            share-reserve (cmds.take_relay_reservation_request ran).1 (record s { trace = trace })
