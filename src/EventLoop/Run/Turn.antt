-- ===== src/EventLoop/Run/Turn.antt =====
-- A whole turn of `run` in core/src/runtime/event_loop.rs that takes an event of the swarm.
use swarm_p2p.Prelude.{
  not, ◌≡◌, refl, ap, ◌∙◌, ◌⊎◌, inl, inr, Bool-cases, Option-cases, Option, none, some, List, [],
  ◌∷◌, ◌&&◌, retain,
}
use swarm_p2p.Prelude.Map.{get}
use swarm_p2p.DataChannel.{PeerId}
use swarm_p2p.Config.{LanHelperConfig}
use swarm_p2p.Event.{NodeEvent}
use swarm_p2p.Swarm.{Types, Swarm, SwarmEvent, IdentifyInfo, polled}
use swarm_p2p.Swarm
use swarm_p2p.Swarm.Addr.{Multiaddr}
use swarm_p2p.Command.{CommandTrait}
use swarm_p2p.Chain.{chain}
use swarm_p2p.Chain.Delivery.{Passes, Consumes, Delivered, everyone, stopped, chain-Delivered}
use swarm_p2p.EventLoop.{EventLoop, Env}
use swarm_p2p.EventLoop.Lan.{
  is_usable_lan_addr, contains, advertise, report_status, announce_for,
  maybe_announce_lan_helper_addr,
}
use swarm_p2p.EventLoop.Convert.{same_text, on_identify, on_inbound_request, convert_to_node_event}
use swarm_p2p.EventLoop.Run.{send, forward, handle_swarm_event, turn, swarm_event}

module _ {T : Types} {C : Type 0} (active : List C) where
  -- The loop with other active commands.
  abbrev having : EventLoop T C → EventLoop T C
  having s = record s { active_commands = active }

  abbrev having_too : EventLoop T C × Option (NodeEvent T) → EventLoop T C × Option (NodeEvent T)
  having_too (s, event) = (having s, event)

  advertise-having :
      (addr : Multiaddr) (s : EventLoop T C) → advertise addr (having s) ≡ having (advertise addr s)
  unfolding advertise
  advertise-having addr s =
      elim (Bool-cases (is_usable_lan_addr addr && not (contains addr s.advertised_lan_addrs))) [
        | inl new ↦ rw new refl
        | inr known ↦ rw known refl
      ]

  identify-having :
      (peer : PeerId) (info : IdentifyInfo) (s : EventLoop T C)
      → on_identify peer info (having s) ≡ having (on_identify peer info s)
  unfolding on_identify
  identify-having peer info s =
      elim (Bool-cases (same_text info.protocol_version s.protocol_version)) [
        | inr mismatch ↦ rw mismatch refl
        | inl match ↦ rw match (elim (Option-cases (get peer s.bootstrap_peers)) [
          | inl missing ↦ rw missing refl
          | inr (addrs, found) ↦ rw found refl
        ])
      ]

  module _ (sw : Swarm T) (env : Env) where
    report-having :
        (s : EventLoop T C) → report_status sw env (having s) ≡ having (report_status sw env s)
    unfolding report_status
    report-having s = elim (Bool-cases (env.event_open && env.event_room)) [
      | inl room ↦ rw room refl
      | inr full ↦ rw full refl
    ]

    announce-having :
        (helper : Option LanHelperConfig) (addr : Multiaddr) (s : EventLoop T C)
        → announce_for sw env helper addr (having s) ≡ having (announce_for sw env helper addr s)
    announce-having none addr s = refl
    announce-having (some config) addr s = elim (Bool-cases config.announce_private_addrs) [
      | inr off ↦ rw off refl
      | inl on ↦ rw (on, advertise-having addr s) (report-having (advertise addr s))
    ]

    -- The conversion of an event neither reads nor changes the active commands.
    convert-having :
        (event : SwarmEvent T) (s : EventLoop T C)
        → convert_to_node_event sw env event (having s)
          ≡ having_too (convert_to_node_event sw env event s)
    unfolding convert_to_node_event maybe_announce_lan_helper_addr on_inbound_request
    convert-having (Swarm.new_listen_addr addr) s = rw (announce-having s.lan_helper addr s) refl
    convert-having (Swarm.identify_received peer info) s = rw (identify-having peer info s) refl
    convert-having _ s = refl

    module _ (cmds : CommandTrait T C) where
      send-having :
          (r : EventLoop T C × Option (NodeEvent T))
          → send sw cmds env (having_too r) ≡ having (send sw cmds env r)
      send-having (s, none) = refl
      send-having (s, some event) = elim (Bool-cases env.event_open) [
        | inl heard ↦ rw heard refl
        | inr gone ↦ rw gone refl
      ]

      forward-having :
          (event : SwarmEvent T) (s : EventLoop T C)
          → forward sw cmds env (some event) (having s)
            ≡ having (forward sw cmds env (some event) s)
      forward-having event s =
          ap (send sw cmds env) (convert-having event s)
          ∙ send-having (convert_to_node_event sw env event s)

module _ {T : Types} {C : Type 0} (sw : Swarm T) (cmds : CommandTrait T C) (env : Env) where
  pub remaining-cases :
      {event : SwarmEvent T} {before after : List C} {remaining : Option (SwarmEvent T)}
      → Delivered cmds.on_event_boxed event before after remaining
      → (remaining ≡ none) ⊎ (remaining ≡ some event)
  remaining-cases (everyone e seen ps b a) = inr e
  remaining-cases (stopped e seen c unseen ps s b a) = inl e

  -- The active commands `after` a turn that took `event`, in which the commands `kept` were active:
  -- one consumed the event and the rest of the loop is `quiet`, or none did and it is `alone`.
  abbrev pub Turned : SwarmEvent T → List C → EventLoop T C → EventLoop T C → EventLoop T C → Type 0
  Turned event kept quiet alone s =
      (after : List C) × ((Delivered cmds.on_event_boxed event kept after none
          × (s ≡ having after quiet))
        ⊎ (Delivered cmds.on_event_boxed event kept after (some event) × (s ≡ having after alone)))

  forward-Turned :
      (event : SwarmEvent T) (kept after : List C) (remaining : Option (SwarmEvent T))
      (s : EventLoop T C)
      → Delivered cmds.on_event_boxed event kept after remaining
      → Turned event kept s
          (forward sw cmds env (some event) s)
          (forward sw cmds env remaining (having after s))
  forward-Turned event kept after remaining s d = (
    after,
    elim (remaining-cases d) [
      | inl e ↦ inl (rw e at d, rw e refl)
      | inr e ↦ inr (rw e at d, rw e (forward-having after sw env cmds event s))
    ],
  )

  -- A turn of the loop that takes an event of the swarm, if every command either consumes this event
  -- or hands on the very same one. The cancelled commands leave and are not offered the event. The
  -- others are offered it as the loop over them does, which stops at the one that consumes it. If
  -- one does, nothing else of the loop's state changes, but that the swarm was polled. If none does,
  -- all else is as after the same turn of a loop with no active commands.
  pub turn-Turned :
      (event : SwarmEvent T)
      → ((c : C) → Consumes cmds.on_event_boxed event c ⊎ Passes cmds.on_event_boxed event c)
      → (s : EventLoop T C)
      → Turned event
          (retain (λ c. not (cmds.is_cancelled c)) s.active_commands)
          (record s { trace = polled ∷ s.trace })
          (turn sw cmds env (swarm_event event) (record s { active_commands = [] }))
          (turn sw cmds env (swarm_event event) s)
  unfolding turn handle_swarm_event chain
  turn-Turned event hands_on s =
      let kept = retain (λ c. not (cmds.is_cancelled c)) s.active_commands in
      forward-Turned event kept _ _ (record s { trace = polled ∷ s.trace; active_commands = [] })
        (chain-Delivered cmds.on_event_boxed event hands_on kept)
