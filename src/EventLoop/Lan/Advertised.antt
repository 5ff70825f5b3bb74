-- ===== src/EventLoop/Lan/Advertised.antt =====
-- The LAN addresses that core/src/runtime/event_loop.rs advertises, over all events.
use swarm_p2p.Prelude.{
  ◌≡◌, refl, ap, ◌∙◌, true, false, ◌&&◌, Option, none, some, List, [], ◌∷◌, ◌++◌, Bool-cases, inl,
  inr,
}
use swarm_p2p.Prelude.Map.{get}
use swarm_p2p.DataChannel.{PeerId}
use swarm_p2p.Config.{LanHelperConfig}
use swarm_p2p.Swarm.{Types, Swarm, Trace, SwarmEvent, IdentifyInfo, add_external_address}
use swarm_p2p.Swarm
use swarm_p2p.Swarm.Addr.{Multiaddr}
use swarm_p2p.EventLoop.{EventLoop, Env}
use swarm_p2p.EventLoop.Relay.{request_relay_reservations}
use swarm_p2p.EventLoop.Lan.{
  is_usable_lan_addr, contains, advertise, report_status, announce_for,
  maybe_announce_lan_helper_addr,
}
use swarm_p2p.EventLoop.Convert.{
  convert_to_node_event, add_to_kad_and_swarm, sync_addresses, add_discovered, dial_discovered,
  on_identify, reserve_remembered, on_inbound_request, same_text,
}

-- Each address is usable, and none stands twice. The list is built at its end.
pub data Fit : List Multiaddr → Type 0 where
  empty : Fit []
  added :
      {addrs : List Multiaddr} (addr : Multiaddr)
      → Fit addrs
      → is_usable_lan_addr addr ≡ true
      → contains addr addrs ≡ false
      → Fit (addrs ++ addr ∷ [])

module _ {T : Types} where
  -- The external addresses that the swarm was given, oldest first.
  abbrev pub externals : Trace T → List Multiaddr
  externals [] = []
  externals (add_external_address addr ∷ trace) = externals trace ++ addr ∷ []
  externals (_ ∷ trace) = externals trace

  pub externals-request :
      (peer : PeerId) (addrs : List Multiaddr) (trace : Trace T)
      → externals (request_relay_reservations peer addrs trace) ≡ externals trace
  unfolding request_relay_reservations
  externals-request peer [] trace = refl
  externals-request peer (addr ∷ addrs) trace = externals-request peer addrs _

  externals-add :
      (peer : PeerId) (addrs : List Multiaddr) (trace : Trace T)
      → externals (add_to_kad_and_swarm peer addrs trace) ≡ externals trace
  unfolding add_to_kad_and_swarm
  externals-add peer [] trace = refl
  externals-add peer (addr ∷ addrs) trace = externals-add peer addrs _

  externals-sync :
      (peer : PeerId) (addrs : List Multiaddr) (trace : Trace T)
      → externals (sync_addresses peer addrs trace) ≡ externals trace
  unfolding sync_addresses
  externals-sync peer [] trace = refl
  externals-sync peer (addr ∷ addrs) trace = externals-sync peer addrs _

  externals-discovered :
      (peers : List (PeerId × Multiaddr)) (trace : Trace T)
      → externals (add_discovered peers trace) ≡ externals trace
  unfolding add_discovered
  externals-discovered [] trace = refl
  externals-discovered ((peer, addr) ∷ peers) trace = externals-discovered peers _

  externals-dialed :
      (sw : Swarm T) (peers : List PeerId) (trace : Trace T)
      → externals (dial_discovered sw peers trace) ≡ externals trace
  unfolding dial_discovered
  externals-dialed sw [] trace = refl
  externals-dialed sw (peer ∷ peers) trace = elim (Bool-cases (sw.is_connected trace peer)) [
    | inl connected ↦ rw connected (externals-dialed sw peers trace)
    | inr not_connected ↦ rw not_connected (externals-dialed sw peers _)
  ]

  module _ {C : Type 0} where
    -- The advertised addresses are fit, and they are what the swarm was told, in the same order.
    pub record Advertises (s : EventLoop T C) : Type 0 where
      pub fit : Fit s.advertised_lan_addrs
      pub told : externals s.trace ≡ s.advertised_lan_addrs

    advertise-Advertises :
        (addr : Multiaddr) (s : EventLoop T C) → Advertises s → Advertises (advertise addr s)
    unfolding advertise
    advertise-Advertises addr s a = elim (Bool-cases (is_usable_lan_addr addr)) [
      | inr unusable ↦ rw unusable a
      | inl usable ↦ elim (Bool-cases (contains addr s.advertised_lan_addrs)) [
        | inl known ↦ rw (usable, known) a
        | inr new ↦
            rw (usable, new)
              (record { fit = added addr a.fit usable new; told = ap (λ l. l ++ addr ∷ []) a.told })
      ]
    ]

    reserve-Advertises :
        (peer : PeerId) (found : Option (List Multiaddr)) (s : EventLoop T C)
        → Advertises s
        → Advertises (reserve_remembered peer found s)
    reserve-Advertises peer none s a = a
    reserve-Advertises peer (some addrs) s a = record {
      fit = a.fit;
      told = externals-request peer addrs s.trace ∙ a.told;
    }

    identify-Advertises :
        (peer : PeerId) (info : IdentifyInfo) (s : EventLoop T C)
        → Advertises s
        → Advertises (on_identify peer info s)
    unfolding on_identify
    identify-Advertises peer info s a =
        elim (Bool-cases (same_text info.protocol_version s.protocol_version)) [
          | inr mismatch ↦ rw mismatch a
          | inl match ↦ rw match (
              reserve-Advertises peer (get peer s.bootstrap_peers)
                (record s { trace = add_to_kad_and_swarm peer info.listen_addrs s.trace })
                (record {
                  fit = a.fit;
                  told = externals-add peer info.listen_addrs s.trace ∙ a.told;
                }))
        ]

    module _ (sw : Swarm T) (env : Env) where
      announce-Advertises :
          (helper : Option LanHelperConfig) (addr : Multiaddr) (s : EventLoop T C)
          → Advertises s
          → Advertises (announce_for sw env helper addr s)
      unfolding report_status
      announce-Advertises none addr s a = a
      announce-Advertises (some config) addr s a = elim (Bool-cases config.announce_private_addrs) [
        | inr off ↦ rw off a
        | inl on ↦ elim (Bool-cases (env.event_open && env.event_room)) [
          | inl room ↦
              let b = advertise-Advertises addr s a in
              rw (on, room) (record { fit = b.fit; told = b.told })
          | inr full ↦ rw (on, full) (advertise-Advertises addr s a)
        ]
      ]

      -- If each advertised address is a usable LAN address, none stands twice, and they are exactly
      -- the external addresses that the swarm was given, in order, then every event leaves them so.
      pub convert-Advertises :
          (event : SwarmEvent T) (s : EventLoop T C)
          → Advertises s
          → Advertises (convert_to_node_event sw env event s).0
      unfolding convert_to_node_event maybe_announce_lan_helper_addr on_inbound_request
      convert-Advertises (Swarm.new_listen_addr addr) s a =
          announce-Advertises s.lan_helper addr s a
      convert-Advertises (Swarm.identify_received peer info) s a = identify-Advertises peer info s a
      convert-Advertises (Swarm.mdns_discovered peers) s a = record {
        fit = a.fit;
        told = externals-dialed sw _ _ ∙ externals-discovered peers s.trace ∙ a.told;
      }
      convert-Advertises (Swarm.kad_routing_updated peer addrs) s a = record {
        fit = a.fit;
        told = externals-sync peer addrs s.trace ∙ a.told;
      }
      convert-Advertises (Swarm.request_message peer request channel) s a = record {
        fit = a.fit;
        told = a.told;
      }
      convert-Advertises _ s a = a
