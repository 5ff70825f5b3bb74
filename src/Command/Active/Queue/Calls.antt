-- ===== src/Command/Active/Queue/Calls.antt =====
-- The calls to the swarm that the commands of core/src/command make when they are run.
use swarm_p2p.Prelude.{
  ◌≡◌, refl, inl, inr, Bool, true, false, List, [], ◌∷◌, Bool-cases, Option-cases,
}
use swarm_p2p.DataChannel.{PeerId}
use swarm_p2p.Error.{Result-cases}
use swarm_p2p.Swarm.{
  Types, Swarm, Trace, Call, listen_on, add_external_address, add_peer_address, kad_add_address,
}
use swarm_p2p.Swarm.Addr.{Multiaddr}
use swarm_p2p.Command.{run_boxed, command_trait}
use swarm_p2p.Command.Listing.{run_get_listen_addrs}
use swarm_p2p.Command.Peer.{
  run_dial, run_disconnect, run_is_connected, run_add_peer_addrs, add_addresses, register_addresses,
  run_add_infrastructure_peer, DialCommand, AddInfrastructurePeerCommand,
}
use swarm_p2p.Command.ReqResp.{
  run_send_request, run_send_response, SendRequestCommand, SendResponseCommand,
}
use swarm_p2p.Command.Kad.{
  run_put_record, run_start_provide, run_stop_provide, run_remove_record, PutRecordCommand,
  StartProvideCommand,
}
use swarm_p2p.Command.KadQueries.{
  run_bootstrap, run_get_closest_peers, run_get_providers, run_get_record, BootstrapCommand,
}
use swarm_p2p.Command.Active.Queue.{
  Active, dialing, disconnecting, listing, checking, adding_addrs, adding_infrastructure,
  requesting, responding, bootstrapping, getting_closest, getting_providers, getting_record,
  putting_record, providing, unproviding, removing, run_active,
}

module _ {T : Types} where
  -- A call that neither listens nor adds an external address.
  abbrev pub is_quiet : Call T → Bool
  is_quiet (listen_on addr) = false
  is_quiet (add_external_address addr) = false
  is_quiet _ = true

  -- More calls, all of them quiet.
  pub data Quietly (before : Trace T) : Trace T → Type 0 where
    same : Quietly before before
    more :
        (call : Call T) {after : Trace T}
        → Quietly before after
        → is_quiet call ≡ true
        → Quietly before (call ∷ after)

  add_addresses-Quietly :
      (sw : Swarm T) (peer : PeerId) (addrs : List Multiaddr) {before after : Trace T}
      → Quietly before after
      → Quietly before (add_addresses sw peer addrs after)
  unfolding add_addresses
  add_addresses-Quietly sw peer [] q = q
  add_addresses-Quietly sw peer (addr ∷ addrs) q =
      add_addresses-Quietly sw peer addrs (more (add_peer_address peer addr) q refl)

  register_addresses-Quietly :
      (sw : Swarm T) (peer : PeerId) (kad_server : Bool) (addrs : List Multiaddr)
      {before after : Trace T}
      → Quietly before after
      → Quietly before (register_addresses sw peer kad_server addrs after)
  unfolding register_addresses
  register_addresses-Quietly sw peer kad_server [] q = q
  register_addresses-Quietly sw peer true (addr ∷ addrs) q =
      register_addresses-Quietly sw peer true addrs
        (more (kad_add_address peer addr) (more (add_peer_address peer addr) q refl) refl)
  register_addresses-Quietly sw peer false (addr ∷ addrs) q =
      register_addresses-Quietly sw peer false addrs (more (add_peer_address peer addr) q refl)

module _ {T : Types} (sw : Swarm T) (trace : Trace T) where
  run_dial-Quietly : (c : DialCommand) → Quietly trace (run_dial sw c trace).trace
  unfolding run_dial
  run_dial-Quietly c = elim (Bool-cases (sw.is_connected trace c.peer_id)) [
    | inl connected ↦ rw connected same
    | inr absent ↦ rw absent (more _ same refl)
  ]

  run_infrastructure-Quietly :
      (c : AddInfrastructurePeerCommand)
      → Quietly trace (run_add_infrastructure_peer sw c trace).trace
  unfolding run_add_infrastructure_peer
  run_infrastructure-Quietly c =
      let trace' = register_addresses sw c.peer_id c.roles.kad_server c.addrs trace in
      let registered : Quietly trace trace' =
        register_addresses-Quietly sw c.peer_id c.roles.kad_server c.addrs same in
      elim (Bool-cases (sw.is_connected trace' c.peer_id)) [
        | inl connected ↦ rw connected registered
        | inr absent ↦ rw absent (more _ registered refl)
      ]

  run_send_request-Quietly :
      (c : SendRequestCommand T) → Quietly trace (run_send_request sw c trace).trace
  unfolding run_send_request
  run_send_request-Quietly c = elim (Option-cases c.request) [
    | inl twice ↦ rw twice same
    | inr (request, own) ↦ rw own (more _ same refl)
  ]

  run_send_response-Quietly :
      (c : SendResponseCommand T) → Quietly trace (run_send_response sw c trace).trace
  unfolding run_send_response
  run_send_response-Quietly c = elim (Option-cases c.channel) [
    | inl twice ↦ rw twice same
    | inr (channel, own) ↦ elim (Option-cases c.response) [
      | inl twice ↦ rw (own, twice) same
      | inr (response, own') ↦ rw (own, own') (more _ same refl)
    ]
  ]

  run_bootstrap-Quietly : (c : BootstrapCommand T) → Quietly trace (run_bootstrap sw c trace).trace
  unfolding run_bootstrap
  run_bootstrap-Quietly c = elim (Result-cases (sw.bootstrap_answer trace)) [
    | inl (id, e) ↦ rw (e, run_bootstrap) (more _ same refl)
    | inr (text, e) ↦ rw (e, run_bootstrap) (more _ same refl)
  ]

  run_put_record-Quietly :
      (c : PutRecordCommand T) → Quietly trace (run_put_record sw c trace).trace
  unfolding run_put_record
  run_put_record-Quietly c = elim (Result-cases (sw.put_record_answer trace c.value)) [
    | inl (id, e) ↦ rw (e, run_put_record) (more _ same refl)
    | inr (text, e) ↦ rw (e, run_put_record) (more _ same refl)
  ]

  run_start_provide-Quietly :
      (c : StartProvideCommand T) → Quietly trace (run_start_provide sw c trace).trace
  unfolding run_start_provide
  run_start_provide-Quietly c = elim (Result-cases (sw.start_providing_answer trace c.key)) [
    | inl (id, e) ↦ rw (e, run_start_provide) (more _ same refl)
    | inr (text, e) ↦ rw (e, run_start_provide) (more _ same refl)
  ]

  -- No command listens or adds an external address when it is run.
  pub run_active-Quietly : (c : Active T) → Quietly trace (run_active sw c trace).1
  unfolding command_trait run_boxed run_disconnect run_is_connected run_add_peer_addrs
      run_get_listen_addrs run_get_closest_peers run_get_providers run_get_record run_stop_provide
      run_remove_record
  run_active-Quietly (dialing t) = run_dial-Quietly t.handler
  run_active-Quietly (disconnecting t) = more _ same refl
  run_active-Quietly (listing t) = same
  run_active-Quietly (checking t) = same
  run_active-Quietly (adding_addrs t) =
      add_addresses-Quietly sw t.handler.peer_id t.handler.addrs same
  run_active-Quietly (adding_infrastructure t) = run_infrastructure-Quietly t.handler
  run_active-Quietly (requesting t) = run_send_request-Quietly t.handler
  run_active-Quietly (responding t) = run_send_response-Quietly t.handler
  run_active-Quietly (bootstrapping t) = run_bootstrap-Quietly t.handler
  run_active-Quietly (getting_closest t) = more _ same refl
  run_active-Quietly (getting_providers t) = more _ same refl
  run_active-Quietly (getting_record t) = more _ same refl
  run_active-Quietly (putting_record t) = run_put_record-Quietly t.handler
  run_active-Quietly (providing t) = run_start_provide-Quietly t.handler
  run_active-Quietly (unproviding t) = more _ same refl
  run_active-Quietly (removing t) = more _ same refl
