-- ===== src/EventLoop/Convert/Pending.antt =====
-- The ids of inbound requests in core/src/runtime/event_loop.rs, beside core/src/pending_map.rs.
pub mod Serves
use swarm_p2p.Prelude.{
  ℕ, ◌+◌, ◌≤◌, ◌<◌, ◌≡◌, refl, ◌≢◌, Option, none, some, List, [], ◌∷◌, arith, word_add, word_add-eq,
  word_mod, ap, ==-self, Bool-cases, inl, inr,
}
use swarm_p2p.Prelude.Map.{get, insert, remove, get-insert}
use swarm_p2p.DataChannel.{PeerId}
use mathlib.Core.Option
use swarm_p2p.Event.{NodeEvent, inbound_request}
use swarm_p2p.PendingMap.{PendingMap, insert_pending, take_pending}
use swarm_p2p.Error.{ok, err}
use swarm_p2p.Config.{LanHelperConfig}
use swarm_p2p.Swarm
use swarm_p2p.Swarm.Addr.{Multiaddr}
use swarm_p2p.Swarm.{Types, Swarm, SwarmEvent, request_message, RelayServerEvent, IdentifyInfo}
use swarm_p2p.EventLoop.{EventLoop, Env}
use swarm_p2p.EventLoop.Convert.{
  convert_to_node_event, on_inbound_request, reserve_remembered, on_identify, same_text,
  convert_relay_client_event, convert_relay_server_event,
}
use swarm_p2p.EventLoop.Lan.{announce_for, report_status, advertise, maybe_announce_lan_helper_addr}

abbrev pub Request : Types → Type 0
Request T = PeerId × T.Req × T.ResponseChannel

module _ {T : Types} where
  abbrev pub request_of : SwarmEvent T → Option (Request T)
  request_of (request_message peer request channel) = some (peer, request, channel)
  request_of _ = none

  abbrev pub reported_id : Option (NodeEvent T) → Option ℕ
  reported_id (some (inbound_request peer id request)) = some id
  reported_id _ = none

module _ {T : Types} {C : Type 0} where
  -- No id from the counter's value on is in use.
  abbrev pub IsIssued : EventLoop T C → Type 0
  IsIssued s = (id : ℕ) → s.pending_id_counter ≤ id → get id s.pending_channels.inner ≡ none

  abbrev pub reply_channel : ℕ → EventLoop T C → Option T.ResponseChannel
  reply_channel id s = (take_pending id s.pending_channels).0

  module _ (env : Env) (peer : PeerId) (request : T.Req) (channel : T.ResponseChannel)
      (s : EventLoop T C) where
    pub take-own :
        reply_channel s.pending_id_counter (on_inbound_request env peer request channel s).0
        ≡ some channel
    unfolding on_inbound_request take_pending insert_pending
    take-own =
        rw
          (
            get-insert s.pending_id_counter s.pending_id_counter _ s.pending_channels.inner,
            ==-self s.pending_id_counter,
          )
          refl

    take-others :
        (id : ℕ)
        → id ≢ s.pending_id_counter
        → reply_channel id (on_inbound_request env peer request channel s).0 ≡ reply_channel id s
    unfolding on_inbound_request take_pending insert_pending
    take-others id h = ap (Option.map (λ e. e.value)) (
        ground (
          arith,
          get-insert s.pending_id_counter id (record { value = channel; created_at = env.now })
              s.pending_channels.inner,
        ))

    still-IsIssued :
        IsIssued s
        → s.pending_id_counter + 1 < word_mod
        → IsIssued (on_inbound_request env peer request channel s).0
    unfolding on_inbound_request insert_pending
    still-IsIssued fresh room id h = ground (
      arith,
      word_add-eq s.pending_id_counter 1 room,
      fresh id,
      get-insert s.pending_id_counter id (record { value = channel; created_at = env.now })
          s.pending_channels.inner,
    )

  -- An event that brings no request leaves the pending channels and the counter alone.
  abbrev IsQuiet : EventLoop T C → EventLoop T C × Option (NodeEvent T) → Type 0
  IsQuiet s (s', event) =
      (s'.pending_channels ≡ s.pending_channels)
      × (s'.pending_id_counter ≡ s.pending_id_counter)
      × (reported_id event ≡ none)

  relay_server-IsQuiet :
      (e : RelayServerEvent) (s : EventLoop T C) → IsQuiet s (s, convert_relay_server_event e)
  unfolding convert_relay_server_event
  relay_server-IsQuiet (Swarm.accepted a b) s = (refl, refl, refl)
  relay_server-IsQuiet (Swarm.denied a b) s = (refl, refl, refl)
  relay_server-IsQuiet (Swarm.closed a) s = (refl, refl, refl)
  relay_server-IsQuiet (Swarm.timed_out a) s = (refl, refl, refl)
  relay_server-IsQuiet (Swarm.circuit_accepted a b) s = (refl, refl, refl)
  relay_server-IsQuiet (Swarm.circuit_denied a b c) s = (refl, refl, refl)
  relay_server-IsQuiet (Swarm.circuit_closed a b) s = (refl, refl, refl)
  relay_server-IsQuiet Swarm.transient_failure s = (refl, refl, refl)

  reserve_remembered-quiet :
      (peer : PeerId) (found : Option (List Multiaddr)) (s : EventLoop T C)
      → ((reserve_remembered peer found s).pending_channels ≡ s.pending_channels)
        × ((reserve_remembered peer found s).pending_id_counter ≡ s.pending_id_counter)
  reserve_remembered-quiet peer none s = (refl, refl)
  reserve_remembered-quiet peer (some addrs) s = (refl, refl)

  on_identify-quiet :
      (peer : PeerId) (info : IdentifyInfo) (s : EventLoop T C)
      → ((on_identify peer info s).pending_channels ≡ s.pending_channels)
        × ((on_identify peer info s).pending_id_counter ≡ s.pending_id_counter)
  unfolding on_identify
  on_identify-quiet peer info s =
      elim (Bool-cases (same_text info.protocol_version s.protocol_version)) [
        | inl match ↦ rw match (reserve_remembered-quiet peer (get peer s.bootstrap_peers) _)
        | inr mismatch ↦ rw mismatch (refl, refl)
      ]

  advertise-quiet :
      (addr : Multiaddr) (s : EventLoop T C)
      → ((advertise addr s).pending_channels ≡ s.pending_channels)
        × ((advertise addr s).pending_id_counter ≡ s.pending_id_counter)
  unfolding advertise
  advertise-quiet addr s = ground arith

  module _ (sw : Swarm T) where
    announce-quiet :
        (env : Env) (helper : Option LanHelperConfig) (addr : Multiaddr) (s : EventLoop T C)
        → ((announce_for sw env helper addr s).pending_channels ≡ s.pending_channels)
          × ((announce_for sw env helper addr s).pending_id_counter ≡ s.pending_id_counter)
    unfolding report_status
    announce-quiet env none addr s = (refl, refl)
    announce-quiet env (some config) addr s = ground (arith, advertise-quiet addr s)

    pub convert-IsQuiet :
        (env : Env) (event : SwarmEvent T) (s : EventLoop T C)
        → request_of event ≡ none
        → IsQuiet s (convert_to_node_event sw env event s)
    unfolding convert_to_node_event convert_relay_client_event maybe_announce_lan_helper_addr
    convert-IsQuiet env (Swarm.kad_progressed a b c d) s h = (refl, refl, refl)
    convert-IsQuiet env (Swarm.kad_routing_updated a b) s h = (refl, refl, refl)
    convert-IsQuiet env (Swarm.request_message a b c) s none_of = absurd (ground (arith, none_of))
    convert-IsQuiet env (Swarm.response_message a b c) s h = (refl, refl, refl)
    convert-IsQuiet env (Swarm.outbound_failure a b c) s h = (refl, refl, refl)
    convert-IsQuiet env (Swarm.connection_established peer n) s h = (refl, refl, ground arith)
    convert-IsQuiet env (Swarm.connection_closed peer n) s h = (refl, refl, ground arith)
    convert-IsQuiet env (Swarm.outgoing_connection_error a b) s h = (refl, refl, refl)
    convert-IsQuiet env (Swarm.new_listen_addr addr) s h = (
      (announce-quiet env s.lan_helper addr s).0,
      (announce-quiet env s.lan_helper addr s).1,
      refl,
    )
    convert-IsQuiet env (Swarm.relay_client (Swarm.reservation_accepted a b)) s h =
        (refl, refl, refl)
    convert-IsQuiet env (Swarm.relay_client (Swarm.outbound_circuit a)) s h = (refl, refl, refl)
    convert-IsQuiet env (Swarm.relay_client (Swarm.inbound_circuit a)) s h = (refl, refl, refl)
    convert-IsQuiet env (Swarm.relay_server e) s h = relay_server-IsQuiet e s
    convert-IsQuiet env (Swarm.dcutr a (ok u)) s h = (refl, refl, refl)
    convert-IsQuiet env (Swarm.dcutr a (err e)) s h = (refl, refl, refl)
    convert-IsQuiet env (Swarm.mdns_discovered a) s h = (refl, refl, refl)
    convert-IsQuiet env (Swarm.ping_success a b) s h = (refl, refl, refl)
    convert-IsQuiet env (Swarm.identify_received peer info) s h =
        ((on_identify-quiet peer info s).0, (on_identify-quiet peer info s).1, refl)
    convert-IsQuiet env (Swarm.autonat a b (ok u)) s h = (refl, refl, refl)
    convert-IsQuiet env (Swarm.autonat a b (err e)) s h = (refl, refl, refl)
    convert-IsQuiet env Swarm.listener_closed s h = (refl, refl, refl)
    convert-IsQuiet env Swarm.listener_error s h = (refl, refl, refl)
    convert-IsQuiet env Swarm.incoming_connection_error s h = (refl, refl, refl)
    convert-IsQuiet env (Swarm.other_event a) s h = (refl, refl, refl)
