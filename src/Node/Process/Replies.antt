-- ===== src/Node/Process/Replies.antt =====
-- The reply channels of inbound requests over a whole node: core/src/runtime/event_loop.rs stores them
-- while its commands, of core/src/command, see every event first.
pub mod Answers
pub mod Uses
pub mod Always
pub mod Waits
pub mod InTime
use swarm_p2p.Prelude.{
  ℕ, ◌≡◌, refl, ap, ◌∙◌, not, inl, inr, Bool-cases, Option-cases, Option, none, some, List, [], ◌∷◌,
  word_add, retain, length,
}
use swarm_p2p.Prelude.Map.{get}
use swarm_p2p.DataChannel.{
  PeerId, StreamProtocol, Stream, inbound, ChannelGuard, DataChannel, next_channel_id,
}
use swarm_p2p.DataChannel.Registry.{RegistryInner, try_acquire}
use swarm_p2p.Handle.{Channel, try_send}
use swarm_p2p.PendingMap.{PendingMap, insert_pending}
use swarm_p2p.Event.{NodeEvent}
use swarm_p2p.Swarm.{Types, Swarm, SwarmEvent, request_message, polled}
use swarm_p2p.Chain.{chain}
use swarm_p2p.Chain.Delivery.{Delivered, Consumes, everyone, stopped}
use swarm_p2p.Command.{RelayRequest, CommandTrait, command_trait, on_event_boxed}
use swarm_p2p.Command.Peer.{on_event_dial, on_event_disconnect}
use swarm_p2p.Command.ReqResp.{on_event_send_request}
use swarm_p2p.Command.Kad.{on_event_put_record, on_event_start_provide}
use swarm_p2p.Command.KadQueries.{
  on_event_bootstrap, on_event_get_closest_peers, on_event_get_providers, on_event_get_record,
}
use swarm_p2p.Command.Active.Queue.{
  Active, dialing, disconnecting, listing, checking, adding_addrs, adding_infrastructure,
  requesting, responding, bootstrapping, getting_closest, getting_providers, getting_record,
  putting_record, providing, unproviding, removing, on_event_active, active_trait,
}
use swarm_p2p.Command.Active.Queue.Offers.{active-Delivered}
use swarm_p2p.EventLoop.{EventLoop, Env}
use swarm_p2p.EventLoop.Convert.{convert_to_node_event, on_inbound_request}
use swarm_p2p.EventLoop.Convert.Pending.{Request, request_of, convert-IsQuiet}
use swarm_p2p.EventLoop.Convert.Pending.Serves.{kinds}
use swarm_p2p.EventLoop.Inbound.{hand_over, accept_channel, handle_inbound_channel}
use swarm_p2p.EventLoop.Run.{
  reserve, send, forward, handle_command, handle_swarm_event, handle_selected, Selected, command,
  swarm_event, inbound_channel, turn,
}
use swarm_p2p.EventLoop.Run.Turn.{remaining-cases}

pub record Waiting (T : Types) : Type 0 where
  pub pending : PendingMap T.ResponseChannel
  pub counter : ℕ

module _ {T : Types} where
  -- What a request makes of the waiting reply channels.
  abbrev pub noted : Env → Option (Request T) → Waiting T → Waiting T
  noted env none w = w
  noted env (some (peer, request, channel)) w = record {
    pending = insert_pending env.now w.counter channel w.pending;
    counter = word_add w.counter 1;
  }

  -- No command consumes an inbound request.
  passes_request :
      (sw : Swarm T) (peer : PeerId) (request : T.Req) (channel : T.ResponseChannel) (c : Active T)
      → (on_event_active sw c (request_message peer request channel)).2
        ≡ some (request_message peer request channel)
  unfolding command_trait on_event_boxed on_event_dial on_event_disconnect on_event_send_request
      on_event_put_record on_event_start_provide on_event_bootstrap on_event_get_closest_peers
      on_event_get_providers on_event_get_record
  passes_request sw peer request channel (dialing t) = refl
  passes_request sw peer request channel _ = refl

  request_remains :
      (sw : Swarm T) (peer : PeerId) (request : T.Req) (channel : T.ResponseChannel)
      {before after : List (Active T)} {remaining : Option (SwarmEvent T)}
      → Delivered (on_event_active sw) (request_message peer request channel) before after remaining
      → remaining ≡ some (request_message peer request channel)
  request_remains sw peer request channel (everyone e seen ps b a) = e
  request_remains sw peer request channel (stopped e seen c unseen ps consumes b a) =
      cc (passes_request sw peer request channel c)

some-ne-none : {A : Type 0} {o : Option A} {a : A} → o ≡ some a → o ≡ none → ⊥
some-ne-none held gone = cc

module _ {T : Types} {C : Type 0} where
  abbrev pub waiting : EventLoop T C → Waiting T
  waiting s = record { pending = s.pending_channels; counter = s.pending_id_counter }

  waiting-reserve :
      (sw : Swarm T) (request : RelayRequest) (s : EventLoop T C)
      → waiting (reserve sw request s) ≡ waiting s
  waiting-reserve sw none s = refl
  waiting-reserve sw (some (peer, addrs)) s = elim (Bool-cases (sw.is_connected s.trace peer)) [
    | inl connected ↦ rw connected refl
    | inr waits ↦ rw waits refl
  ]

  waiting-hand_over :
      (taken : Option (Channel DataChannel)) (g : ChannelGuard) (s : EventLoop T C)
      → waiting (hand_over taken g s) ≡ waiting s
  waiting-hand_over none g s = refl
  waiting-hand_over (some tx) g s = refl

  waiting-accept :
      (peer : PeerId) (protocol : StreamProtocol) (stream : Stream) (s : EventLoop T C)
      (r : RegistryInner × Option ChannelGuard)
      → waiting (accept_channel peer protocol stream r s) ≡ waiting s
  waiting-accept peer protocol stream s (inner, none) = refl
  waiting-accept peer protocol stream s (inner, some g) =
      let (id, counter) = next_channel_id s.next_channel_id in
      let channel : DataChannel = record {
        id = id;
        peer = peer;
        protocol = protocol;
        direction = inbound;
        stream = stream;
        guard = some g;
      } in
      waiting-hand_over (try_send channel s.inbound_dc_tx) g
        (record s { dc_registry = inner; next_channel_id = counter })

  waiting-send :
      (sw : Swarm T) (cmds : CommandTrait T C) (env : Env)
      (r : EventLoop T C × Option (NodeEvent T))
      → waiting (send sw cmds env r) ≡ waiting r.0
  waiting-send sw cmds env (s, none) = refl
  waiting-send sw cmds env (s, some event) = elim (Bool-cases env.event_open) [
    | inl heard ↦ rw heard refl
    | inr gone ↦ rw gone refl
  ]

  waiting-convert :
      (sw : Swarm T) (env : Env) (event : SwarmEvent T) (s : EventLoop T C)
      → waiting (convert_to_node_event sw env event s).0 ≡ noted env (request_of event) (waiting s)
  unfolding convert_to_node_event on_inbound_request
  waiting-convert sw env event s = elim (kinds event) [
    | inr ((peer, request, channel), asks) ↦ rw asks refl
    | inl (quiet, silent) ↦
        let (same, counter, unreported) = convert-IsQuiet sw env event s quiet in
        rw quiet (λ i. record { pending = same i; counter = counter i })
  ]

  -- What is handed on of an event that no command has consumed.
  waiting-forward :
      (sw : Swarm T) (cmds : CommandTrait T C) (env : Env) (event : SwarmEvent T)
      (s : EventLoop T C)
      → waiting (forward sw cmds env (some event) s) ≡ noted env (request_of event) (waiting s)
  waiting-forward sw cmds env event s =
      waiting-send sw cmds env (convert_to_node_event sw env event s)
      ∙ waiting-convert sw env event s

module _ {T : Types} (sw : Swarm T) (env : Env) where
  -- The request that a turn brings.
  abbrev pub brings : Selected sw (active_trait sw) → Option (Request T)
  brings (swarm_event event) = request_of event
  brings _ = none

  forwarded :
      (event : SwarmEvent T) {before after : List (Active T)} (remaining : Option (SwarmEvent T))
      (s : EventLoop T (Active T))
      → Delivered (on_event_active sw) event before after remaining
      → waiting (forward sw (active_trait sw) env remaining s)
        ≡ noted env (request_of event) (waiting s)
  forwarded event remaining s d = elim (remaining-cases sw (active_trait sw) env d) [
    | inr left ↦ rw left (waiting-forward sw (active_trait sw) env event s)
    | inl consumed ↦ elim (kinds event) [
      | inl (quiet, silent) ↦ rw (consumed, quiet) refl
      | inr ((peer, request, channel), asks) ↦
          absurd (some-ne-none (request_remains sw peer request channel (rw asks at d)) consumed)
    ]
  ]

  waiting-event :
      (event : SwarmEvent T) (s : EventLoop T (Active T))
      → waiting (handle_swarm_event sw (active_trait sw) env event s)
        ≡ noted env (request_of event) (waiting s)
  unfolding handle_swarm_event
  waiting-event event s =
      let (active, remaining) = chain (on_event_active sw) s.active_commands event in
      forwarded event remaining (record s { active_commands = active })
        (active-Delivered sw event s.active_commands)

  waiting-selected :
      (selected : Selected sw (active_trait sw)) (s : EventLoop T (Active T))
      → waiting (handle_selected sw (active_trait sw) env selected s)
        ≡ noted env (brings selected) (waiting s)
  unfolding handle_command handle_inbound_channel
  waiting-selected (command cmd) s =
      let (ran, trace) = (active_trait sw).run_boxed cmd s.trace in
      waiting-reserve sw ((active_trait sw).take_relay_reservation_request ran).1
        (record s { trace = trace })
  waiting-selected (swarm_event event) s =
      waiting-event event (record s { trace = polled ∷ s.trace })
  waiting-selected (inbound_channel protocol peer stream) s =
      waiting-accept peer protocol stream s
        (try_acquire s.dc_limits s.dc_registry peer protocol inbound)

  -- A turn stores the reply channel of the request that it brings, under the counter, whatever
  -- commands are active, and otherwise leaves the waiting channels alone.
  pub waiting-turn :
      (selected : Selected sw (active_trait sw)) (s : EventLoop T (Active T))
      → waiting (turn sw (active_trait sw) env selected s) ≡ noted env (brings selected) (waiting s)
  unfolding turn
  waiting-turn selected s =
      let kept = retain (λ c. not ((active_trait sw).is_cancelled c)) s.active_commands in
      waiting-selected selected (record s { active_commands = kept })
