-- ===== src/Node/Process/Ids/Moved.antt =====
-- The ids of a node's data channels over one move: core/src/data_channel.rs,
-- core/src/runtime/event_loop.rs and core/src/client/data_channel_open.rs.
use swarm_p2p.Prelude.{
  ℕ, ◌+◌, ◌<◌, ◌≡◌, refl, ap, not, inl, inr, Poll, ready, pending, panicked, Option, none, some,
  List, [], ◌∷◌, ◌++◌, arith, word_add, word_mod, word_add-eq, take_at, flat_map, Option-cases,
  retain,
}
use swarm_p2p.DataChannel.{
  PeerId, StreamProtocol, Stream, inbound, ChannelGuard, DataChannel, next_channel_id,
}
use swarm_p2p.DataChannel.Registry.{RegistryInner, try_acquire}
use swarm_p2p.DataChannel.Open.{OpenState, Polled, poll_open}
use swarm_p2p.Handle.{Channel, recv, try_send}
use swarm_p2p.Swarm.{Types, Swarm, polled}
use swarm_p2p.Command.{CommandTrait}
use swarm_p2p.EventLoop.{EventLoop, Env}
use swarm_p2p.EventLoop.Inbound.{accept_channel, handle_inbound_channel}
use swarm_p2p.EventLoop.Run.{
  handle_command, handle_swarm_event, handle_selected, Selected, command, swarm_event,
  inbound_channel, turn,
}
use swarm_p2p.Node.Process.{
  Process, Move, turned, asked, polled_at, abandoned_at, received, unheard, dropped_at,
  unwrapped_at, returned, shared, after_poll, abandon, take_received, drop_receiver, move,
}
use swarm_p2p.Node.Process.Share.{Share, share, share-handle_command, share-handle_swarm_event}
use swarm_p2p.Node.Process.Parts.{
  queue_first, future_first, channel_first, polled_parts, received_parts, queued_parts,
}
use swarm_p2p.Node.Process.Ids.{
  drawn, id_in, ids, Numbered, Numbered-Same, Numbered-drop, Numbered-draw, Grows, Draws,
  poll_open-Draws, drop_open-next_id,
}

module _ {T : Types} {C : Type 0} where
  -- A move after which the counter was at `next`.
  abbrev pub Steps : ℕ → Process T C → Type 0
  Steps next s = Grows next s.loop.next_channel_id × Numbered s.loop.next_channel_id (ids s)

  abbrev with_loop : EventLoop T C → Process T C → Process T C
  with_loop loop s = record s { loop = loop }

  module _ (s : Process T C) (h : Numbered s.loop.next_channel_id (ids s)) where
    still : Grows s.loop.next_channel_id s.loop.next_channel_id
    still = (omega arith, omega arith)

    without_future :
        (i : ℕ) (st : OpenState) (others : List OpenState)
        → take_at i s.futures ≡ some (st, others)
        → Numbered s.loop.next_channel_id (drawn st ++ ids (record s { futures = others }))
    without_future i st others e =
        Numbered-Same s.loop.next_channel_id _ _ h
          (future_first drawn id_in s.futures s.loop.inbound_dc_tx.queue s.channels i st others e)

    without_channel :
        (i : ℕ) (c : DataChannel) (others : List DataChannel)
        → take_at i s.channels ≡ some (c, others)
        → Steps s.loop.next_channel_id (record s { channels = others })
    without_channel i c others e = (
      still,
      Numbered-drop s.loop.next_channel_id (id_in c) _ (
          Numbered-Same s.loop.next_channel_id _ (id_in c ++ ids (record s { channels = others })) h
            (channel_first drawn id_in s.futures s.loop.inbound_dc_tx.queue s.channels i c others
              e)),
    )

    abandoned-Steps :
        (i : ℕ) (st : OpenState) (others : List OpenState)
        → take_at i s.futures ≡ some (st, others)
        → Steps s.loop.next_channel_id (abandon (some (st, others)) s)
    abandoned-Steps i st others e =
        rw (drop_open-next_id st (shared s))
          (still, Numbered-drop s.loop.next_channel_id (drawn st) _ (without_future i st others e))

    after_poll-Steps :
        (others : List OpenState) (p : Polled)
        → Draws s.loop.next_channel_id p (ids (record s { futures = others }))
        → Steps s.loop.next_channel_id (after_poll others p s)
    after_poll-Steps others (sh, st, r) (grows, numbered) = (
      grows,
      Numbered-Same sh.next_id _ _ numbered (
          polled_parts drawn id_in others s.loop.inbound_dc_tx.queue s.channels st (returned r)
            (flat_map id_in (returned r)) (λ f. refl)),
    )

    received-Steps :
        (r : Poll (Option DataChannel) × Channel DataChannel)
        → recv 1 s.loop.inbound_dc_tx ≡ r
        → Steps s.loop.next_channel_id (take_received r s)
    received-Steps (ready (some channel), rx) e = (
      still,
      Numbered-Same s.loop.next_channel_id _ _ h
          (received_parts drawn id_in s.futures s.channels s.loop.inbound_dc_tx channel rx e),
    )
    received-Steps (ready none, rx) e = (still, h)
    received-Steps (pending, rx) e = (still, h)
    received-Steps (panicked, rx) e = (still, h)

    share-Steps :
        (loop : EventLoop T C)
        → share loop ≡ share s.loop
        → Steps s.loop.next_channel_id (with_loop loop s)
    share-Steps loop e = rw (ap (λ (x : Share). x.3) e, ap (λ (x : Share). x.2) e) (still, h)

    accepted-Steps :
        (peer : PeerId) (protocol : StreamProtocol) (stream : Stream)
        (r : RegistryInner × Option ChannelGuard)
        → s.loop.next_channel_id + 1 < word_mod
        → Steps s.loop.next_channel_id (with_loop (accept_channel peer protocol stream r s.loop) s)
    unfolding next_channel_id
    accepted-Steps peer protocol stream (inner, none) fits = (still, h)
    accepted-Steps peer protocol stream (inner, some g) fits =
        let next = s.loop.next_channel_id in
        let channel : DataChannel = record {
          id = record { value = next };
          peer = peer;
          protocol = protocol;
          direction = inbound;
          stream = stream;
          guard = some g;
        } in
        let grows : Grows next (word_add next 1) = omega (arith, word_add-eq next 1 fits) in
        let drew = Numbered-draw next (ids s) fits h in
        elim (Option-cases (try_send channel s.loop.inbound_dc_tx)) [
          | inl full ↦ rw full (grows, Numbered-drop (word_add next 1) (next ∷ []) (ids s) drew)
          | inr (tx, sent) ↦ rw sent (
            grows,
            Numbered-Same (word_add next 1) (next ∷ ids s) _ drew (
                queued_parts drawn id_in s.futures s.channels s.loop.inbound_dc_tx channel tx sent),
          )
        ]

    unheard-Steps : Steps s.loop.next_channel_id (drop_receiver s)
    unheard-Steps =
        let queue = s.loop.inbound_dc_tx.queue in
        (
          still,
          Numbered-drop s.loop.next_channel_id (flat_map id_in queue) (ids (drop_receiver s)) (
              Numbered-Same s.loop.next_channel_id _ (flat_map id_in queue ++ ids (drop_receiver s))
                h (queue_first drawn id_in s.futures queue s.channels)),
        )

    module _ (sw : Swarm T) (cmds : CommandTrait T C) where
      selected-Steps :
          (env : Env) (selected : Selected sw cmds)
          → s.loop.next_channel_id + 1 < word_mod
          → Steps s.loop.next_channel_id (with_loop (handle_selected sw cmds env selected s.loop) s)
      unfolding handle_inbound_channel
      selected-Steps env (command cmd) fits =
          share-Steps (handle_command sw cmds cmd s.loop)
            (share-handle_command sw env cmds cmd s.loop)
      selected-Steps env (swarm_event event) fits =
          let loop = record s.loop { trace = polled ∷ s.loop.trace } in
          share-Steps (handle_swarm_event sw cmds env event loop)
            (share-handle_swarm_event sw env cmds event loop)
      selected-Steps env (inbound_channel protocol peer stream) fits =
          accepted-Steps peer protocol stream
            (try_acquire s.loop.dc_limits s.loop.dc_registry peer protocol inbound) fits

module _ {T : Types} {C : Type 0} (sw : Swarm T) (cmds : CommandTrait T C) where
  -- One move moves the counter by one at most, and keeps the ids apart.
  pub move-Steps :
      (s : Process T C) (m : Move sw cmds)
      → s.loop.next_channel_id + 1 < word_mod
      → Numbered s.loop.next_channel_id (ids s)
      → Steps s.loop.next_channel_id (move sw cmds m s)
  unfolding move turn
  move-Steps s (turned env selected) fits h =
      let kept = retain (λ c. not (cmds.is_cancelled c)) s.loop.active_commands in
      selected-Steps (with_loop (record s.loop { active_commands = kept }) s) h sw cmds env selected
        fits
  move-Steps s (asked start) fits h = (still s h, h)
  move-Steps s (polled_at i answer) fits h = elim (Option-cases (take_at i s.futures)) [
    | inl missing ↦ rw missing (still s h, h)
    | inr ((st, others), found) ↦ rw found (
        after_poll-Steps s h others (poll_open s.loop.dc_limits st answer (shared s)) (
          poll_open-Draws s.loop.dc_limits (ids (record s { futures = others })) st answer
            (shared s) fits (without_future s h i st others found)))
  ]
  move-Steps s (abandoned_at i) fits h = elim (Option-cases (take_at i s.futures)) [
    | inl missing ↦ rw missing (still s h, h)
    | inr ((st, others), found) ↦ rw found (abandoned-Steps s h i st others found)
  ]
  move-Steps s received fits h = received-Steps s h (recv 1 s.loop.inbound_dc_tx) refl
  move-Steps s unheard fits h = unheard-Steps s h
  move-Steps s (dropped_at i) fits h = elim (Option-cases (take_at i s.channels)) [
    | inl missing ↦ rw missing (still s h, h)
    | inr ((c, others), found) ↦ rw found (without_channel s h i c others found)
  ]
  move-Steps s (unwrapped_at i) fits h = elim (Option-cases (take_at i s.channels)) [
    | inl missing ↦ rw missing (still s h, h)
    | inr ((c, others), found) ↦ rw found (without_channel s h i c others found)
  ]
