-- ===== src/Command/Peer/Outcomes.antt =====
-- core/src/command/dial.rs and disconnect.rs: which event ends a command that waits.
use swarm_p2p.Prelude.{
  ◌≡◌, refl, sym, ◌∙◌, Bool, true, false, ◌&&◌, Option, none, some, List, [], ◌∷◌, ◌==◌,
  if◌then◌else◌, arith,
}
use swarm_p2p.DataChannel.{PeerId}
use swarm_p2p.Error.{Error, Result, ok, err}
use swarm_p2p.Swarm.{
  Types, Swarm, Trace, SwarmEvent, connection_established, connection_closed,
  outgoing_connection_error,
}
use swarm_p2p.Command.{Answer, pass_on}
use swarm_p2p.Command.KadStreams.{Fed, waits, ended, feed, lifetime, own_steps, feed-own_steps}
use swarm_p2p.Command.Peer.{
  DialCommand, DisconnectCommand, done_and_pass, run_dial, on_event_dial, run_disconnect,
  on_event_disconnect,
}

-- A result and the event that brings it, which is handed on.
abbrev pub Report : Types → Type 0
Report T = Result (Unit {0}) Error × SwarmEvent T

abbrev pub when : {A : Type 0} → Bool → A → Option A
when b a = if b then some a else none

when-some : {A : Type 0} (b : Bool) (a x : A) → when b a ≡ some x → (b ≡ true) × (a ≡ x)
when-some true a x e = (refl, cc)
when-some false a x e = absurd (ground (arith, e))

module _ {T : Types} where
  abbrev pub dial_report : PeerId → SwarmEvent T → Option (Report T)
  dial_report peer (connection_established p n) =
      when (p == peer) (ok tt, connection_established p n)
  dial_report peer (outgoing_connection_error (some p) e) =
      when (p == peer) (err (Error.dial e), outgoing_connection_error (some p) e)
  dial_report peer _ = none

  abbrev pub disconnect_report : PeerId → SwarmEvent T → Option (Report T)
  disconnect_report peer (connection_closed p n) =
      when (p == peer && n == 0) (ok tt, connection_closed p n)
  disconnect_report peer _ = none

  abbrev pub first_report : List (Report T) → Fed (Unit {0})
  first_report [] = waits
  first_report ((r, event) ∷ later) = ended r

  abbrev step : {C : Type 0} → C → Report T → Answer T C (Unit {0})
  step c (r, event) = done_and_pass c r event

  feed-reports :
      {C : Type 0} (c : C) (reports : List (Report T)) → feed step c reports ≡ first_report reports
  unfolding feed
  feed-reports c [] = refl
  feed-reports c ((r, event) ∷ later) = refl

  dial_own :
      (peer : PeerId) (c : DialCommand) (e : SwarmEvent T) (x : Report T)
      → c.peer_id ≡ peer
      → dial_report peer e ≡ some x
      → on_event_dial c e ≡ step c x
  unfolding on_event_dial
  dial_own peer c (connection_established p n) x q e =
      let (b, same) = when-some (p == peer) _ x e in rw (q, b, sym same) refl
  dial_own peer c (outgoing_connection_error (some p) f) x q e =
      let (b, same) = when-some (p == peer) _ x e in rw (q, b, sym same) refl
  dial_own peer c (outgoing_connection_error none f) x q e = absurd (ground (arith, e))
  dial_own peer c _ x q e = absurd (ground (arith, e))

  dial_foreign :
      (peer : PeerId) (c : DialCommand) (e : SwarmEvent T)
      → c.peer_id ≡ peer
      → dial_report peer e ≡ none
      → on_event_dial c e ≡ pass_on c e
  unfolding on_event_dial
  dial_foreign peer c (connection_established p n) q e = ground arith
  dial_foreign peer c (outgoing_connection_error (some p) f) q e = ground arith
  dial_foreign peer c (outgoing_connection_error none f) q e = refl
  dial_foreign peer c _ q e = refl

  disconnect_own :
      (peer : PeerId) (c : DisconnectCommand) (e : SwarmEvent T) (x : Report T)
      → c.peer_id ≡ peer
      → disconnect_report peer e ≡ some x
      → on_event_disconnect c e ≡ step c x
  unfolding on_event_disconnect
  disconnect_own peer c (connection_closed p n) x q e =
      let (b, same) = when-some (p == peer && n == 0) _ x e in rw (q, b, sym same) refl
  disconnect_own peer c _ x q e = absurd (ground (arith, e))

  disconnect_foreign :
      (peer : PeerId) (c : DisconnectCommand) (e : SwarmEvent T)
      → c.peer_id ≡ peer
      → disconnect_report peer e ≡ none
      → on_event_disconnect c e ≡ pass_on c e
  unfolding on_event_disconnect
  disconnect_foreign peer c (connection_closed p n) q e = ground arith
  disconnect_foreign peer c _ q e = refl

  -- A dial of a peer that is not connected, which the swarm accepts, finishes once and leaves, at the
  -- first event that connects the peer or fails to, with success or with that failure. Neither its
  -- run nor any other event makes it finish or leave; without such an event it stays active.
  pub run_dial-first_report :
      (sw : Swarm T) (c : DialCommand) (trace : Trace T) (events : List (SwarmEvent T))
      → sw.is_connected trace c.peer_id ≡ false
      → sw.dial_answer trace c.peer_id ≡ ok tt
      → lifetime on_event_dial (run_dial sw c trace) events
        ≡ first_report (own_steps (dial_report c.peer_id) events)
  unfolding run_dial
  run_dial-first_report sw c trace events apart accepted =
      rw (apart, run_dial, accepted)
        (feed-own_steps on_event_dial step (dial_report c.peer_id) (λ d. d.peer_id ≡ c.peer_id)
            (record {
              own = dial_own c.peer_id;
              foreign = dial_foreign c.peer_id;
              stays = λ d x q. q;
            })
            events c refl
          ∙ feed-reports c _)

  -- A disconnect that the swarm accepts finishes once and leaves, with success, at the first event
  -- that closes the last connection of its peer. Neither its run nor any other event makes it finish
  -- or leave; without such an event it stays active.
  pub run_disconnect-first_report :
      (sw : Swarm T) (c : DisconnectCommand) (trace : Trace T) (events : List (SwarmEvent T))
      → sw.disconnect_answer trace c.peer_id ≡ ok tt
      → lifetime on_event_disconnect (run_disconnect sw c trace) events
        ≡ first_report (own_steps (disconnect_report c.peer_id) events)
  unfolding run_disconnect
  run_disconnect-first_report sw c trace events accepted =
      rw (run_disconnect, accepted)
        (feed-own_steps on_event_disconnect step (disconnect_report c.peer_id)
            (λ d. d.peer_id ≡ c.peer_id)
            (record {
              own = disconnect_own c.peer_id;
              foreign = disconnect_foreign c.peer_id;
              stays = λ d x q. q;
            })
            events c refl
          ∙ feed-reports c _)
