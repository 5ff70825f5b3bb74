-- ===== src/EventLoop/Convert/Peers.antt =====
-- The reports of peers that core/src/runtime/event_loop.rs makes of the connections of a swarm.
use swarm_p2p.Prelude.{
  ℕ, zero, suc, ◌+◌, ◌≡◌, refl, ap, fun_ext, Bool, true, false, Option, none, some, List, [], ◌∷◌,
  ◌==◌, ltb, if◌then◌else◌, arith,
}
use swarm_p2p.DataChannel.{PeerId}
use swarm_p2p.Event.{NodeEvent, peer_connected, peer_disconnected}
use swarm_p2p.Swarm.{Types, Swarm, SwarmEvent, connection_established, connection_closed}
use swarm_p2p.EventLoop.{EventLoop, Env}
use swarm_p2p.EventLoop.Convert.{convert_to_node_event, on_established, on_closed}

-- The connections that a swarm has, by peer. libp2p counts the connections of the peer after the
-- event: with the one that is established, without the one that closed.
abbrev pub Counts : Type 0
Counts = PeerId → ℕ

abbrev pub put : {A : Type 0} → PeerId → A → (PeerId → A) → PeerId → A
put peer a f p = if p == peer then a else f p

-- What a user who follows the reports believes of each peer; `none` after a report that
-- contradicts it: a peer that connects while it is connected, or disconnects while it is not.
abbrev pub View : Type 0
View = Option (PeerId → Bool)

abbrev pub connected_in : Counts → PeerId → Bool
connected_in counts p = ltb 0 (counts p)

module _ {T : Types} where
  pub data History : List (SwarmEvent T) → Counts → Type 0 where
    start : History [] (λ p. 0)
    established :
        {events : List (SwarmEvent T)} {counts : Counts} (peer : PeerId)
        → History events counts
        → History
            (connection_established peer (counts peer + 1) ∷ events)
            (put peer (counts peer + 1) counts)
    closed :
        {events : List (SwarmEvent T)} {counts : Counts} (peer : PeerId) (n : ℕ)
        → counts peer ≡ suc n
        → History events counts
        → History (connection_closed peer n ∷ events) (put peer n counts)

  abbrev pub follow : Option (NodeEvent T) → View → View
  follow none view = view
  follow (some e) none = none
  follow (some (peer_connected peer)) (some view) =
      if view peer then none else some (put peer true view)
  follow (some (peer_disconnected peer)) (some view) =
      if view peer then some (put peer false view) else none
  follow (some _) (some view) = some view

module _ (T : Types) where
  follow_established :
      (counts : Counts) (peer : PeerId) (n : ℕ)
      → counts peer ≡ n
      → follow (on_established {T = T} peer (n + 1)) (some (connected_in counts))
        ≡ some (connected_in (put peer (n + 1) counts))
  follow_established counts peer zero e = rw e (ap some (fun_ext (λ p. ground arith)))
  follow_established counts peer (suc n) e =
      let more : ((suc n + 1) == 1) ≡ false = ground arith in
      rw more (ap some (fun_ext (λ p. ground arith)))

  follow_closed :
      (counts : Counts) (peer : PeerId) (n : ℕ)
      → counts peer ≡ suc n
      → follow (on_closed {T = T} peer n) (some (connected_in counts))
        ≡ some (connected_in (put peer n counts))
  follow_closed counts peer zero e = rw e (ap some (fun_ext (λ p. ground arith)))
  follow_closed counts peer (suc n) e =
      let more : (suc n == 0) ≡ false = ground arith in
      rw more (ap some (fun_ext (λ p. ground arith)))

module _ {T : Types} (sw : Swarm T) {C : Type 0} (env : Env) (s : EventLoop T C) where
  -- The view after the events, newest first, each reported from the state `s`, which the report
  -- does not depend on.
  unfoldable pub view_after : List (SwarmEvent T) → View
  view_after [] = some (λ p. false)
  view_after (event ∷ events) = follow (convert_to_node_event sw env event s).1 (view_after events)

  -- Over every history of connections, the reports of a peer alternate: it is never reported
  -- connected twice in a row, nor disconnected while it is not connected; and a user who follows
  -- the reports believes exactly those peers connected that have a connection.
  pub view_after-Connected :
      (events : List (SwarmEvent T)) (counts : Counts)
      → History events counts
      → view_after events ≡ some (connected_in counts)
  unfolding view_after convert_to_node_event
  view_after-Connected events counts start = refl
  view_after-Connected events counts (established {events = past} {counts = old} peer h) =
      rw (view_after-Connected past old h) (follow_established T old peer (old peer) refl)
  view_after-Connected events counts (closed {events = past} {counts = old} peer n e h) =
      rw (view_after-Connected past old h) (follow_closed T old peer n e)
