-- ===== src/Command/ReqResp/Matching.antt =====
-- core/src/command/req_resp/send_request.rs: which event ends a request.
use swarm_p2p.Prelude.{
  ◌≡◌, refl, sym, ◌∙◌, ◌&&◌, Bool-cases, inl, inr, Option, none, some, List, [], ◌∷◌, ◌==◌,
  if◌then◌else◌, arith,
}
use swarm_p2p.DataChannel.{PeerId}
use swarm_p2p.Error.{Error, Result, ok, err}
use swarm_p2p.Swarm.{
  Types, Swarm, Trace, RequestId, OutboundFailure, SwarmEvent, response_message, outbound_failure,
}
use swarm_p2p.Command.{Answer, pass_on, done_with}
use swarm_p2p.Command.KadStreams.{Fed, waits, ended, feed, lifetime, own_steps, feed-own_steps}
use swarm_p2p.Command.ReqResp.{
  SendRequestCommand, new_send_request, run_send_request, on_event_send_request,
  map_outbound_failure,
}

abbrev pub Reply : Types → Type 0
Reply T = Result T.Resp OutboundFailure

abbrev pub reported : {A : Type 0} → Result A OutboundFailure → Result A Error
reported (ok response) = ok response
reported (err e) = err (map_outbound_failure e)

abbrev pub first_reply : {A : Type 0} → List (Result A OutboundFailure) → Fed A
first_reply [] = waits
first_reply (reply ∷ later) = ended (reported reply)

injective : {A : Type 0} (x y : A) → some x ≡ some y → x ≡ y
injective x y e = cc

module _ {T : Types} where
  -- The answers to a request are the events with its id and its peer.
  abbrev pub own_reply : PeerId → RequestId → SwarmEvent T → Option (Reply T)
  own_reply peer id (response_message p i response) =
      if id == i && p == peer then some (ok response) else none
  own_reply peer id (outbound_failure p i e) = if id == i && p == peer then some (err e) else none
  own_reply peer id _ = none

  abbrev step : SendRequestCommand T → Reply T → Answer T (SendRequestCommand T) T.Resp
  step c reply = done_with c (reported reply)

  abbrev Asks : PeerId → RequestId → SendRequestCommand T → Type 0
  Asks peer id c = (c.peer_id ≡ peer) × (c.request_id ≡ some id)

  own :
      (peer : PeerId) (id : RequestId) (c : SendRequestCommand T) (e : SwarmEvent T) (x : Reply T)
      → Asks peer id c
      → own_reply peer id e ≡ some x
      → on_event_send_request c e ≡ step c x
  unfolding on_event_send_request
  own peer id c (response_message p i response) x (a, b) e =
      elim (Bool-cases (id == i && p == peer)) [
        | inl mine ↦ rw (a, b, mine, sym (injective _ _ (rw mine at e)))
        | inr other ↦ absurd (ground (arith, other))
      ]
  own peer id c (outbound_failure p i f) x (a, b) e = elim (Bool-cases (id == i && p == peer)) [
    | inl mine ↦ rw (a, b, mine, sym (injective _ _ (rw mine at e)))
    | inr other ↦ absurd (ground (arith, other))
  ]
  own peer id c _ x q e = cc

  foreign :
      (peer : PeerId) (id : RequestId) (c : SendRequestCommand T) (e : SwarmEvent T)
      → Asks peer id c
      → own_reply peer id e ≡ none
      → on_event_send_request c e ≡ pass_on c e
  unfolding on_event_send_request
  foreign peer id c (response_message p i response) (a, b) e = ground arith
  foreign peer id c (outbound_failure p i f) (a, b) e = ground arith
  foreign peer id c _ q e = refl

  feed-replies :
      (c : SendRequestCommand T) (replies : List (Reply T))
      → feed step c replies ≡ first_reply replies
  unfolding feed
  feed-replies c [] = refl
  feed-replies c (reply ∷ later) = refl

  -- A request finishes once and leaves, at the first event that carries both its id and its peer, with
  -- the response or with the failure's kind. Neither its run nor any other event, not even a response
  -- of another peer under the same id, makes it finish or leave; without such an event it stays
  -- active.
  pub send_request-first_reply :
      (sw : Swarm T) (peer : PeerId) (request : T.Req) (trace : Trace T)
      (events : List (SwarmEvent T))
      → lifetime on_event_send_request
          (run_send_request sw (new_send_request peer request) trace)
          events
        ≡ first_reply (own_steps (own_reply peer (sw.request_id trace peer request)) events)
  unfolding run_send_request
  send_request-first_reply sw peer request trace events =
      let id = sw.request_id trace peer request in
      feed-own_steps on_event_send_request step (own_reply peer id) (Asks peer id)
        (record { own = own peer id; foreign = foreign peer id; stays = λ c x q. q }) events
        (record (new_send_request peer request) { request = none; request_id = some id })
        (refl, refl)
      ∙ feed-replies _ _
