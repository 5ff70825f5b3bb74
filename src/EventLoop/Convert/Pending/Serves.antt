-- ===== src/EventLoop/Convert/Pending/Serves.antt =====
-- The ids that core/src/runtime/event_loop.rs gives to inbound requests, over a run of events.
use swarm_p2p.Prelude.{
  ℕ, ◌+◌, ◌<◌, ◌≡◌, refl, sym, ◌⊎◌, Option, none, some, List, [], ◌∷◌, map, length, arith,
  word_add-eq, word_mod, inl, inr, ap, ◌∙◌,
}
use swarm_p2p.Event.{NodeEvent}
use swarm_p2p.Prelude.Map.{get}
use swarm_p2p.PendingMap.{take_pending}
use swarm_p2p.Swarm.{Types, Swarm, SwarmEvent, request_message}
use swarm_p2p.EventLoop.{EventLoop, Env}
use swarm_p2p.EventLoop.Convert.{convert_to_node_event, on_inbound_request}
use swarm_p2p.EventLoop.Convert.Pending.{
  Request, IsIssued, IsQuiet, request_of, reported_id, reply_channel, convert-IsQuiet, take-own,
  take-others, still-IsIssued,
}

abbrev pub channel_of : {T : Types} → SwarmEvent T → Option T.ResponseChannel
channel_of (request_message peer request channel) = some channel
channel_of _ = none

abbrev pub number : {A : Type 0} → ℕ → Option A → (ℕ → List (ℕ × A)) → List (ℕ × A)
number n none rest = rest n
number n (some channel) rest = (n, channel) ∷ rest (n + 1)

-- The reply channels of the requests in a run of events, numbered from `n` on.
abbrev pub numbered : {T : Types} → ℕ → List (Env × SwarmEvent T) → List (ℕ × T.ResponseChannel)
numbered n [] = []
numbered n ((env, event) ∷ events) = number n (channel_of event) (λ m. numbered m events)

abbrev pub note : Option ℕ → List ℕ → List ℕ
note none ids = ids
note (some id) ids = id ∷ ids

pub kinds :
    {T : Types} (event : SwarmEvent T)
    → ((request_of event ≡ none) × (channel_of event ≡ none))
      ⊎ ((r : Request T) × (event ≡ request_message r.0 r.1 r.2))
kinds (request_message peer request channel) = inr ((peer, request, channel), refl)
kinds _ = inl (refl, refl)

module _ {T : Types} {C : Type 0} where
  abbrev pub Finds : EventLoop T C → List (ℕ × T.ResponseChannel) → Type 0
  Finds s [] = Unit
  Finds s ((id, channel) ∷ served) = (reply_channel id s ≡ some channel) × Finds s served

  -- A run that starts in `s` with the counter at `n` serves these numbered requests.
  abbrev pub Serves :
      ℕ → List (ℕ × T.ResponseChannel) → EventLoop T C → EventLoop T C × List ℕ → Type 0
  Serves n served s (final, ids) =
      (ids ≡ map (λ (id, channel). id) served)
      × Finds final served
      × ((id : ℕ) → id < n → reply_channel id final ≡ reply_channel id s)

  quiet_step :
      (n : ℕ) (served : List (ℕ × T.ResponseChannel)) (s : EventLoop T C)
      (r : EventLoop T C × Option (NodeEvent T)) (end : EventLoop T C × List ℕ)
      → IsQuiet s r
      → Serves n served r.0 end
      → Serves n served s (end.0, note (reported_id r.1) end.1)
  quiet_step n served s r end (same, counter, silent) (ids, finds, older) =
      (rw silent ids, finds, λ id h. older id h ∙ ap (λ m. (take_pending id m).0) same)

  request_step :
      (env : Env) (request : Request T) (n : ℕ) (served : List (ℕ × T.ResponseChannel))
      (s : EventLoop T C) (end : EventLoop T C × List ℕ)
      → s.pending_id_counter ≡ n
      → Serves (n + 1) served (on_inbound_request env request.0 request.1 request.2 s).0 end
      → Serves n ((n, request.2) ∷ served) s (end.0, s.pending_id_counter ∷ end.1)
  request_step env (peer, request, channel) n served s end e (ids, finds, older) = (
    rw (e, ids) refl,
    (
      older n (omega arith)
          ∙ ap (λ m. reply_channel m (on_inbound_request env peer request channel s).0) (sym e)
          ∙ take-own env peer request channel s,
      finds,
    ),
    λ id h. older id (omega arith) ∙ take-others env peer request channel s id (ground (arith, e)),
  )

  module _ (sw : Swarm T) where
    -- The events of a run, and the ids that it reports.
    abbrev pub run : List (Env × SwarmEvent T) → EventLoop T C → EventLoop T C × List ℕ
    run [] s = (s, [])
    run ((env, event) ∷ events) s =
        let (s', e) = convert_to_node_event sw env event s in
        let (final, ids) = run events s' in (final, note (reported_id e) ids)

    -- From a state that uses no id from its counter `n` on, over any run of events with too few
    -- requests to reach 2 ^ 64, the requests are reported in order under the ids `n`, `n + 1`, and so
    -- on; at the end each of these ids still holds the reply channel of its own request, and each
    -- smaller id what it held at the start.
    pub run-Serves :
        (events : List (Env × SwarmEvent T)) (n : ℕ) (s : EventLoop T C)
        → s.pending_id_counter ≡ n
        → IsIssued s
        → n + length (numbered n events) < word_mod
        → Serves n (numbered n events) s (run events s)
    unfolding convert_to_node_event on_inbound_request
    run-Serves [] n s e fresh room = (refl, tt, λ id h. refl)
    run-Serves ((env, event) ∷ events) n s e fresh room = elim (kinds event) [
      | inl (quiet, silent) ↦
          let q = convert-IsQuiet sw env event s quiet in
          let s' = (convert_to_node_event sw env event s).0 in
          rw silent (
            quiet_step n (numbered n events) s (convert_to_node_event sw env event s)
              (run events s') q
              (run-Serves events n s' (q.1 ∙ e)
                (λ id h. ap (λ m. get id m.inner) q.0 ∙ fresh id (omega (arith, q.1)))
                (rw silent at room)))
      | inr ((peer, request, channel), asks) ↦
          let s' = (on_inbound_request env peer request channel s).0 in
          let more = rw asks at room in
          let small : s.pending_id_counter + 1 < word_mod = omega (arith, e, more) in
          rw asks (
            request_step env (peer, request, channel) n (numbered (n + 1) events) s (run events s')
              e
              (run-Serves events (n + 1) s'
                (word_add-eq s.pending_id_counter 1 small ∙ ap (λ m. m + 1) e)
                (still-IsIssued env peer request channel s fresh small) (omega (arith, more))))
    ]
