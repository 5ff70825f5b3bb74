-- ===== src/Node/Process/Replies/Always.antt =====
-- The answers of clients over a whole node that has started: core/src/runtime/node.rs,
-- core/src/runtime/event_loop.rs, core/src/pending_map.rs and core/src/client/req_resp.rs.
use swarm_p2p.Prelude.{
  ℕ, ◌+◌, ◌≤◌, ◌<◌, ◌≡◌, refl, ◌⊎◌, inl, inr, Bool, Option-cases, some, List, [], ◌∷◌, ◌++◌, arith,
  word_mod, length, length-append, tally, ◌==◌, ==→eq, Bool-cases,
}
use mathlib.Core.List.{append_assoc}
use swarm_p2p.Prelude.Map.{get}
use swarm_p2p.DataChannel.{PeerId}
use swarm_p2p.Error.{Error, Result, ok, err}
use swarm_p2p.Config.{NodeConfig}
use swarm_p2p.PendingMap.{PendingEntry, take_pending}
use swarm_p2p.PendingMap.History.{Every}
use swarm_p2p.Chain.Lists.{get_elem?}
use swarm_p2p.Swarm.{Types, Swarm, Trace}
use swarm_p2p.Swarm.Addr.{Multiaddr}
use swarm_p2p.Command.Active.Queue.{Active}
use swarm_p2p.EventLoop.{EventLoop, start_listen, connect_bootstrap_peers}
use swarm_p2p.Node.{start_node, after_listening, loop_of}
use swarm_p2p.Node.Process.{Process, launched}
use swarm_p2p.Node.Process.Replies.{waiting}
use swarm_p2p.Node.Process.Replies.Answers.{Owes, Gone, get_elem?-append, just_taken-Gone}
use swarm_p2p.Node.Process.Replies.Uses.{
  Use, moved, answered, cleaned, used, answers, request_in, requests, used-Owes, used-Gone,
}

abbrev pub is_under : {A : Type 0} → ℕ → ℕ × A → Bool
is_under id (key, a) = key == id

-- An answer took the channel of the request at the place that its id names.
abbrev pub Placed : {A : Type 0} → List A → ℕ × A → Type 0
Placed reqs (id, channel) = get_elem? reqs id ≡ some channel

module _ {T : Types} (sw : Swarm T) where
  -- A use hands out nothing, or what waits under an id, where nothing waits then.
  used_cases :
      (u : Use sw) (reqs : List T.ResponseChannel) (s : Process T (Active T))
      → Owes reqs (waiting s.loop)
      → ((used sw u s).0 ≡ [])
        ⊎ ((id : ℕ) × (e : PendingEntry T.ResponseChannel) × (get id s.loop.pending_channels.inner
              ≡ some e)
            × ((used sw u s).0 ≡ (id, e.value) ∷ [])
            × Gone id (waiting (used sw u s).1.loop))
  unfolding used take_pending
  used_cases (moved m) reqs s o = inl refl
  used_cases (cleaned now) reqs s o = inl refl
  used_cases (answered id) reqs s o = elim (Option-cases (get id s.loop.pending_channels.inner)) [
    | inl nothing ↦ inl (rw nothing refl)
    | inr (e, held) ↦
        inr (id, e, held, rw held refl, just_taken-Gone id e reqs (waiting s.loop) o held)
  ]

  module _ (u : Use sw) (us : List (Use sw)) (reqs : List T.ResponseChannel) where
    abbrev pub Fits : Type 0
    Fits = length reqs + length (requests sw (u ∷ us)) < word_mod

    pub first_fits : Fits → length reqs + length (request_in sw u) < word_mod
    first_fits room = omega (arith, length-append (request_in sw u) (requests sw us))

    pub rest_fits : Fits → length (reqs ++ request_in sw u) + length (requests sw us) < word_mod
    rest_fits room = omega (
      arith,
      length-append (request_in sw u) (requests sw us),
      length-append reqs (request_in sw u),
    )

  answers-Gone :
      (id : ℕ) (us : List (Use sw)) (reqs : List T.ResponseChannel) (s : Process T (Active T))
      → length reqs + length (requests sw us) < word_mod
      → Owes reqs (waiting s.loop)
      → Gone id (waiting s.loop)
      → tally (is_under id) (answers sw us s) ≡ 0
  unfolding answers
  answers-Gone id [] reqs s room o g = refl
  answers-Gone id (u ∷ us) reqs s room o g =
      let fits = first_fits u us reqs room in
      let rest =
        answers-Gone id us (reqs ++ request_in sw u) (used sw u s).1 (rest_fits u us reqs room)
          (used-Owes sw u reqs s fits o) (used-Gone sw id u reqs s fits o g) in
      elim (used_cases u reqs s o) [
        | inl nothing ↦ rw nothing rest
        | inr (key, e, held, out, gone) ↦ elim (Bool-cases (key == id)) [
          | inl same ↦ cc (==→eq key id same, held, g.empty)
          | inr other ↦ rw (out, other) rest
        ]
      ]

  answers-once :
      (id : ℕ) (us : List (Use sw)) (reqs : List T.ResponseChannel) (s : Process T (Active T))
      → length reqs + length (requests sw us) < word_mod
      → Owes reqs (waiting s.loop)
      → tally (is_under id) (answers sw us s) ≤ 1
  unfolding answers
  answers-once id [] reqs s room o = omega arith
  answers-once id (u ∷ us) reqs s room o =
      let o' = used-Owes sw u reqs s (first_fits u us reqs room) o in
      let room' = rest_fits u us reqs room in
      let rest = answers-once id us (reqs ++ request_in sw u) (used sw u s).1 room' o' in
      elim (used_cases u reqs s o) [
        | inl nothing ↦ rw nothing rest
        | inr (key, e, held, out, gone) ↦ elim (Bool-cases (key == id)) [
          | inl same ↦
              let gone' = rw (==→eq key id same) at gone in
              let none_left =
                answers-Gone id us (reqs ++ request_in sw u) (used sw u s).1 room' o' gone' in
              rw (out, same) (omega (arith, none_left))
          | inr other ↦ rw (out, other) rest
        ]
      ]

  answers-Placed :
      (us : List (Use sw)) (reqs : List T.ResponseChannel) (s : Process T (Active T))
      → length reqs + length (requests sw us) < word_mod
      → Owes reqs (waiting s.loop)
      → Every (Placed (reqs ++ requests sw us)) (answers sw us s)
  unfolding answers
  answers-Placed [] reqs s room o = tt
  answers-Placed (u ∷ us) reqs s room o =
      let rest : Every (Placed ((reqs ++ request_in sw u) ++ requests sw us))
          (answers sw us (used sw u s).1) =
        answers-Placed us (reqs ++ request_in sw u) (used sw u s).1 (rest_fits u us reqs room)
          (used-Owes sw u reqs s (first_fits u us reqs room) o) in
      let rest' = rw append_assoc at rest in
      elim (used_cases u reqs s o) [
        | inl nothing ↦ rw nothing rest'
        | inr (key, e, held, out, gone) ↦
            rw out (
              get_elem?-append reqs (requests sw (u ∷ us)) key e.value (o.placed key e held),
              rest',
            )
      ]

  waiting-connect :
      {C : Type 0} (peers : List (PeerId × Multiaddr)) (s : EventLoop T C)
      → waiting (connect_bootstrap_peers peers s) ≡ waiting s
  unfolding connect_bootstrap_peers
  waiting-connect [] s = refl
  waiting-connect ((peer, addr) ∷ peers) s = waiting-connect peers _

  pub waiting-listened :
      (config : NodeConfig) (next_id : ℕ) (listened : Trace T × Result (Unit {0}) Error)
      (loop : EventLoop T (Active T))
      → (after_listening config next_id listened).1 ≡ ok loop
      → waiting loop ≡ waiting (loop_of {T = T} {C = Active T} config next_id [])
  waiting-listened config next_id (trace, err e) loop started = cc
  waiting-listened config next_id (trace, ok u) loop started =
      ground (
        arith,
        waiting-connect {C = Active T} config.bootstrap_peers (loop_of config next_id trace),
      )

  pub begun-Owes :
      (config : NodeConfig) (next_id : ℕ) (loop : EventLoop T (Active T))
      → (start_node sw config next_id).1 ≡ ok loop
      → Owes [] (waiting loop)
  unfolding start_node get
  begun-Owes config next_id loop started =
      rw (waiting-listened config next_id (start_listen sw config.listen_addrs []) loop started)
        (record { unique = tt; counted = refl; placed = λ id e held. cc })

  -- From a start of the node that succeeds, with fewer than 2 ^ 64 inbound requests, whatever else the
  -- node does, whatever ids clients answer under and whenever the cleaner runs, in any order: an answer
  -- under `id` takes the reply channel of the request that was the `id`-th to arrive, counted from
  -- 0, if it takes one at all, and under each id at most one answer takes one.
  pub answers-of_requests :
      (config : NodeConfig) (next_id : ℕ) (loop : EventLoop T (Active T)) (us : List (Use sw))
      → (start_node sw config next_id).1 ≡ ok loop
      → length (requests sw us) < word_mod
      → Every (Placed (requests sw us)) (answers sw us (launched loop))
        × ((id : ℕ) → tally (is_under id) (answers sw us (launched loop)) ≤ 1)
  answers-of_requests config next_id loop us started room =
      let o = begun-Owes config next_id loop started in
      (
        answers-Placed us [] (launched loop) (omega arith) o,
        λ id. answers-once id us [] (launched loop) (omega arith) o,
      )
