-- ===== src/Node/Process/Replies/Uses.antt =====
-- A whole node with the answers of its clients and the cleaner: core/src/runtime/event_loop.rs,
-- core/src/pending_map.rs and core/src/client/req_resp.rs.
use swarm_p2p.Prelude.{
  ℕ, ◌+◌, ◌<◌, ◌≡◌, refl, inl, inr, Option-cases, Poll, ready, pending, panicked, Option, none,
  some, List, [], ◌∷◌, ◌++◌, word_mod, length, take_at,
}
use mathlib.Core.List.{append-nil}
use swarm_p2p.DataChannel.{DataChannel}
use swarm_p2p.Handle.{Channel, recv}
use swarm_p2p.PendingMap.{PendingMap, take_pending}
use swarm_p2p.PendingMap.Cleaner.{clean, clean_lem}
use swarm_p2p.Swarm.{Types, Swarm}
use swarm_p2p.Command.Active.Queue.{Active, active_trait}
use swarm_p2p.Node.Process.{
  Process, Move, turned, asked, polled_at, abandoned_at, received, unheard, dropped_at,
  unwrapped_at, take_received, move,
}
use swarm_p2p.Node.Process.Replies.{Waiting, noted, waiting, brings, waiting-turn}
use swarm_p2p.Node.Process.Replies.Answers.{
  Owes, Gone, channel_of, noted-Owes, taken-Owes, cleaned-Owes, noted-Gone, taken-Gone,
  cleaned-Gone,
}

module _ {T : Types} (sw : Swarm T) where
  -- A move of the node; a client's answer under an id, which takes its reply channel; a turn of the
  -- cleaner.
  pub data Use : Type 0 where
    moved : Move sw (active_trait sw) → Use
    answered : ℕ → Use
    cleaned : ℕ → Use

  abbrev pub set_waiting :
      PendingMap T.ResponseChannel → Process T (Active T) → Process T (Active T)
  set_waiting left s = record s { loop = record s.loop { pending_channels = left } }

  abbrev pub handed : ℕ → Option T.ResponseChannel → List (ℕ × T.ResponseChannel)
  handed id none = []
  handed id (some channel) = (id, channel) ∷ []

  -- What a use hands to an answer, and what it makes of the node.
  unfoldable pub used :
      Use → Process T (Active T) → List (ℕ × T.ResponseChannel) × Process T (Active T)
  used (moved m) s = ([], move sw (active_trait sw) m s)
  used (answered id) s =
      let (found, left) = take_pending id s.loop.pending_channels in
      (handed id found, set_waiting left s)
  used (cleaned now) s = ([], set_waiting (clean now s.loop.pending_channels) s)

  unfoldable pub answers : List Use → Process T (Active T) → List (ℕ × T.ResponseChannel)
  answers [] s = []
  answers (u ∷ us) s = (used u s).0 ++ answers us (used u s).1

  unfoldable pub uses : List Use → Process T (Active T) → Process T (Active T)
  uses [] s = s
  uses (u ∷ us) s = uses us (used u s).1

  abbrev pub moved_channel : Move sw (active_trait sw) → List T.ResponseChannel
  moved_channel (turned env selected) = channel_of (brings sw env selected)
  moved_channel _ = []

  abbrev pub request_in : Use → List T.ResponseChannel
  request_in (moved m) = moved_channel m
  request_in _ = []

  -- The reply channels of the requests that arrive, in order.
  abbrev pub requests : List Use → List T.ResponseChannel
  requests [] = []
  requests (u ∷ us) = request_in u ++ requests us

  -- What a move makes of the waiting reply channels.
  abbrev pub noted_by : Move sw (active_trait sw) → Waiting T → Waiting T
  noted_by (turned env selected) w = noted env (brings sw env selected) w
  noted_by _ w = w

  waiting-received :
      (r : Poll (Option DataChannel) × Channel DataChannel) (s : Process T (Active T))
      → waiting (take_received r s).loop ≡ waiting s.loop
  waiting-received (ready (some channel), rx) s = refl
  waiting-received (ready none, rx) s = refl
  waiting-received (pending, rx) s = refl
  waiting-received (panicked, rx) s = refl

  pub waiting-move :
      (m : Move sw (active_trait sw)) (s : Process T (Active T))
      → waiting (move sw (active_trait sw) m s).loop ≡ noted_by m (waiting s.loop)
  unfolding move
  waiting-move (turned env selected) s = waiting-turn sw env selected s.loop
  waiting-move (asked start) s = refl
  waiting-move (polled_at i answer) s = elim (Option-cases (take_at i s.futures)) [
    | inl missing ↦ rw missing refl
    | inr ((st, others), found) ↦ rw found refl
  ]
  waiting-move (abandoned_at i) s = elim (Option-cases (take_at i s.futures)) [
    | inl missing ↦ rw missing refl
    | inr ((st, others), found) ↦ rw found refl
  ]
  waiting-move received s = waiting-received (recv 1 s.loop.inbound_dc_tx) s
  waiting-move unheard s = refl
  waiting-move (dropped_at i) s = elim (Option-cases (take_at i s.channels)) [
    | inl missing ↦ rw missing refl
    | inr ((c, others), found) ↦ rw found refl
  ]
  waiting-move (unwrapped_at i) s = elim (Option-cases (take_at i s.channels)) [
    | inl missing ↦ rw missing refl
    | inr ((c, others), found) ↦ rw found refl
  ]

  noted_by-Owes :
      (m : Move sw (active_trait sw)) (reqs : List T.ResponseChannel) (w : Waiting T)
      → length reqs + length (moved_channel m) < word_mod
      → Owes reqs w
      → Owes (reqs ++ moved_channel m) (noted_by m w)
  noted_by-Owes (turned env selected) reqs w room o =
      noted-Owes env (brings sw env selected) reqs w room o
  noted_by-Owes (asked start) reqs w room o = rw append-nil o
  noted_by-Owes _ reqs w room o = rw append-nil o

  noted_by-Gone :
      (id : ℕ) (m : Move sw (active_trait sw)) (reqs : List T.ResponseChannel) (w : Waiting T)
      → length reqs + length (moved_channel m) < word_mod
      → Owes reqs w
      → Gone id w
      → Gone id (noted_by m w)
  noted_by-Gone id (turned env selected) reqs w room o g =
      noted-Gone id env (brings sw env selected) reqs w room o g
  noted_by-Gone id (asked start) reqs w room o g = g
  noted_by-Gone id _ reqs w room o g = g

  pub used-Owes :
      (u : Use) (reqs : List T.ResponseChannel) (s : Process T (Active T))
      → length reqs + length (request_in u) < word_mod
      → Owes reqs (waiting s.loop)
      → Owes (reqs ++ request_in u) (waiting (used u s).1.loop)
  unfolding used
  used-Owes (moved m) reqs s room o =
      rw (waiting-move m s) (noted_by-Owes m reqs (waiting s.loop) room o)
  used-Owes (answered id) reqs s room o = rw append-nil (taken-Owes id reqs (waiting s.loop) o)
  used-Owes (cleaned now) reqs s room o =
      rw (append-nil, clean_lem now s.loop.pending_channels)
        (cleaned-Owes now reqs (waiting s.loop) o)

  pub used-Gone :
      (id : ℕ) (u : Use) (reqs : List T.ResponseChannel) (s : Process T (Active T))
      → length reqs + length (request_in u) < word_mod
      → Owes reqs (waiting s.loop)
      → Gone id (waiting s.loop)
      → Gone id (waiting (used u s).1.loop)
  unfolding used
  used-Gone id (moved m) reqs s room o g =
      rw (waiting-move m s) (noted_by-Gone id m reqs (waiting s.loop) room o g)
  used-Gone id (answered key) reqs s room o g = taken-Gone id key reqs (waiting s.loop) o g
  used-Gone id (cleaned now) reqs s room o g =
      rw (clean_lem now s.loop.pending_channels) (cleaned-Gone id now reqs (waiting s.loop) o g)
