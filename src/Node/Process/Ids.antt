-- ===== src/Node/Process/Ids.antt =====
-- The ids of the data channels of a whole node: the counter behind `DataChannelId::next` of
-- core/src/data_channel.rs, which core/src/runtime/event_loop.rs and the futures of
-- core/src/client/data_channel_open.rs draw from.
pub mod Moved
pub mod Always
use swarm_p2p.Prelude.{
  ℕ, ◌+◌, ◌≤◌, ◌<◌, ◌≡◌, refl, ap, inl, inr, Bool, Poll, ready, pending, panicked, Option, none,
  some, List, [], ◌∷◌, ◌++◌, arith, tally, tally-append, Same, ltb, ◌==◌, if◌then◌else◌, word_add,
  word_mod, word_add-eq, take_at, flat_map, Option-cases,
}
use swarm_p2p.DataChannel.{
  DataChannelId, DataChannelLimits, ChannelGuard, DataChannel, next_channel_id,
}
use swarm_p2p.DataChannel.Registry.{RegistryInner, try_acquire}
use swarm_p2p.DataChannel.Open.{
  OpenState, init, opening, finished, OpenInit, Opening, OpenAnswer, waiting, answered, elapsed,
  Shared, Polled, poll_open, drop_open, draw_id, open_stream_with_guard, poll_opened, opened_with,
}
use swarm_p2p.DataChannel.Open
use swarm_p2p.Error.{ok, err}
use swarm_p2p.Swarm.{Types}
use swarm_p2p.Node.Process.{Process, returned}
use swarm_p2p.Node.Process.Parts.{all_parts}

abbrev pub drawn_by : Option DataChannelId → List ℕ
drawn_by none = []
drawn_by (some id) = id.value ∷ []

abbrev pub drawn : OpenState → List ℕ
drawn (opening o) = drawn_by o.id
drawn _ = []

abbrev pub id_in : DataChannel → List ℕ
id_in c = c.id.value ∷ []

-- The ids of a node's futures, of the consumer's queue and of the user's channels.
abbrev pub ids : {T : Types} {C : Type 0} → Process T C → List ℕ
ids s = all_parts drawn id_in s

-- Each id is below the next one, and stands once at most.
abbrev pub Numbered : ℕ → List ℕ → Type 0
Numbered next is = (n : ℕ) → tally (λ i. i == n) is ≤ (if ltb n next then 1 else 0)

pub Numbered-Same : (next : ℕ) (is js : List ℕ) → Numbered next is → Same is js → Numbered next js
Numbered-Same next is js h same n = omega (arith, same (λ i. i == n), h n)

pub Numbered-drop : (next : ℕ) (is js : List ℕ) → Numbered next (is ++ js) → Numbered next js
Numbered-drop next is js h n = omega (arith, tally-append (λ i. i == n) is js, h n)

-- An id that is drawn is new.
pub Numbered-draw :
    (next : ℕ) (is : List ℕ)
    → next + 1 < word_mod
    → Numbered next is
    → Numbered (word_add next 1) (next ∷ is)
Numbered-draw next is fits h n = ground (arith, word_add-eq next 1 fits, h n)

-- The counter has grown by one at most.
abbrev pub Grows : ℕ → ℕ → Type 0
Grows next next' = (next ≤ next') × (next' ≤ next + 1)

-- After a poll: the id that the future holds, or that of the channel that it has returned, and the
-- others.
abbrev pub Draws : ℕ → Polled → List ℕ → Type 0
Draws next (sh, st, r) others =
    Grows next sh.next_id
    × Numbered sh.next_id (drawn st ++ (flat_map id_in (returned r) ++ others))

draw_id-Numbered :
    (id : Option DataChannelId) (next : ℕ) (others : List ℕ)
    → next + 1 < word_mod
    → Numbered next (drawn_by id ++ others)
    → Grows next (draw_id id next).1
      × Numbered (draw_id id next).1 ((draw_id id next).0.value ∷ others)
unfolding draw_id next_channel_id
draw_id-Numbered (some id) next others fits h = ((omega arith, omega arith), h)
draw_id-Numbered none next others fits h =
    (omega (arith, word_add-eq next 1 fits), Numbered-draw next others fits h)

-- A future that fails leaves with its id.
drew_and_left :
    (others : List ℕ) (o : Opening) (s : Shared)
    → s.next_id + 1 < word_mod
    → Numbered s.next_id (drawn_by o.id ++ others)
    → Grows s.next_id (draw_id o.id s.next_id).1 × Numbered (draw_id o.id s.next_id).1 others
drew_and_left others o s fits h =
    let (grows, numbered) = draw_id-Numbered o.id s.next_id others fits h in
    let (id, counter) = draw_id o.id s.next_id in
    (grows, Numbered-drop counter (id.value ∷ []) others numbered)

opening-Draws :
    (others : List ℕ) (o : Opening) (answer : OpenAnswer) (s : Shared)
    → s.next_id + 1 < word_mod
    → Numbered s.next_id (drawn_by o.id ++ others)
    → Draws s.next_id (Open.after_poll (open_stream_with_guard o answer s)) others
unfolding open_stream_with_guard
opening-Draws others o waiting s fits h = draw_id-Numbered o.id s.next_id others fits h
opening-Draws others o (answered (ok stream)) s fits h =
    draw_id-Numbered o.id s.next_id others fits h
opening-Draws others o (answered (err e)) s fits h = drew_and_left others o s fits h
opening-Draws others o elapsed s fits h = drew_and_left others o s fits h

opened-Draws :
    (others : List ℕ) (start : OpenInit) (answer : OpenAnswer) (s : Shared)
    (r : RegistryInner × Option ChannelGuard)
    → s.next_id + 1 < word_mod
    → Numbered s.next_id others
    → Draws s.next_id (poll_opened s answer (opened_with start r)) others
opened-Draws others start answer s (inner, none) fits h = ((omega arith, omega arith), h)
opened-Draws others start answer s (inner, some g) fits h =
    opening-Draws others _ answer (record s { inner = inner }) fits h

pub poll_open-Draws :
    (limits : DataChannelLimits) (others : List ℕ) (st : OpenState) (answer : OpenAnswer)
    (s : Shared)
    → s.next_id + 1 < word_mod
    → Numbered s.next_id (drawn st ++ others)
    → Draws s.next_id (poll_open limits st answer s) others
unfolding poll_open
poll_open-Draws limits others (init start) answer s fits h =
    opened-Draws others start answer s _ fits h
poll_open-Draws limits others (opening o) answer s fits h = opening-Draws others o answer s fits h
poll_open-Draws limits others finished answer s fits h = ((omega arith, omega arith), h)

pub drop_open-next_id : (st : OpenState) (s : Shared) → (drop_open st s).next_id ≡ s.next_id
unfolding drop_open
drop_open-next_id (init start) s = refl
drop_open-next_id (opening o) s = refl
drop_open-next_id finished s = refl
