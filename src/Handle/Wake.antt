-- ===== src/Handle/Wake.antt =====
-- No lost wake-up between core/src/client/future.rs and core/src/command/handler.rs.
use swarm_p2p.Prelude.{
  ◌≡◌, refl, ap, Bool-cases, inl, inr, ◌||◌, Option, none, some, List, [], ◌∷◌, ◌++◌, arith, leb,
  length, if◌then◌else◌, Poll, ready, pending,
}
use swarm_p2p.Error.{Error, Result, err, behaviour}
use swarm_p2p.Handle.{
  Waker, Channel, poll_handle, finish, cancel, CommandFuture, new_future, poll_command, drop_future,
}

-- What can happen to a future's shared state, in any order: the client's task polls it or drops it,
-- the event loop finishes the command, and the channel loses or gains entries.
pub data Op (H T : Type 0) : Type 0 where
  poll_by : Waker → Op H T
  finish_with : Result T Error → Op H T
  drop_it : Op H T
  channel_is : Channel H → Op H T

-- `parked`: the task whose last poll was pending and that nothing has woken since.
pub record Session (H T : Type 0) : Type 0 where
  pub future : CommandFuture H T
  pub parked : Option Waker

abbrev pub parked_after : {T : Type 0} → Waker → Poll (Result T Error) → Option Waker
parked_after w pending = some w
parked_after w _ = none

abbrev pub wake : Option Waker → Option Waker → Option Waker
wake (some w) parked = none
wake none parked = parked

module _ {H T : Type 0} where
  unfoldable pub step : Session H T → Op H T → Session H T
  step s (poll_by w) =
      let (r, f) = poll_command w s.future in record { future = f; parked = parked_after w r }
  step s (finish_with r) =
      let (woken, handle) = finish r s.future.handle in
      record { future = record s.future { handle = handle }; parked = wake woken s.parked }
  step s drop_it = record s { future = drop_future s.future }
  step s (channel_is c) = record s { future = record s.future { sender = c } }

  unfoldable pub run : Session H T → List (Op H T) → Session H T
  run s [] = s
  run s (op ∷ ops) = run (step s op) ops

  abbrev pub start : H → Channel H → Session H T
  start h c = record { future = new_future h c; parked = none }

  -- A parked task has its waker registered, no result is waiting for it, and its command is sent.
  abbrev pub IsWatched : Session H T → Type 0
  IsWatched s =
      (w : Waker)
      → s.parked ≡ some w
      → (s.future.handle.waker ≡ some w)
        × (s.future.handle.result ≡ none)
        × (s.future.handler ≡ none)

  step-IsWatched : (op : Op H T) (s : Session H T) → IsWatched s → IsWatched (step s op)
  unfolding step poll_command poll_handle finish cancel drop_future
  step-IsWatched (poll_by w) s v = λ x. ground (arith, v x)
  step-IsWatched (finish_with r) s v = λ x. ground (arith, v x)
  step-IsWatched drop_it s v = v
  step-IsWatched (channel_is c) s v = v

  run-IsWatched : (ops : List (Op H T)) (s : Session H T) → IsWatched s → IsWatched (run s ops)
  unfolding run
  run-IsWatched [] s v = v
  run-IsWatched (op ∷ ops) s v = run-IsWatched ops (step s op) (step-IsWatched op s v)

-- A poll of a future that has sent its command.
module _ {H T : Type 0} (w : Waker) (f : CommandFuture H T) (sent : f.handler ≡ none) where
  pub poll-answered :
      (r : Result T Error)
      → f.handle.result ≡ some r
      → poll_command w f ≡ (ready r, record f { handle = record f.handle { result = none } })
  unfolding poll_command poll_handle
  poll-answered r found = rw (sent, found) refl

  pub poll-unanswered :
      f.handle.result ≡ none
      → poll_command w f ≡ (pending, record f { handle = record f.handle { waker = some w } })
  unfolding poll_command poll_handle
  poll-unanswered missing = rw (sent, missing) refl

-- After any history of polls, finishes, drops and channel changes: if the last poll was pending by
-- task `w` and nothing has woken it, then a finish wakes exactly `w`, and the future's next poll, by
-- any task, returns the finished result.
pub finish-wakes :
    {H T : Type 0} (h : H) (c : Channel H) (ops : List (Op H T)) (w w' : Waker) (r : Result T Error)
    → (run (start h c) ops).parked ≡ some w
    → let f = (run (start h c) ops).future in
      let (woken, handle) = finish r f.handle in
      (woken ≡ some w) × ((poll_command w' (record f { handle = handle })).0 ≡ ready r)
unfolding finish
finish-wakes h c ops w w' r e =
    let f = (run (start h c) ops).future in
    let (watched, empty, sent) = run-IsWatched ops (start h c) (λ x p. cc) w e in
    (
      watched,
      ap (λ x. x.0) (poll-answered w' (record f { handle = (finish r f.handle).1 }) sent r refl),
    )

handler-poll_command :
    {H T : Type 0} (w : Waker) (f : CommandFuture H T) → (poll_command w f).1.handler ≡ none
unfolding poll_command
handler-poll_command w f = ground arith

sender-poll_command :
    {H T : Type 0} (w : Waker) (f : CommandFuture H T)
    → f.handler ≡ none
    → (poll_command w f).1.sender ≡ f.sender
unfolding poll_command
sender-poll_command w f e = ground arith

-- A command that is sent stays sent.
handler-step :
    {H T : Type 0} (op : Op H T) (s : Session H T)
    → s.future.handler ≡ none
    → (step s op).future.handler ≡ none
unfolding step finish cancel drop_future
handler-step (poll_by w) s e = handler-poll_command w s.future
handler-step (finish_with r) s e = e
handler-step drop_it s e = e
handler-step (channel_is c) s e = e

handler-run :
    {H T : Type 0} (ops : List (Op H T)) (s : Session H T)
    → s.future.handler ≡ none
    → (run s ops).future.handler ≡ none
unfolding run
handler-run [] s e = e
handler-run (op ∷ ops) s e = handler-run ops (step s op) (handler-step op s e)

-- The first poll of a new future either queues its command last in the channel and waits with its
-- waker registered, if the channel is open and has room, or returns an error and queues nothing;
-- and whatever happens after it, polls, finishes, drops and channel changes in any order, no later
-- poll touches the channel.
pub first_poll :
    {H : Type 0} (T : Type 0) (h : H) (c : Channel H) (w w' : Waker) (ops : List (Op H T))
    → let (r, f) = poll_command w (new_future {T = T} h c) in
      let later = (run (step (start h c) (poll_by w)) ops).future in
      ((poll_command w' later).1.sender ≡ later.sender)
      × (if c.closed || leb c.capacity (length c.queue)
          then (r ≡ ready (err (behaviour "command channel closed"))) × (f.sender ≡ c)
          else (r ≡ pending) × (f.handle.waker ≡ some w) × (f.sender.queue ≡ c.queue ++ h ∷ []))
unfolding poll_command poll_handle step
first_poll T h c w w' ops = (
  sender-poll_command w' _
      (handler-run ops (step (start h c) (poll_by w)) (handler-poll_command w (new_future h c))),
  elim (Bool-cases (c.closed || leb c.capacity (length c.queue))) [
    | inl refused ↦ rw (refused, poll_command) (refl, refl)
    | inr sent ↦ rw (sent, poll_command) (refl, refl, refl)
  ],
)
