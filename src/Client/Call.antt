-- ===== src/Client/Call.antt =====
-- A whole call of a method of core/src/client: the future of core/src/client/future.rs that the
-- caller polls, and the task of core/src/command/handler.rs that the event loop runs. The two share
-- one handle, which stands in the future here and is put into the task when the loop works on it.
-- `box` makes the object that goes through the command channel.
pub mod Seen
pub mod Outcome
pub mod Once
use swarm_p2p.Prelude.{
  Bool, true, false, Option, none, some, List, [], ◌∷◌, if◌then◌else◌, Poll, ready, pending,
  panicked,
}
use swarm_p2p.Error.{Error, Result}
use swarm_p2p.Handle.{Waker, Channel, try_send, new_handle, CommandFuture, new_future, poll_command}
use swarm_p2p.Swarm.{Types, Trace, SwarmEvent}
use swarm_p2p.Command.{CommandHandler, CommandTask, run_boxed, on_event_boxed}

-- Where the command is: with its caller, in the command channel, among the active commands, or gone.
pub data Place (C : Type 0) : Type 0 where
  unsent queued active : C → Place C
  gone : Place C

pub record Call (A C R : Type 0) : Type 0 where
  pub future : CommandFuture A R
  pub place : Place C

-- The caller's task polls; the loop takes the command out of the channel and runs it, over the calls
-- that its swarm has seen; the loop offers an event to it. Moments of other commands are left out.
pub data Moment (T : Types) : Type 0 where
  polled : Waker → Moment T
  taken : Trace T → Moment T
  offered : SwarmEvent T → Moment T

-- Where a command is after a first poll that made of the channel `sent`.
abbrev pub entered : {C X : Type 0} → Place C → Option X → Place C
entered (unsent c) (some x) = queued c
entered (unsent c) none = gone
entered (queued c) sent = queued c
entered (active c) sent = active c
entered gone sent = gone

abbrev pub kept_if : {C : Type 0} → Bool → C → Place C
kept_if true c = active c
kept_if false c = gone

-- What a poll makes of the channel, if it sends.
abbrev pub sent_by : {A : Type 0} → Option A → Channel A → Option (Channel A)
sent_by none sender = none
sent_by (some object) sender = try_send object sender

abbrev pub new_task : {C R : Type 0} → C → CommandTask C R
new_task c = record { handler = c; handle = new_handle }

module _ {T : Types} {A C R : Type 0} (h : CommandHandler T C R) (box : CommandTask C R → A) where
  abbrev pub new_call : C → Channel A → Call A C R
  new_call c sender = record { future = new_future (box (new_task c)) sender; place = unsent c }

  -- The task of the command at the loop, over the shared handle.
  abbrev pub task_of : C → Call A C R → CommandTask C R
  task_of c call = record { handler = c; handle = call.future.handle }

  abbrev pub with_task : Place C → CommandTask C R → Call A C R → Call A C R
  with_task place task call = record {
    future = record call.future { handle = task.handle };
    place = place;
  }

  -- The loop's part in `handle_command`.
  abbrev pub take_at : Place C → Trace T → Call A C R → Call A C R
  take_at (queued c) trace call =
      let (task, trace') = run_boxed h (task_of c call) trace in
      with_task (active task.handler) task call
  take_at _ trace call = call

  -- The loop's part in `handle_swarm_event`.
  abbrev pub offer_at : Place C → SwarmEvent T → Call A C R → Call A C R
  offer_at (active c) event call =
      let (task, keep, remaining) = on_event_boxed h (task_of c call) event in
      with_task (kept_if keep task.handler) task call
  offer_at _ event call = call

  abbrev pub poll_call : Waker → Call A C R → Poll (Result R Error) × Call A C R
  poll_call w call =
      let (r, future) = poll_command w call.future in
      let place = entered call.place (sent_by call.future.handler call.future.sender) in
      (r, record { future = future; place = place })

  abbrev pub go_on :
      (Call A C R → Option (Result R Error) × Call A C R)
      → Poll (Result R Error) × Call A C R
      → Option (Result R Error) × Call A C R
  go_on rest (ready r, call) = (some r, call)
  go_on rest (pending, call) = rest call
  go_on rest (panicked, call) = (none, call)

  -- The caller polls until the call returns. What it returned, if it did, and what is left of it.
  unfoldable pub await_call : Call A C R → List (Moment T) → Option (Result R Error) × Call A C R
  await_call call [] = (none, call)
  await_call call (taken trace ∷ ms) = await_call (take_at call.place trace call) ms
  await_call call (offered event ∷ ms) = await_call (offer_at call.place event call) ms
  await_call call (polled w ∷ ms) = go_on (λ call'. await_call call' ms) (poll_call w call)
