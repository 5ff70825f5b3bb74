-- ===== src/Command.antt =====
-- core/src/command/handler.rs: the handler interface, and a command's task, which joins a handler
-- to the handle that its caller waits on. The commands are in the modules below.
pub mod Peer
pub mod Listing
pub mod ReqResp
pub mod Kad
pub mod KadQueries
pub mod KadStreams
pub mod Active
use swarm_p2p.Prelude.{ℕ, Bool, true, false, Option, none, some, List, [], ◌∷◌, ◌==◌}
use swarm_p2p.DataChannel.{PeerId}
use swarm_p2p.Error.{Error, Result}
use swarm_p2p.Handle.{ResultState, finish, is_cancelled}
use swarm_p2p.Swarm.{Types, Trace, SwarmEvent}
use swarm_p2p.Swarm.Addr.{Multiaddr}

abbrev pub RelayRequest : Type 0
RelayRequest = Option (PeerId × List Multiaddr)

-- `run` and `on_event` call `finish` on the handle at most once: with the result that they return.
-- `on_event` also says whether the command stays active, and hands on an event it did not consume.
pub record Ran (T : Types) (C R : Type 0) : Type 0 where
  pub command : C
  pub trace : Trace T
  pub finished : Option (Result R Error)

pub record Answer (T : Types) (C R : Type 0) : Type 0 where
  pub command : C
  pub finished : Option (Result R Error)
  pub keep : Bool
  pub remaining : Option (SwarmEvent T)

pub record CommandHandler (T : Types) (C R : Type 0) : Type 0 where
  pub run : C → Trace T → Ran T C R
  pub on_event : C → SwarmEvent T → Answer T C R
  pub take_relay_reservation_request : C → C × RelayRequest

-- The trait's default methods.
abbrev pub default_on_event : {T : Types} {C R : Type 0} → C → SwarmEvent T → Answer T C R
default_on_event c event = record {
  command = c;
  finished = none;
  keep = false;
  remaining = some event;
}

abbrev pub no_relay_request : {C : Type 0} → C → C × RelayRequest
no_relay_request c = (c, none)

-- `*id == Some(other)`.
abbrev pub is_id : Option ℕ → ℕ → Bool
is_id none id = false
is_id (some own) id = own == id

-- An event that is not the command's own: it waits on, and hands the event on.
abbrev pub pass_on : {T : Types} {C R : Type 0} → C → SwarmEvent T → Answer T C R
pass_on c event = record { command = c; finished = none; keep = true; remaining = some event }

-- The event is consumed: the command waits on, or is done with a result.
abbrev pub wait_on : {T : Types} {C R : Type 0} → C → Answer T C R
wait_on c = record { command = c; finished = none; keep = true; remaining = none }

abbrev pub done_with : {T : Types} {C R : Type 0} → C → Result R Error → Answer T C R
done_with c r = record { command = c; finished = some r; keep = false; remaining = none }

pub record CommandTask (C R : Type 0) : Type 0 where
  pub handler : C
  pub handle : ResultState R

abbrev pub apply_finish : {R : Type 0} → Option (Result R Error) → ResultState R → ResultState R
apply_finish none handle = handle
apply_finish (some r) handle = (finish r handle).1

-- The object behind `Box<dyn CommandTrait>`: its state, and what the event loop can do with it.
pub record CommandTrait (T : Types) (C : Type 0) : Type 0 where
  pub run_boxed : C → Trace T → C × Trace T
  pub on_event_boxed : C → SwarmEvent T → C × Bool × Option (SwarmEvent T)
  pub take_relay_reservation_request : C → C × RelayRequest
  pub is_cancelled : C → Bool

module _ {T : Types} {C R : Type 0} (h : CommandHandler T C R) where
  unfoldable pub run_boxed : CommandTask C R → Trace T → CommandTask C R × Trace T
  run_boxed task trace =
      let ran = h.run task.handler trace in
      (record { handler = ran.command; handle = apply_finish ran.finished task.handle }, ran.trace)

  unfoldable pub on_event_boxed :
      CommandTask C R → SwarmEvent T → CommandTask C R × Bool × Option (SwarmEvent T)
  on_event_boxed task event =
      let a = h.on_event task.handler event in
      (
        record { handler = a.command; handle = apply_finish a.finished task.handle },
        a.keep,
        a.remaining,
      )

  -- `impl CommandTrait for CommandTask`.
  unfoldable pub command_trait : CommandTrait T (CommandTask C R)
  command_trait = record {
    run_boxed = run_boxed;
    on_event_boxed = on_event_boxed;
    take_relay_reservation_request = λ task.
        let (c, request) = h.take_relay_reservation_request task.handler in
        (record task { handler = c }, request);
    is_cancelled = λ task. is_cancelled task.handle;
  }
