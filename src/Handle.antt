-- ===== src/Handle.antt =====
-- core/src/command/handler.rs (`ResultHandle`) and core/src/client/future.rs (`CommandFuture`).
-- A waker is the number of the task that it wakes. The handle is shared by the future and the
-- command's task: one state, which both sides' operations change under its lock.
pub mod Wake
use swarm_p2p.Prelude.{
  ℕ, Bool, true, false, ◌||◌, Option, none, some, List, [], ◌∷◌, ◌++◌, leb, ◌==◌, length,
  if◌then◌else◌, Poll, ready, pending,
}
use swarm_p2p.Error.{Error, Result, ok, err, behaviour}

abbrev pub Waker : Type 0
Waker = ℕ

pub record ResultState (T : Type 0) : Type 0 where
  pub result : Option (Result T Error)
  pub waker : Option Waker
  pub cancelled : Bool

-- tokio's bounded `mpsc` channel, as far as a sender sees it.
pub record Channel (A : Type 0) : Type 0 where
  pub queue : List A
  pub capacity : ℕ
  pub closed : Bool

-- `none`: the channel is full or closed.
abbrev pub try_send : {A : Type 0} → A → Channel A → Option (Channel A)
try_send a c =
    if c.closed || leb c.capacity (length c.queue)
    then none
    else some (record c { queue = c.queue ++ a ∷ [] })

-- One poll of `recv`, where `senders` are left: it is over, with nothing, only if none is left.
unfoldable pub recv : {A : Type 0} → ℕ → Channel A → Poll (Option A) × Channel A
recv senders c = elim c.queue [
  | a ∷ queue ↦ (ready (some a), record c { queue = queue })
  | [] ↦ if senders == 0 then (ready none, c) else (pending, c)
]

module _ {T : Type 0} where
  abbrev pub new_handle : ResultState T
  new_handle = record { result = none; waker = none; cancelled = false }

  unfoldable pub poll_handle : Waker → ResultState T → Poll (Result T Error) × ResultState T
  poll_handle w s = elim s.result [
    | some r ↦ (ready r, record s { result = none })
    | none ↦ (pending, record s { waker = some w })
  ]

  -- The waker that is woken, if one is registered.
  unfoldable pub finish : Result T Error → ResultState T → Option Waker × ResultState T
  finish r s = (s.waker, record s { result = some r; waker = none })

  unfoldable pub cancel : ResultState T → ResultState T
  cancel s = record s { cancelled = true }

  abbrev pub is_cancelled : ResultState T → Bool
  is_cancelled s = s.cancelled

-- What a `CommandFuture` over the handler type `H` owns and shares.
pub record CommandFuture (H T : Type 0) : Type 0 where
  pub handler : Option H
  pub handle : ResultState T
  pub sender : Channel H

module _ {H T : Type 0} where
  abbrev pub new_future : H → Channel H → CommandFuture H T
  new_future h sender = record { handler = some h; handle = new_handle; sender = sender }

  -- The end of `poll`: the waker is registered on every poll, the first one too.
  abbrev poll_shared : Waker → CommandFuture H T → Poll (Result T Error) × CommandFuture H T
  poll_shared w f = let (r, handle) = poll_handle w f.handle in (r, record f { handle = handle })

  unfoldable pub poll_command :
      Waker → CommandFuture H T → Poll (Result T Error) × CommandFuture H T
  poll_command w f = elim f.handler [
    | none ↦ poll_shared w f
    | some h ↦ elim (try_send h f.sender) [
      | none ↦ (ready (err (behaviour "command channel closed")), record f { handler = none })
      | some sender ↦ poll_shared w (record f { handler = none; sender = sender })
    ]
  ]

  -- `Drop for CommandFuture`.
  unfoldable pub drop_future : CommandFuture H T → CommandFuture H T
  drop_future f = record f { handle = cancel f.handle }
