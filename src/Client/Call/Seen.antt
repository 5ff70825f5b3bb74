-- ===== src/Client/Call/Seen.antt =====
-- What the caller of a method of core/src/client sees of its command, without the shared handle, the
-- wakers and the channel between them.
use swarm_p2p.Prelude.{
  ◌≡◌, refl, sym, ap, ◌∙◌, Bool, true, false, inl, inr, Option, none, some, Option-cases, List, [],
  ◌∷◌, ready, pending,
}
use swarm_p2p.Error.{Error, Result}
use swarm_p2p.Handle.{Waker, Channel, ResultState, finish, CommandFuture}
use swarm_p2p.Handle.Wake.{poll-answered, poll-unanswered}
use swarm_p2p.Swarm.{Types}
use swarm_p2p.Command.{CommandHandler, CommandTask, apply_finish, run_boxed, on_event_boxed}
use swarm_p2p.Client.Call.{
  Place, unsent, queued, active, gone, Call, Moment, polled, taken, offered, kept_if, entered,
  sent_by, poll_call, go_on, await_call,
}

abbrev pub newer : {X : Type 0} → Option X → Option X → Option X
newer none old = old
newer (some x) old = some x

abbrev pub first_of : {X : Type 0} → Option X → Option X → Option X
first_of none later = later
first_of (some x) later = some x

module _ {T : Types} {C R : Type 0} (h : CommandHandler T C R) where
  -- The command alone, without handle, wakers and channel: from where it is and what it last
  -- finished with, what a poll sees.
  unfoldable pub seen :
      Place C → Option (Result R Error) → List (Moment T) → Option (Result R Error)
  seen p latest [] = none
  seen p latest (polled w ∷ ms) = first_of latest (seen p none ms)
  seen (queued c) latest (taken trace ∷ ms) =
      seen (active (h.run c trace).command) (newer (h.run c trace).finished latest) ms
  seen (unsent c) latest (taken trace ∷ ms) = seen (unsent c) latest ms
  seen (active c) latest (taken trace ∷ ms) = seen (active c) latest ms
  seen gone latest (taken trace ∷ ms) = seen gone latest ms
  seen (active c) latest (offered event ∷ ms) =
      seen (kept_if (h.on_event c event).keep (h.on_event c event).command)
        (newer (h.on_event c event).finished latest) ms
  seen (unsent c) latest (offered event ∷ ms) = seen (unsent c) latest ms
  seen (queued c) latest (offered event ∷ ms) = seen (queued c) latest ms
  seen gone latest (offered event ∷ ms) = seen gone latest ms

module _ {T : Types} {A C R : Type 0} (h : CommandHandler T C R) (box : CommandTask C R → A) where
  result-finished :
      (finished : Option (Result R Error)) (handle : ResultState R)
      → (apply_finish finished handle).result ≡ newer finished handle.result
  unfolding finish
  result-finished none handle = refl
  result-finished (some r) handle = refl

  entered-kept_if :
      (keep : Bool) (c : C) → entered {X = Channel A} (kept_if keep c) none ≡ kept_if keep c
  entered-kept_if true c = refl
  entered-kept_if false c = refl

  abbrev pub at_place : Place C → CommandFuture A R → Call A C R
  at_place p f = record { future = f; place = p }

  module _ (w : Waker) (p : Place C) (f : CommandFuture A R) (sent : f.handler ≡ none)
      (there : entered {X = Channel A} p none ≡ p) where
    stays_there : entered p (sent_by f.handler f.sender) ≡ p
    stays_there = rw sent there

    poll_call-unanswered :
        f.handle.result ≡ none
        → poll_call h box w (at_place p f)
          ≡ (pending, at_place p (record f { handle = record f.handle { waker = some w } }))
    poll_call-unanswered missing = λ i.
        let step = poll-unanswered w f sent missing i in (step.0, at_place (stays_there i) step.1)

    poll_call-answered :
        (r : Result R Error)
        → f.handle.result ≡ some r
        → poll_call h box w (at_place p f)
          ≡ (ready r, at_place p (record f { handle = record f.handle { result = none } }))
    poll_call-answered r found = λ i.
        let step = poll-answered w f sent r found i in (step.0, at_place (stays_there i) step.1)

  -- From a sent command on, a call returns what is seen of the command.
  pub await-seen :
      (ms : List (Moment T)) (p : Place C) (f : CommandFuture A R)
      → f.handler ≡ none
      → entered {X = Channel A} p none ≡ p
      → (await_call h box (at_place p f) ms).0 ≡ seen h p f.handle.result ms
  unfolding await_call seen run_boxed on_event_boxed
  await-seen [] p f sent there = refl
  await-seen (taken trace ∷ ms) (queued c) f sent there =
      await-seen ms (active (h.run c trace).command) _ sent refl
      ∙ ap (λ latest. seen h (active (h.run c trace).command) latest ms)
          (result-finished (h.run c trace).finished f.handle)
  await-seen (taken trace ∷ ms) (unsent c) f sent there = await-seen ms (unsent c) f sent there
  await-seen (taken trace ∷ ms) (active c) f sent there = await-seen ms (active c) f sent there
  await-seen (taken trace ∷ ms) gone f sent there = await-seen ms gone f sent there
  await-seen (offered event ∷ ms) (active c) f sent there =
      await-seen ms (kept_if (h.on_event c event).keep (h.on_event c event).command) _ sent
        (entered-kept_if (h.on_event c event).keep (h.on_event c event).command)
      ∙ ap
          (λ latest.
            seen h (kept_if (h.on_event c event).keep (h.on_event c event).command) latest ms)
          (result-finished (h.on_event c event).finished f.handle)
  await-seen (offered event ∷ ms) (unsent c) f sent there = await-seen ms (unsent c) f sent there
  await-seen (offered event ∷ ms) (queued c) f sent there = await-seen ms (queued c) f sent there
  await-seen (offered event ∷ ms) gone f sent there = await-seen ms gone f sent there
  await-seen (polled w ∷ ms) p f sent there = elim (Option-cases f.handle.result) [
    | inl missing ↦
        ap (λ r. (go_on h box (λ call. await_call h box call ms) r).0)
          (poll_call-unanswered w p f sent there missing)
        ∙ await-seen ms p (record f { handle = record f.handle { waker = some w } }) sent there
        ∙ ap (λ latest. seen h p latest ms) missing
        ∙ ap (λ latest. seen h p latest (polled w ∷ ms)) (sym missing)
    | inr (r, found) ↦
        ap (λ r'. (go_on h box (λ call. await_call h box call ms) r').0)
          (poll_call-answered w p f sent there r found)
        ∙ ap (λ latest. seen h p latest (polled w ∷ ms)) (sym found)
  ]
