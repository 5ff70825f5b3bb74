-- ===== src/Client/Call/Outcome.antt =====
-- What a call of core/src/client returns, whatever the interleaving of its caller with the loop.
use swarm_p2p.Prelude.{
  ◌≡◌, refl, ◌∙◌, Bool, true, false, Bool-cases, inl, inr, ◌||◌, Option, none, some, Option-cases,
  List, [], ◌∷◌, ◌++◌, leb, length, if◌then◌else◌,
}
use swarm_p2p.Error.{Error, Result, err, behaviour}
use swarm_p2p.Handle.{Waker, Channel, poll_command, poll_handle}
use swarm_p2p.Swarm.{Types, Trace, SwarmEvent}
use swarm_p2p.Command.{CommandHandler, CommandTask}
use swarm_p2p.Client.Call.{
  Place, queued, active, gone, Moment, polled, taken, offered, kept_if, new_call, await_call,
}
use swarm_p2p.Client.Call.Seen.{newer, first_of, seen, await-seen}

module _ {T : Types} {C R : Type 0} (h : CommandHandler T C R) where
  -- The first result that the command finishes with, whenever its caller polls.
  unfoldable pub first_finish : Place C → List (Moment T) → Option (Result R Error)
  first_finish p [] = none
  first_finish p (polled w ∷ ms) = first_finish p ms
  first_finish (queued c) (taken trace ∷ ms) =
      first_of (h.run c trace).finished (first_finish (active (h.run c trace).command) ms)
  first_finish (active c) (offered event ∷ ms) =
      first_of (h.on_event c event).finished
        (first_finish (kept_if (h.on_event c event).keep (h.on_event c event).command) ms)
  first_finish p (_ ∷ ms) = first_finish p ms

  -- A command that finishes once: `Done` are its states after it finished in `run`.
  pub record Once (c : C) : Type 1 where
    pub Done : C → Type 0
    pub run_done :
        (trace : Trace T) (r : Result R Error)
        → (h.run c trace).finished ≡ some r
        → Done (h.run c trace).command
    pub done_quiet : (d : C) (event : SwarmEvent T) → Done d → (h.on_event d event).finished ≡ none
    pub done_stays : (d : C) (event : SwarmEvent T) → Done d → Done (h.on_event d event).command
    pub event_ends :
        (d : C) (event : SwarmEvent T) (r : Result R Error)
        → (h.on_event d event).finished ≡ some r
        → (h.on_event d event).keep ≡ false

  module _ {c : C} (once : Once c) where
    gone-seen :
        (ms : List (Moment T)) (w : Waker) (r : Result R Error)
        → seen h gone (some r) (ms ++ polled w ∷ []) ≡ some r
    unfolding seen
    gone-seen [] w r = refl
    gone-seen (polled w' ∷ ms) w r = refl
    gone-seen (taken trace ∷ ms) w r = gone-seen ms w r
    gone-seen (offered event ∷ ms) w r = gone-seen ms w r

    -- After it has finished, a poll sees that result, whatever events are still offered.
    done-seen :
        (ms : List (Moment T)) (w : Waker) (r : Result R Error) (keep : Bool) (d : C)
        → once.Done d
        → seen h (kept_if keep d) (some r) (ms ++ polled w ∷ []) ≡ some r
    unfolding seen
    done-seen ms w r false d o = gone-seen ms w r
    done-seen [] w r true d o = refl
    done-seen (polled w' ∷ ms) w r true d o = refl
    done-seen (taken trace ∷ ms) w r true d o = done-seen ms w r true d o
    done-seen (offered event ∷ ms) w r true d o = rw (once.done_quiet d event o) (
        done-seen ms w r (h.on_event d event).keep (h.on_event d event).command
          (once.done_stays d event o))

    active-seen :
        (ms : List (Moment T)) (w : Waker) (keep : Bool) (d : C)
        → seen h (kept_if keep d) none (ms ++ polled w ∷ []) ≡ first_finish (kept_if keep d) ms
    unfolding seen first_finish
    active-seen [] w false d = refl
    active-seen [] w true d = refl
    active-seen (polled w' ∷ ms) w keep d = active-seen ms w keep d
    active-seen (taken trace ∷ ms) w false d = active-seen ms w false d
    active-seen (taken trace ∷ ms) w true d = active-seen ms w true d
    active-seen (offered event ∷ ms) w false d = active-seen ms w false d
    active-seen (offered event ∷ ms) w true d = elim (Option-cases (h.on_event d event).finished) [
      | inl unfinished ↦
          rw unfinished (active-seen ms w (h.on_event d event).keep (h.on_event d event).command)
      | inr (r, finished) ↦ rw (finished, once.event_ends d event r finished) (gone-seen ms w r)
    ]

    run-seen :
        (ms : List (Moment T)) (w : Waker) (finished : Option (Result R Error)) (d : C)
        → ((r : Result R Error) → finished ≡ some r → once.Done d)
        → seen h (active d) (newer finished none) (ms ++ polled w ∷ [])
          ≡ first_of finished (first_finish (active d) ms)
    run-seen ms w none d done = active-seen ms w true d
    run-seen ms w (some r) d done = done-seen ms w r true d (done r refl)

    queued-seen :
        (ms : List (Moment T)) (w : Waker)
        → seen h (queued c) none (ms ++ polled w ∷ []) ≡ first_finish (queued c) ms
    unfolding seen first_finish
    queued-seen [] w = refl
    queued-seen (polled w' ∷ ms) w = queued-seen ms w
    queued-seen (offered event ∷ ms) w = queued-seen ms w
    queued-seen (taken trace ∷ ms) w =
        run-seen ms w (h.run c trace).finished (h.run c trace).command (once.run_done trace)

module _ {T : Types} {A C R : Type 0} (h : CommandHandler T C R) (box : CommandTask C R → A) {c : C}
    (once : Once h c) where
  -- A call of a command that finishes at most once. If the command channel takes its command, then
  -- however the later polls of the caller, the loop's taking of the command and the events that
  -- the loop offers it interleave, the call has returned by the last poll exactly if the command
  -- has finished, and then with what it finished with. If the channel is full or closed, the
  -- first poll returns an error.
  pub call-first_finish :
      (sender : Channel A) (w w' : Waker) (ms : List (Moment T))
      → (await_call h box (new_call h box c sender) (polled w ∷ ms ++ polled w' ∷ [])).0 ≡ (
          if sender.closed || leb sender.capacity (length sender.queue)
          then some (err (behaviour "command channel closed"))
          else first_finish h (queued c) ms)
  unfolding await_call poll_command poll_handle
  call-first_finish sender w w' ms =
      elim (Bool-cases (sender.closed || leb sender.capacity (length sender.queue))) [
        | inl refused ↦ rw refused refl
        | inr accepted ↦
            rw accepted (await-seen h box _ (queued c) _ refl refl ∙ queued-seen h once ms w')
      ]
