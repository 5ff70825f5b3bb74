-- ===== src/Client/Request/Timeout.antt =====
-- What a request of core/src/client/req_resp.rs returns, and that it leaves a cancelled command.
use swarm_p2p.Prelude.{
  ◌≡◌, refl, Bool, true, false, Bool-cases, Option-cases, inl, inr, ◌||◌, Option, none, some, List,
  [], ◌∷◌, leb, length, if◌then◌else◌, is_some, Poll, ready, pending, panicked, ℕ,
}
use swarm_p2p.DataChannel.{PeerId}
use swarm_p2p.Error.{Error, Result, err, network, timeout, behaviour}
use swarm_p2p.Handle.{Waker, Channel, finish, cancel, poll_command, poll_handle, drop_future}
use swarm_p2p.Handle.Wake.{poll-answered, poll-unanswered}
use swarm_p2p.Swarm.{Types}
use swarm_p2p.Command.ReqResp.{SendRequestCommand}
use swarm_p2p.Client.Request.{
  RequestOptions, Request, RequestCall, waiting, over, match_timeout, poll_request,
  send_request_with_options,
}

-- The caller's task polls, with the timer's answer, or the event loop finishes the command.
pub data Moment (T : Types) : Type 0 where
  poll_at : Waker → Bool → Moment T
  answered : Result T.Resp Error → Moment T

abbrev expires : Option ℕ → Bool → Bool
expires (some t) elapsed = elapsed
expires none elapsed = false

module _ {T : Types} where
  abbrev pub answer : Result T.Resp Error → RequestCall T → RequestCall T
  answer r (waiting limit f) = waiting limit (record f { handle = (finish r f.handle).1 })
  answer r (over f) = over (record f { handle = (finish r f.handle).1 })

  abbrev go_on :
      (RequestCall T → Option (Result T.Resp Error) × RequestCall T)
      → Poll (Result T.Resp Error) × RequestCall T
      → Option (Result T.Resp Error) × RequestCall T
  go_on rest (ready r, c) = (some r, c)
  go_on rest (pending, c) = rest c
  go_on rest (panicked, c) = (none, c)

  -- The caller polls until the request returns.
  unfoldable pub await_request :
      RequestCall T → List (Moment T) → Option (Result T.Resp Error) × RequestCall T
  await_request c [] = (none, c)
  await_request c (answered r ∷ ms) = await_request (answer r c) ms
  await_request c (poll_at w elapsed ∷ ms) =
      go_on (λ c'. await_request c' ms) (poll_request w elapsed c)

  -- What is returned, from the latest answer that has not been returned: a poll returns that
  -- answer, late or not, and the timeout only if there is none.
  unfoldable pub returned :
      Option ℕ → Option (Result T.Resp Error) → List (Moment T) → Option (Result T.Resp Error)
  returned limit latest [] = none
  returned limit latest (answered r ∷ ms) = returned limit (some r) ms
  returned limit (some r) (poll_at w elapsed ∷ ms) = some r
  returned limit none (poll_at w elapsed ∷ ms) =
      let rest = returned limit none ms in
      if expires limit elapsed then some (err (network timeout)) else rest

  abbrev pub future_of : RequestCall T → Request T
  future_of (waiting limit f) = f
  future_of (over f) = f

  -- The call returned `expected`, and its command is cancelled exactly if that is a return.
  abbrev pub Returns :
      Option (Result T.Resp Error) → Option (Result T.Resp Error) × RequestCall T → Type 0
  Returns expected (r, c) = (r ≡ expected) × ((future_of c).handle.cancelled ≡ is_some expected)

  unanswered-Returns :
      (limit : Option ℕ) (elapsed : Bool)
      (rest : RequestCall T → Option (Result T.Resp Error) × RequestCall T)
      (later : Option (Result T.Resp Error)) (f : Request T)
      → Returns later (rest (waiting limit f))
      → Returns
          (if expires limit elapsed then some (err (network timeout)) else later)
          (go_on rest (match_timeout limit elapsed (pending, f)))
  unfolding drop_future cancel
  unanswered-Returns (some t) true rest later f v = (refl, refl)
  unanswered-Returns (some t) false rest later f v = v
  unanswered-Returns none elapsed rest later f v = v

  -- From a sent command on.
  await-Returns :
      (limit : Option ℕ) (ms : List (Moment T)) (f : Request T)
      → f.handler ≡ none
      → f.handle.cancelled ≡ false
      → Returns (returned limit f.handle.result ms) (await_request (waiting limit f) ms)
  unfolding await_request returned finish poll_request drop_future cancel
  await-Returns limit [] f sent live = (refl, live)
  await-Returns limit (answered r ∷ ms) f sent live = await-Returns limit ms _ sent live
  await-Returns limit (poll_at w elapsed ∷ ms) f sent live =
      let later =
        await-Returns limit ms (record f { handle = record f.handle { waker = some w } }) sent
          live in
      elim (Option-cases f.handle.result) [
        | inl missing ↦
            rw (poll-unanswered w f sent missing, missing)
              (unanswered-Returns limit elapsed (λ c. await_request c ms) _ _ (rw missing at later))
        | inr (r, found) ↦ rw (poll-answered w f sent r found, found) (refl, refl)
      ]

  -- A request whose command the channel takes, polled at once: whatever the timer says and whenever
  -- the event loop finishes it, it returns as the latest answer, or as the timeout if the options
  -- have one and it has run out at a poll with no answer; and its command is cancelled exactly
  -- once it has returned. If the channel is full or closed, the first poll returns an error.
  pub send_request-Returns :
      (peer : PeerId) (request : T.Req) (options : RequestOptions)
      (sender : Channel (SendRequestCommand T)) (w : Waker) (elapsed : Bool) (ms : List (Moment T))
      → Returns
          (if sender.closed || leb sender.capacity (length sender.queue)
            then some (err (behaviour "command channel closed"))
            else returned options.timeout none (poll_at w elapsed ∷ ms))
          (await_request
            (send_request_with_options peer request options sender)
            (poll_at w elapsed ∷ ms))
  unfolding send_request_with_options await_request poll_request poll_command poll_handle
      drop_future cancel returned
  send_request-Returns peer request options sender w elapsed ms =
      elim (Bool-cases (sender.closed || leb sender.capacity (length sender.queue))) [
        | inl refused ↦ rw refused (refl, refl)
        | inr sent ↦ rw sent (
            unanswered-Returns options.timeout elapsed (λ c. await_request c ms) _ _
              (await-Returns options.timeout ms _ refl refl))
      ]
