-- ===== src/Examples/Futures.antt =====
-- The theorems on core/src/client/future.rs and core/src/client/req_resp.rs at concrete inputs.
use swarm_p2p.Prelude.{ℕ, ◌≡◌, refl, false, some, [], ◌∷◌, List, ready, true}
use swarm_p2p.Error.{ok, err, behaviour, network, timeout}
use swarm_p2p.Handle.{Channel, poll_command, poll_handle, new_future, finish}
use swarm_p2p.Handle.Wake.{
  Op, poll_by, finish_with, channel_is, run, step, start, finish-wakes, first_poll,
}
use swarm_p2p.Command.ReqResp.{SendRequestCommand}
use swarm_p2p.Client.Request.{send_request_with_options, with_timeout, default_options}
use swarm_p2p.Client.Request.Timeout.{
  Moment, poll_at, answered, await_request, returned, Returns, send_request-Returns,
}
use swarm_p2p.Examples.{types}

abbrev channel : Channel ℕ
channel = record { queue = []; capacity = 32; closed = false }

-- Task 1 polls, and then task 2.
abbrev polls : List (Op ℕ ℕ)
polls = poll_by 1 ∷ poll_by 2 ∷ []

parked : (run (start 4 channel) polls).parked ≡ some 2
unfolding run step poll_command poll_handle
parked = refl

finish-wakes_example :
    let f = (run (start 4 channel) polls).future in
    let (woken, handle) = finish (ok 8) f.handle in
    (woken ≡ some 2) × ((poll_command 3 (record f { handle = handle })).0 ≡ ready (ok 8))
finish-wakes_example = finish-wakes 4 channel polls 2 3 (ok 8) parked

abbrev full : Channel ℕ
full = record { queue = 6 ∷ []; capacity = 1; closed = false }

-- The channel gets room, and a result comes.
abbrev unfinished : List (Op ℕ ℕ)
unfinished = channel_is channel ∷ poll_by 3 ∷ finish_with (ok 8) ∷ []

first_poll_example :
    let (r, f) = poll_command 1 (new_future {T = ℕ} 4 full) in
    let later = (run (step (start 4 full) (poll_by 1)) unfinished).future in
    ((poll_command 2 later).1.sender ≡ later.sender)
    × ((r ≡ ready (err (behaviour "command channel closed"))) × (f.sender ≡ full))
first_poll_example = first_poll ℕ 4 full 1 2 unfinished

abbrev requests : Channel (SendRequestCommand types)
requests = record { queue = []; capacity = 32; closed = false }

-- The time runs out at the second poll, and the answer comes after that.
abbrev moments : List (Moment types)
moments = poll_at 2 true ∷ answered (ok 5) ∷ poll_at 2 true ∷ []

send_request-Returns_example : Returns (some (err (network timeout))) (
    await_request
      (send_request_with_options 7 3 (with_timeout 100 default_options) requests)
      (poll_at 1 false ∷ moments))
unfolding returned
send_request-Returns_example =
    send_request-Returns 7 3 (with_timeout 100 default_options) requests 1 false moments
