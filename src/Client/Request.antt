-- ===== src/Client/Request.antt =====
-- core/src/request.rs and the requests of core/src/client/req_resp.rs. The body of an async function
-- is a state machine: each poll is a step of it. The timer of tokio's `timeout` is the answer
-- `elapsed` to each poll; tokio polls the inner future first and its timer after that.
pub mod Timeout
use swarm_p2p.Prelude.{
  ℕ, String, Bool, true, false, Option, none, some, Poll, ready, pending, panicked,
}
use swarm_p2p.DataChannel.{PeerId}
use swarm_p2p.Error.{Error, Result, err, network, timeout}
use swarm_p2p.Handle.{Waker, Channel, CommandFuture, new_future, poll_command, drop_future}
use swarm_p2p.Swarm.{Types}
use swarm_p2p.Command.ReqResp.{SendRequestCommand, new_send_request}

-- Durations are in nanoseconds.
pub record RequestOptions : Type 0 where
  pub timeout : Option ℕ
  pub correlation : Option String

abbrev pub default_options : RequestOptions
default_options = record { timeout = none; correlation = none }

abbrev pub with_timeout : ℕ → RequestOptions → RequestOptions
with_timeout t options = record options { timeout = some t }

abbrev pub with_correlation : String → RequestOptions → RequestOptions
with_correlation c options = record options { correlation = some c }

abbrev pub Request : Types → Type 0
Request T = CommandFuture (SendRequestCommand T) T.Resp

-- `over`: the body has returned and dropped its future, whose handle the event loop still shares.
pub data RequestCall (T : Types) : Type 0 where
  waiting : Option ℕ → Request T → RequestCall T
  over : Request T → RequestCall T

module _ {T : Types} where
  unfoldable pub send_request_with_options :
      PeerId → T.Req → RequestOptions → Channel (SendRequestCommand T) → RequestCall T
  send_request_with_options peer request options sender =
      waiting options.timeout (new_future (new_send_request peer request) sender)

  unfoldable pub send_request : PeerId → T.Req → Channel (SendRequestCommand T) → RequestCall T
  send_request peer request sender = send_request_with_options peer request default_options sender

  -- After a poll of the future, whatever it says.
  abbrev pub match_timeout :
      Option ℕ
      → Bool
      → Poll (Result T.Resp Error) × Request T
      → Poll (Result T.Resp Error) × RequestCall T
  match_timeout limit elapsed (ready r, f) = (ready r, over (drop_future f))
  match_timeout (some t) true (pending, f) = (ready (err (network timeout)), over (drop_future f))
  match_timeout (some t) false (pending, f) = (pending, waiting (some t) f)
  match_timeout none elapsed (pending, f) = (pending, waiting none f)
  match_timeout limit elapsed (panicked, f) = (panicked, over (drop_future f))

  unfoldable pub poll_request :
      Waker → Bool → RequestCall T → Poll (Result T.Resp Error) × RequestCall T
  poll_request w elapsed (waiting limit f) = match_timeout limit elapsed (poll_command w f)
  poll_request w elapsed (over f) = (panicked, over f)
