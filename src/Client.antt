-- ===== src/Client.antt =====
-- core/src/client/req_resp.rs: the answer to an inbound request. The future of a response owns a queue
-- of such commands, and the decimal text of an id is the argument `display`.
pub mod Replies
pub mod Request
pub mod Call
pub mod Net
use swarm_p2p.Prelude.{ℕ, String, Option, none, some, prefixed}
use swarm_p2p.Error.{Error, Result, ok, err, request_response}
use swarm_p2p.PendingMap.{PendingMap, take_pending}
use swarm_p2p.Handle.{Channel, CommandFuture, new_future}
use swarm_p2p.Swarm.{Types}
use swarm_p2p.Command.ReqResp.{SendResponseCommand, new_send_response}

abbrev pub no_pending_channel : (ℕ → String) → ℕ → Error
no_pending_channel display id = request_response (
    prefixed "No pending channel for pending_id="
      (prefixed (display id) " (expired or already responded)"))

abbrev pub Response : Types → Type 0
Response T = CommandFuture (SendResponseCommand T) (Unit {0})

module _ {T : Types} (display : ℕ → String) (sender : Channel (SendResponseCommand T)) where
  abbrev pub answer_with : ℕ → T.Resp → Option T.ResponseChannel → Result (Response T) Error
  answer_with id response none = err (no_pending_channel display id)
  answer_with id response (some channel) =
      ok (new_future (new_send_response channel response) sender)

  -- The future that is then awaited, or the error. The reply channel is taken before the command is
  -- sent.
  unfoldable pub send_response :
      ℕ
      → T.Resp
      → PendingMap T.ResponseChannel
      → PendingMap T.ResponseChannel × Result (Response T) Error
  send_response id response m =
      let (found, m') = take_pending id m in (m', answer_with id response found)
