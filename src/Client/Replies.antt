-- ===== src/Client/Replies.antt =====
-- From an inbound request in core/src/runtime/event_loop.rs to its answer in
-- core/src/client/req_resp.rs.
use swarm_p2p.Prelude.{ℕ, ◌≡◌, refl, ap, String, none, some, ==-self}
use swarm_p2p.Prelude.Map.{get-remove}
use swarm_p2p.DataChannel.{PeerId}
use swarm_p2p.Error.{ok, err}
use swarm_p2p.PendingMap.{PendingMap, take_pending}
use swarm_p2p.Event.{inbound_request}
use swarm_p2p.Handle.{Channel, new_future}
use swarm_p2p.Swarm.{Types, Swarm, request_message}
use swarm_p2p.Command.ReqResp.{SendResponseCommand, new_send_response}
use swarm_p2p.EventLoop.{EventLoop, Env}
use swarm_p2p.EventLoop.Convert.{convert_to_node_event, on_inbound_request}
use swarm_p2p.EventLoop.Convert.Pending.{take-own}
use swarm_p2p.Client.{send_response, answer_with, no_pending_channel}

module _ {T : Types} (display : ℕ → String) (sender : Channel (SendResponseCommand T)) where
  take_again :
      (id : ℕ) (m : PendingMap T.ResponseChannel) → (take_pending id (take_pending id m).1).0 ≡ none
  unfolding take_pending
  take_again id m = rw (get-remove id id m.inner, ==-self id)

  respond_again :
      (id : ℕ) (response again : T.Resp) (m : PendingMap T.ResponseChannel)
      → (send_response display sender id again (send_response display sender id response m).0).1
        ≡ err (no_pending_channel display id)
  unfolding send_response
  respond_again id response again m = ap (answer_with display sender id again) (take_again id m)

  module _ (sw : Swarm T) {C : Type 0} where
    -- An inbound request is reported with the counter's value as its id. The first answer under that
    -- id makes the command that carries this request's reply channel and the answer, and any second
    -- answer under it is an error that says so.
    pub request-respond :
        (env : Env) (peer : PeerId) (request : T.Req) (channel : T.ResponseChannel)
        (s : EventLoop T C) (response again : T.Resp)
        → let id = s.pending_id_counter in
          let (s', event) = convert_to_node_event sw env (request_message peer request channel) s in
          let (pending', answer) = send_response display sender id response s'.pending_channels in
          (event ≡ some (inbound_request peer id request))
          × (answer ≡ ok (new_future (new_send_response channel response) sender))
          × ((send_response display sender id again pending').1
              ≡ err (no_pending_channel display id))
    unfolding convert_to_node_event on_inbound_request send_response
    request-respond env peer request channel s response again = (
      refl,
      ap (answer_with display sender s.pending_id_counter response)
          (take-own env peer request channel s),
      respond_again s.pending_id_counter response again
          (on_inbound_request env peer request channel s).0.pending_channels,
    )
