-- ===== src/Command/ReqResp.antt =====
-- core/src/command/req_resp: send_request.rs and send_response.rs.
pub mod Matching
use swarm_p2p.Prelude.{
  String, Bool, true, false, ◌&&◌, Option, none, some, ◌∷◌, ◌==◌, if◌then◌else◌,
}
use swarm_p2p.DataChannel.{PeerId}
use swarm_p2p.Error.{Error, Result, ok, err, network, request_response, NetworkFailureKind}
use swarm_p2p.Error
use swarm_p2p.Swarm
use swarm_p2p.Swarm.{
  Types, Trace, RequestId, OutboundFailure, SwarmEvent, response_message, outbound_failure,
}
use swarm_p2p.Command.{
  Ran, Answer, CommandHandler, default_on_event, no_relay_request, is_id, pass_on, done_with,
}

pub record SendRequestCommand (T : Types) : Type 0 where
  pub peer_id : PeerId
  pub request : Option T.Req
  pub request_id : Option RequestId

abbrev pub new_send_request : {T : Types} → PeerId → T.Req → SendRequestCommand T
new_send_request peer request = record { peer_id = peer; request = some request; request_id = none }

pub record SendResponseCommand (T : Types) : Type 0 where
  pub channel : Option T.ResponseChannel
  pub response : Option T.Resp

abbrev pub new_send_response : {T : Types} → T.ResponseChannel → T.Resp → SendResponseCommand T
new_send_response channel response = record { channel = some channel; response = some response }

abbrev failure_kind : OutboundFailure → NetworkFailureKind
failure_kind Swarm.dial_failure = Error.dial_failure
failure_kind Swarm.timeout = Error.timeout
failure_kind Swarm.connection_closed = Error.connection_closed
failure_kind Swarm.unsupported_protocols = Error.unsupported_protocol
failure_kind _ = Error.unknown

unfoldable pub map_outbound_failure : OutboundFailure → Error
map_outbound_failure e = network (failure_kind e)

module _ {T : Types} (sw : Swarm.Swarm T) where
  unfoldable pub run_send_request :
      SendRequestCommand T → Trace T → Ran T (SendRequestCommand T) T.Resp
  run_send_request c trace = elim c.request [
    | none ↦ record {
      command = c;
      trace = trace;
      finished = some (err (request_response "SendRequest: run called twice"));
    }
    | some request ↦ record {
      command = record c {
        request = none;
        request_id = some (sw.request_id trace c.peer_id request);
      };
      trace = Swarm.send_request c.peer_id request ∷ trace;
      finished = none;
    }
  ]

  abbrev sent : Result (Unit {0}) T.Resp → Result (Unit {0}) Error
  sent (ok u) = ok tt
  sent (err r) = err (request_response "Failed to send response: channel closed")

  -- Both fields are taken before they are looked at.
  unfoldable pub run_send_response :
      SendResponseCommand T → Trace T → Ran T (SendResponseCommand T) (Unit {0})
  run_send_response c trace =
      let emptied : SendResponseCommand T = record { channel = none; response = none } in
      let twice : Ran T (SendResponseCommand T) (Unit {0}) = record {
        command = emptied;
        trace = trace;
        finished = some (err (request_response "SendResponse: run called twice"));
      } in
      elim c.channel [
        | none ↦ twice
        | some channel ↦ elim c.response [
          | none ↦ twice
          | some response ↦ record {
            command = emptied;
            trace = Swarm.send_response channel response ∷ trace;
            finished = some (sent (sw.response_answer trace channel response));
          }
        ]
      ]

unfoldable pub on_event_send_request :
    {T : Types} → SendRequestCommand T → SwarmEvent T → Answer T (SendRequestCommand T) T.Resp
on_event_send_request c (response_message peer id response) =
    if is_id c.request_id id && peer == c.peer_id
    then done_with c (ok response)
    else pass_on c (response_message peer id response)
on_event_send_request c (outbound_failure peer id e) =
    if is_id c.request_id id && peer == c.peer_id
    then done_with c (err (map_outbound_failure e))
    else pass_on c (outbound_failure peer id e)
on_event_send_request c event = pass_on c event

module _ {T : Types} (sw : Swarm.Swarm T) where
  abbrev pub send_request_handler : CommandHandler T (SendRequestCommand T) T.Resp
  send_request_handler = record {
    run = run_send_request sw;
    on_event = on_event_send_request;
    take_relay_reservation_request = no_relay_request;
  }

  abbrev pub send_response_handler : CommandHandler T (SendResponseCommand T) (Unit {0})
  send_response_handler = record {
    run = run_send_response sw;
    on_event = default_on_event;
    take_relay_reservation_request = no_relay_request;
  }
