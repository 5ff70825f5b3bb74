-- ===== src/Examples/Loop.antt =====
-- The theorems on the event loop of core/src/runtime/event_loop.rs at concrete inputs.
use swarm_p2p.Prelude.{
  ◌≡◌, ℕ, ◌⊎◌, inl, inr, refl, Bool-cases, true, false, none, some, [], ◌∷◌, List, ◌==◌,
  if◌then◌else◌, arith,
}
use swarm_p2p.Prelude.Map.{get}
use swarm_p2p.DataChannel.Registry.{new_registry}
use swarm_p2p.DataChannel.Quota.{new_registry-Backs}
use swarm_p2p.PendingMap.{new_pending}
use swarm_p2p.Chain.{OnEvent, chain}
use swarm_p2p.Chain.Delivery.{Delivered, Consumes, Passes, chain-Delivered}
use swarm_p2p.Config.{off, InfrastructureMode}
use swarm_p2p.Swarm.{SwarmEvent, request_message, ping_success}
use swarm_p2p.Event.{inbound_request}
use swarm_p2p.EventLoop.{EventLoop, Env, new_event_loop}
use swarm_p2p.EventLoop.Convert.{convert_to_node_event}
use swarm_p2p.EventLoop.Convert.Pending.{IsIssued}
use swarm_p2p.EventLoop.Convert.Pending.Serves.{Serves, run, run-Serves}
use swarm_p2p.EventLoop.Inbound.{handle_inbound_channel}
use swarm_p2p.EventLoop.Inbound.Accounts.{Handled, handle_inbound_channel-Handled}
use swarm_p2p.Error.{ok, err}
use swarm_p2p.Handle.{Channel, new_future}
use swarm_p2p.Command.ReqResp.{SendResponseCommand, new_send_response}
use swarm_p2p.Client.{send_response, no_pending_channel}
use swarm_p2p.Client.Replies.{request-respond}
use swarm_p2p.Examples.{types, network, limits, limits-IsUsize}

abbrev pub loop : InfrastructureMode → EventLoop types ℕ
loop mode =
    new_event_loop [] (new_pending 97) "v1" limits new_registry
      (record { queue = []; capacity = 16; closed = false }) 0 true mode

abbrev pub env : Env
env = record { now = 5; event_open = true; event_room = true; set_order = λ peers. peers }

-- Commands that wait for one number each.
abbrev await : OnEvent ℕ ℕ
await c e = if c == e then (c, false, none) else (c, true, some e)

await-hands_on : (c : ℕ) → Consumes await 2 c ⊎ Passes await 2 c
await-hands_on c = elim (Bool-cases (c == 2)) [
  | inl own ↦ inl (rw own)
  | inr foreign ↦ inr (rw foreign)
]

chain-Delivered_example :
    Delivered await 2
      (1 ∷ 2 ∷ 3 ∷ [])
      (chain await (1 ∷ 2 ∷ 3 ∷ []) 2).0
      (chain await (1 ∷ 2 ∷ 3 ∷ []) 2).1
chain-Delivered_example = chain-Delivered await 2 await-hands_on (1 ∷ 2 ∷ 3 ∷ [])

abbrev events : List (Env × SwarmEvent types)
events =
    (env, request_message 7 1 100) ∷ (env, ping_success 7 20) ∷ (env, request_message 8 1 200) ∷ []

loop-IsIssued : IsIssued (loop off)
unfolding get
loop-IsIssued id h = refl

run-Serves_example : Serves 0 ((0, 100) ∷ (1, 200) ∷ []) (loop off) (run network events (loop off))
run-Serves_example = run-Serves network events 0 (loop off) refl loop-IsIssued (omega arith)

handle_inbound_channel-Handled_example :
    Handled [] 7 1 3 (loop off) (handle_inbound_channel 1 7 3 (loop off))
handle_inbound_channel-Handled_example =
    handle_inbound_channel-Handled [] 7 1 3 (loop off) limits-IsUsize new_registry-Backs

-- Peer 7's request 1 is answered with 60 under the id 0.
abbrev replies : Channel (SendResponseCommand types)
replies = record { queue = []; capacity = 32; closed = false }

request-respond_example :
    let (after, event) = convert_to_node_event network env (request_message 7 1 100) (loop off) in
    let (pending', answer) = send_response (λ id. "0") replies 0 60 after.pending_channels in
    (event ≡ some (inbound_request 7 0 1))
    × (answer ≡ ok (new_future (new_send_response 100 60) replies))
    × ((send_response (λ id. "0") replies 0 61 pending').1 ≡ err (no_pending_channel (λ id. "0") 0))
request-respond_example = request-respond (λ id. "0") replies network env 7 1 100 (loop off) 60 61
