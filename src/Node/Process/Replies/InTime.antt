-- ===== src/Node/Process/Replies/InTime.antt =====
-- An answer that comes in time, over a whole node that has started: core/src/runtime/event_loop.rs,
-- core/src/pending_map.rs and core/src/client/req_resp.rs.
use swarm_p2p.Prelude.{
  ℕ, ◌+◌, ◌<◌, ◌≡◌, refl, ap, ◌∙◌, Option, none, some, List, [], ◌∷◌, ◌++◌, arith, word_add-eq,
  word_mod, length, length-append, ==-self,
}
use mathlib.Core.List.{append_assoc, append-nil}
use swarm_p2p.DataChannel.{PeerId}
use swarm_p2p.Error.{ok}
use swarm_p2p.Config.{NodeConfig}
use swarm_p2p.PendingMap.{PendingEntry, insert_pending, take_pending, purge_expired}
use swarm_p2p.PendingMap.Laws.{insert_pending-effect}
use swarm_p2p.PendingMap.Cleaner.{clean_lem}
use swarm_p2p.PendingMap.History.{Every}
use swarm_p2p.Swarm.{Types, Swarm, request_message}
use swarm_p2p.Command.Active.Queue.{Active, active_trait}
use swarm_p2p.EventLoop.{EventLoop, Env, start_listen}
use swarm_p2p.EventLoop.Convert.Pending.{Request}
use swarm_p2p.EventLoop.Run.{swarm_event}
use swarm_p2p.Node.{start_node}
use swarm_p2p.Node.Process.{Process, Move, turned, asked, launched, move}
use swarm_p2p.Node.Process.Replies.{Waiting, noted, waiting, brings}
use swarm_p2p.Node.Process.Replies.Answers.{Owes}
use swarm_p2p.Node.Process.Replies.Uses.{
  Use, moved, answered, cleaned, used, uses, noted_by, request_in, requests, used-Owes,
  waiting-move,
}
use swarm_p2p.Node.Process.Replies.Waits.{Waits, Spares, uses-Waits}
use swarm_p2p.Node.Process.Replies.Always.{begun-Owes, waiting-listened, first_fits, rest_fits}

module _ {T : Types} (sw : Swarm T) where
  -- The time to live stays what it was.
  record Lasts (ttl : ℕ) (reqs : List T.ResponseChannel) (w : Waiting T) : Type 0 where
    owes : Owes reqs w
    timed : w.pending.ttl ≡ ttl

  noted-ttl :
      (env : Env) (request : Option (Request T)) (w : Waiting T)
      → (noted env request w).pending.ttl ≡ w.pending.ttl
  unfolding insert_pending
  noted-ttl env none w = refl
  noted-ttl env (some (peer, request, channel)) w = refl

  noted_by-ttl :
      (m : Move sw (active_trait sw)) (w : Waiting T)
      → (noted_by sw m w).pending.ttl ≡ w.pending.ttl
  noted_by-ttl (turned env selected) w = noted-ttl env (brings sw env selected) w
  noted_by-ttl (asked start) w = refl
  noted_by-ttl _ w = refl

  used-ttl :
      (u : Use sw) (s : Process T (Active T))
      → (used sw u s).1.loop.pending_channels.ttl ≡ s.loop.pending_channels.ttl
  unfolding used take_pending purge_expired
  used-ttl (moved m) s =
      ap (λ (w : Waiting T). w.pending.ttl) (waiting-move sw m s) ∙ noted_by-ttl m (waiting s.loop)
  used-ttl (answered id) s = refl
  used-ttl (cleaned now) s = rw (clean_lem now s.loop.pending_channels) refl

  uses-Lasts :
      (ttl : ℕ) (us : List (Use sw)) (reqs : List T.ResponseChannel) (s : Process T (Active T))
      → length reqs + length (requests sw us) < word_mod
      → Lasts ttl reqs (waiting s.loop)
      → Lasts ttl (reqs ++ requests sw us) (waiting (uses sw us s).loop)
  unfolding uses
  uses-Lasts ttl [] reqs s room l = rw append-nil l
  uses-Lasts ttl (u ∷ us) reqs s room l = rw (← append_assoc) (
      uses-Lasts ttl us (reqs ++ request_in sw u) (used sw u s).1 (rest_fits sw u us reqs room)
        (record {
          owes = used-Owes sw u reqs s (first_fits sw u us reqs room) l.owes;
          timed = used-ttl u s ∙ l.timed;
        }))

  -- A request that has just arrived waits under its place among all requests.
  stored-Waits :
      (ttl : ℕ) (env : Env) (peer : PeerId) (request : T.Req) (channel : T.ResponseChannel)
      (reqs : List T.ResponseChannel) (w : Waiting T)
      → length reqs + 1 < word_mod
      → Lasts ttl reqs w
      → Waits ttl
          (length reqs)
          (record { value = channel; created_at = env.now })
          (noted env (some (peer, request, channel)) w)
  unfolding insert_pending
  stored-Waits ttl env peer request channel reqs w room l =
      let (unique, entries) =
        insert_pending-effect w.pending l.owes.unique env.now w.counter channel in
      record {
        given = omega (arith, l.owes.counted, word_add-eq w.counter 1);
        held = ground (arith, entries (length reqs), l.owes.counted, ==-self w.counter);
        timed = l.timed;
      }

  taken_waiting :
      (ttl id : ℕ) (e : PendingEntry T.ResponseChannel) (s : Process T (Active T))
      → Waits ttl id e (waiting s.loop)
      → (used sw (answered id) s).0 ≡ (id, e.value) ∷ []
  unfolding used take_pending
  taken_waiting ttl id e s h = rw h.held refl

  begun-Lasts :
      (config : NodeConfig) (next_id : ℕ) (loop : EventLoop T (Active T))
      → (start_node sw config next_id).1 ≡ ok loop
      → Lasts config.req_resp_timeout [] (waiting loop)
  unfolding start_node
  begun-Lasts config next_id loop started = record {
    owes = begun-Owes sw config next_id loop started;
    timed =
        ap (λ (w : Waiting T). w.pending.ttl)
          (waiting-listened sw config next_id (start_listen sw config.listen_addrs []) loop
            started);
  }

  abbrev pub asks : Env → PeerId → T.Req → T.ResponseChannel → Use sw
  asks env peer request channel =
      moved (turned env (swarm_event (request_message peer request channel)))

  -- From a start of the node that succeeds, with fewer than 2 ^ 64 inbound requests: an answer under
  -- the number of the requests that came before a request takes that request's reply channel, whatever
  -- the node has done before and does in between, in any order, if no answer came under that id in
  -- between, and the cleaner did not run once the request timeout of the configuration was over.
  pub answer-in_time :
      (config : NodeConfig) (next_id : ℕ) (loop : EventLoop T (Active T)) (before : List (Use sw))
      (env : Env) (peer : PeerId) (request : T.Req) (channel : T.ResponseChannel)
      (after : List (Use sw))
      → (start_node sw config next_id).1 ≡ ok loop
      → length (requests sw before) + 1 + length (requests sw after) < word_mod
      → Every (Spares sw config.req_resp_timeout (length (requests sw before)) env.now) after
      → let id = length (requests sw before) in
        let arrived = used sw (asks env peer request channel) (uses sw before (launched loop)) in
        (used sw (answered id) (uses sw after arrived.1)).0 ≡ (id, channel) ∷ []
  unfolding used
  answer-in_time config next_id loop before env peer request channel after started room spares =
      let reqs = requests sw before in
      let s = uses sw before (launched loop) in
      let ask : Move sw (active_trait sw) =
        turned env (swarm_event (request_message peer request channel)) in
      let entry : PendingEntry T.ResponseChannel = record {
        value = channel;
        created_at = env.now;
      } in
      let lasts =
        uses-Lasts config.req_resp_timeout before [] (launched loop) (omega arith)
          (begun-Lasts config next_id loop started) in
      let waits =
        stored-Waits config.req_resp_timeout env peer request channel reqs (waiting s.loop)
          (omega arith) lasts in
      let s' = move sw (active_trait sw) ask s in
      taken_waiting config.req_resp_timeout (length reqs) entry (uses sw after s') (
        uses-Waits sw config.req_resp_timeout (length reqs) entry after (reqs ++ channel ∷ []) s'
          (used-Owes sw (moved ask) reqs s (omega arith) lasts.owes)
          (omega (arith, length-append reqs (channel ∷ []))) spares
          (rw (waiting-move sw ask s) waits))
