-- ===== src/Node/Process/Replies/Waits.antt =====
-- A reply channel that waits for its answer while a whole node goes on: core/src/pending_map.rs and
-- core/src/runtime/event_loop.rs.
use swarm_p2p.Prelude.{
  ℕ, ◌+◌, ◌-◌, ◌<◌, ◌≡◌, ap, ◌∙◌, false, Option, none, some, List, [], ◌∷◌, ◌++◌, arith,
  word_add-eq, word_mod, length, ◌==◌,
}
use swarm_p2p.Prelude.Map.{get}
use swarm_p2p.PendingMap.{PendingEntry, insert_pending, take_pending, purge_expired}
use swarm_p2p.PendingMap.Laws.{
  if_fresh, insert_pending-effect, take_pending-effect, purge_expired-effect,
}
use swarm_p2p.PendingMap.Cleaner.{clean_lem}
use swarm_p2p.PendingMap.History.{Every}
use swarm_p2p.Swarm.{Types, Swarm}
use swarm_p2p.Command.Active.Queue.{Active, active_trait}
use swarm_p2p.EventLoop.{Env}
use swarm_p2p.EventLoop.Convert.Pending.{Request}
use swarm_p2p.Node.Process.{Process, Move, turned, asked}
use swarm_p2p.Node.Process.Replies.{Waiting, noted, waiting, brings}
use swarm_p2p.Node.Process.Replies.Answers.{Owes, channel_of}
use swarm_p2p.Node.Process.Replies.Uses.{
  Use, moved, answered, cleaned, used, uses, moved_channel, noted_by, request_in, requests,
  used-Owes, waiting-move,
}
use swarm_p2p.Node.Process.Replies.Always.{first_fits, rest_fits}

module _ {T : Types} where
  -- What waits under an id that was given out, and how long it may.
  pub record Waits (ttl id : ℕ) (e : PendingEntry T.ResponseChannel) (w : Waiting T) : Type 0 where
    pub given : id < w.counter
    pub held : get id w.pending.inner ≡ some e
    pub timed : w.pending.ttl ≡ ttl

  module _ (ttl id : ℕ) (e : PendingEntry T.ResponseChannel) (reqs : List T.ResponseChannel)
      (w : Waiting T) (o : Owes reqs w) where
    noted-Waits :
        (env : Env) (request : Option (Request T))
        → length reqs + length (channel_of request) < word_mod
        → Waits ttl id e w
        → Waits ttl id e (noted env request w)
    unfolding insert_pending
    noted-Waits env none room h = h
    noted-Waits env (some (peer, request, channel)) room h =
        let (unique, entries) =
          insert_pending-effect w.pending o.unique env.now w.counter channel in
        record {
          given = omega (arith, h.given, word_add-eq w.counter 1, o.counted);
          held = ground (arith, entries id, h.given, h.held);
          timed = h.timed;
        }

    taken-Waits :
        (key : ℕ)
        → (key == id) ≡ false
        → Waits ttl id e w
        → Waits ttl id e (record w { pending = (take_pending key w.pending).1 })
    unfolding take_pending
    taken-Waits key other h =
        let (found, unique, entries) = take_pending-effect w.pending o.unique key in
        record { given = h.given; held = ground (arith, entries id, h.held); timed = h.timed }

    cleaned-Waits :
        (now : ℕ)
        → now - e.created_at < ttl
        → Waits ttl id e w
        → Waits ttl id e (record w { pending = (purge_expired now w.pending).1 })
    unfolding purge_expired
    cleaned-Waits now young h =
        let (unique, entries) = purge_expired-effect w.pending o.unique now in
        record {
          given = h.given;
          held = entries id ∙ ap (if_fresh w.pending.ttl now) h.held ∙ ground (arith, h.timed);
          timed = h.timed;
        }

module _ {T : Types} (sw : Swarm T) where
  -- The uses that leave what was stored at `since` under an id where it is: no answer under that id,
  -- and no turn of the cleaner once the time to live is over.
  abbrev pub Spares : ℕ → ℕ → ℕ → Use sw → Type 0
  Spares ttl id since (moved m) = Unit
  Spares ttl id since (answered key) = (key == id) ≡ false
  Spares ttl id since (cleaned now) = now - since < ttl

  noted_by-Waits :
      (ttl id : ℕ) (e : PendingEntry T.ResponseChannel) (m : Move sw (active_trait sw))
      (reqs : List T.ResponseChannel) (w : Waiting T)
      → Owes reqs w
      → length reqs + length (moved_channel sw m) < word_mod
      → Waits ttl id e w
      → Waits ttl id e (noted_by sw m w)
  noted_by-Waits ttl id e (turned env selected) reqs w o room h =
      noted-Waits ttl id e reqs w o env (brings sw env selected) room h
  noted_by-Waits ttl id e (asked start) reqs w o room h = h
  noted_by-Waits ttl id e _ reqs w o room h = h

  used-Waits :
      (ttl id : ℕ) (e : PendingEntry T.ResponseChannel) (u : Use sw) (reqs : List T.ResponseChannel)
      (s : Process T (Active T))
      → Owes reqs (waiting s.loop)
      → length reqs + length (request_in sw u) < word_mod
      → Spares ttl id e.created_at u
      → Waits ttl id e (waiting s.loop)
      → Waits ttl id e (waiting (used sw u s).1.loop)
  unfolding used
  used-Waits ttl id e (moved m) reqs s o room spares h =
      rw (waiting-move sw m s) (noted_by-Waits ttl id e m reqs (waiting s.loop) o room h)
  used-Waits ttl id e (answered key) reqs s o room spares h =
      taken-Waits ttl id e reqs (waiting s.loop) o key spares h
  used-Waits ttl id e (cleaned now) reqs s o room spares h =
      rw (clean_lem now s.loop.pending_channels)
        (cleaned-Waits ttl id e reqs (waiting s.loop) o now spares h)

  pub uses-Waits :
      (ttl id : ℕ) (e : PendingEntry T.ResponseChannel) (us : List (Use sw))
      (reqs : List T.ResponseChannel) (s : Process T (Active T))
      → Owes reqs (waiting s.loop)
      → length reqs + length (requests sw us) < word_mod
      → Every (Spares ttl id e.created_at) us
      → Waits ttl id e (waiting s.loop)
      → Waits ttl id e (waiting (uses sw us s).loop)
  unfolding uses
  uses-Waits ttl id e [] reqs s o room spares h = h
  uses-Waits ttl id e (u ∷ us) reqs s o room (spare, spares) h =
      let fits = first_fits sw u us reqs room in
      uses-Waits ttl id e us (reqs ++ request_in sw u) (used sw u s).1
        (used-Owes sw u reqs s fits o) (rest_fits sw u us reqs room) spares
        (used-Waits ttl id e u reqs s o fits spare h)
