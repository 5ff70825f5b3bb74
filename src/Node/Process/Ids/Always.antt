-- ===== src/Node/Process/Ids/Always.antt =====
-- The ids of the data channels of a node that has started, over any moves: core/src/data_channel.rs,
-- core/src/runtime/node.rs and core/src/runtime/event_loop.rs.
use swarm_p2p.Prelude.{ℕ, suc, ◌+◌, ◌≤◌, ◌<◌, ◌≡◌, ap, List, [], ◌∷◌, arith, length, word_mod}
use swarm_p2p.Error.{ok}
use swarm_p2p.Config.{NodeConfig}
use swarm_p2p.Swarm.{Types, Swarm}
use swarm_p2p.Command.{CommandTrait}
use swarm_p2p.EventLoop.{EventLoop}
use swarm_p2p.Node.{start_node, loop_of}
use swarm_p2p.Node.Process.{Process, Move, launched, move, moves}
use swarm_p2p.Node.Process.Share.{Share, share, share-start_node}
use swarm_p2p.Node.Process.Ids.{ids, Numbered}
use swarm_p2p.Node.Process.Ids.Moved.{move-Steps}

module _ {T : Types} {C : Type 0} where
  -- The counter lies in the range, and the ids in use are below it and each in use once.
  pub record IsNumbered (first last : ℕ) (s : Process T C) : Type 0 where
    pub not_below : first ≤ s.loop.next_channel_id
    pub not_above : s.loop.next_channel_id ≤ last
    pub numbered : Numbered s.loop.next_channel_id (ids s)

  widen-IsNumbered :
      {first last last' : ℕ} (s : Process T C)
      → IsNumbered first last s
      → last ≤ last'
      → IsNumbered first last' s
  widen-IsNumbered s v h = record {
    not_below = v.not_below;
    not_above = omega (arith, v.not_above);
    numbered = v.numbered;
  }

  begun-IsNumbered :
      (config : NodeConfig) (next_id : ℕ) (loop : EventLoop T C)
      → share loop ≡ share (loop_of {T = T} {C = C} config next_id [])
      → IsNumbered next_id next_id (launched loop)
  begun-IsNumbered config next_id loop e = record {
    not_below = omega (arith, ap (λ (x : Share). x.3) e);
    not_above = omega (arith, ap (λ (x : Share). x.3) e);
    numbered = rw (ap (λ (x : Share). x.2) e) (λ n. omega arith);
  }

module _ {T : Types} {C : Type 0} (sw : Swarm T) (cmds : CommandTrait T C) where
  moves-IsNumbered_from :
      (first last : ℕ) (ms : List (Move sw cmds)) (s : Process T C)
      → last + length ms < word_mod
      → IsNumbered first last s
      → IsNumbered first (last + length ms) (moves sw cmds ms s)
  unfolding moves
  moves-IsNumbered_from first last [] s fits v = widen-IsNumbered s v (omega arith)
  moves-IsNumbered_from first last (m ∷ ms) s fits v =
      let (grows, numbered) = move-Steps sw cmds s m (omega (arith, v.not_above)) v.numbered in
      widen-IsNumbered _
        (moves-IsNumbered_from first (suc last) ms (move sw cmds m s) (omega arith) (record {
          not_below = omega (arith, v.not_below, grows.0);
          not_above = omega (arith, v.not_above, grows.1);
          numbered = numbered;
        }))
        (omega arith)

  -- From a start of the node that succeeds, as long as the moves are too few for the counter to
  -- reach 2 ^ 64: whatever the loop, the clients and the user do, in any order, the counter of
  -- channel ids only grows, by one for each move at most, and every id in use, of an unfinished
  -- future, a channel in the consumer's queue or a channel of the user, is below the counter and
  -- in use once.
  pub moves-IsNumbered :
      (config : NodeConfig) (next_id : ℕ) (loop : EventLoop T C) (ms : List (Move sw cmds))
      → (start_node sw config next_id).1 ≡ ok loop
      → next_id + length ms < word_mod
      → IsNumbered next_id (next_id + length ms) (moves sw cmds ms (launched loop))
  moves-IsNumbered config next_id loop ms started fits =
      moves-IsNumbered_from next_id next_id ms (launched loop) fits
        (begun-IsNumbered config next_id loop (share-start_node sw config next_id loop started))
