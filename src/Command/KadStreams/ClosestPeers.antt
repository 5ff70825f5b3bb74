-- ===== src/Command/KadStreams/ClosestPeers.antt =====
-- core/src/command/kad/get_closest_peers.rs: what a whole query comes to.
use swarm_p2p.Prelude.{
  map, ◌∙◌, String, ◌≡◌, refl, true, Option, none, some, List, [], ◌∷◌, ◌++◌, ◌==◌, arith,
  if◌then◌else◌, prefixed,
}
use mathlib.Core.List.{append-nil, append_assoc}
use swarm_p2p.DataChannel.{PeerId}
use swarm_p2p.Error.{Error, Result, ok, err, kad}
use swarm_p2p.Swarm.{Types, Trace, Swarm, QueryId, SwarmEvent, kad_progressed, closest_peers_result}
use swarm_p2p.Command.{Answer, pass_on}
use swarm_p2p.Command.Kad.{stats_info, merge_stats}
use swarm_p2p.Command.KadQueries.{
  GetClosestPeersCommand, GetClosestPeersResult, new_get_closest_peers, run_get_closest_peers,
  on_event_get_closest_peers, step_get_closest_peers,
}
use swarm_p2p.Command.KadStreams.{
  QueryStep, merge_all, progress, ends, ended, feed, lifetime, own_steps, Reacts, feed-own_steps,
}

abbrev pub Step : Types → Type 0
Step T = QueryStep T (Result (List PeerId) String)

abbrev pub own_step : {T : Types} → QueryId → SwarmEvent T → Option (Step T)
own_step id (kad_progressed i (closest_peers_result res) stats last) =
    if id == i then some (record { result = res; stats = stats; last = last }) else none
own_step id _ = none

module _ {T : Types} (sw : Swarm T) where
  abbrev step :
      GetClosestPeersCommand T → Step T → Answer T (GetClosestPeersCommand T) GetClosestPeersResult
  step c x =
      let merged = merge_stats sw c.stats x.stats in
      step_get_closest_peers sw (record c { stats = some merged }) x.result merged x.last

  abbrev HasId : QueryId → GetClosestPeersCommand T → Type 0
  HasId id c = c.query_id ≡ some id

  own :
      (id : QueryId) (c : GetClosestPeersCommand T) (e : SwarmEvent T) (x : Step T)
      → HasId id c
      → own_step id e ≡ some x
      → on_event_get_closest_peers sw c e ≡ step c x
  unfolding on_event_get_closest_peers
  own id c (kad_progressed i (closest_peers_result res) stats last) x q e = ground arith
  own id c _ x q e = cc

  foreign :
      (id : QueryId) (c : GetClosestPeersCommand T) (e : SwarmEvent T)
      → HasId id c
      → own_step id e ≡ none
      → on_event_get_closest_peers sw c e ≡ pass_on c e
  unfolding on_event_get_closest_peers
  foreign id c (kad_progressed i (closest_peers_result res) stats last) q e = ground arith
  foreign id c _ q e = refl

  stays :
      (id : QueryId) (c : GetClosestPeersCommand T) (x : Step T)
      → HasId id c
      → HasId id (step c x).command
  unfolding step_get_closest_peers
  stays id c x q = ground arith

  reacts : (id : QueryId) → Reacts (on_event_get_closest_peers sw) step (own_step id) (HasId id)
  reacts id = record { own = own id; foreign = foreign id; stays = stays id }

  abbrev pub gather : List (List PeerId × T.QueryStats) → List PeerId
  gather [] = []
  gather ((r, s) ∷ steps) = r ++ gather steps

  -- What the query ends with, given the peers and the statistics before its final step.
  abbrev pub outcome :
      List PeerId → Option T.QueryStats → Step T → Result GetClosestPeersResult Error
  outcome peers stats x = elim x.result [
    | ok r ↦
        ok (record { peers = peers ++ r; stats = stats_info sw (merge_stats sw stats x.stats) })
    | err e ↦ err (kad (prefixed "GetClosestPeers: " e))
  ]

  feed-final :
      (c : GetClosestPeersCommand T) (x : Step T) (later : List (Step T))
      → ends x ≡ true
      → feed step c (x ∷ later) ≡ ended (outcome c.peers c.stats x)
  unfolding feed step_get_closest_peers
  feed-final c x later e = ground arith

  feed-steps :
      (steps : List (List PeerId × T.QueryStats)) (c : GetClosestPeersCommand T) (x : Step T)
      (later : List (Step T))
      → ends x ≡ true
      → feed step c (map progress steps ++ x ∷ later)
        ≡ ended (outcome (c.peers ++ gather steps) (merge_all sw c.stats steps) x)
  unfolding feed step_get_closest_peers
  feed-steps [] c x later e = rw append-nil (feed-final c x later e)
  feed-steps ((r, s) ∷ steps) c x later e = rw (← append_assoc) (feed-steps steps _ x later e)

  -- A get-closest-peers query whose own steps, among any other events, are successful ones and then
  -- one that ends it (the last, or an error): the command finishes with the error, or with the
  -- peers of all steps in order and the merged statistics. It finishes once, at that step, and leaves
  -- then; neither its run nor any other event makes it finish or leave.
  pub get_closest_peers-outcome :
      (key : T.RecordKey) (trace : Trace T) (events : List (SwarmEvent T))
      (steps : List (List PeerId × T.QueryStats)) (x : Step T) (later : List (Step T))
      → ends x ≡ true
      → own_steps (own_step (sw.closest_peers_query trace key)) events
        ≡ map progress steps ++ x ∷ later
      → lifetime
          (on_event_get_closest_peers sw)
          (run_get_closest_peers sw (new_get_closest_peers key) trace)
          events
        ≡ ended (outcome (gather steps) (merge_all sw none steps) x)
  unfolding run_get_closest_peers
  get_closest_peers-outcome key trace events steps x later e q =
      feed-own_steps (on_event_get_closest_peers sw) step (own_step id) (HasId id) (reacts id)
        events _ refl
      ∙ rw q (feed-steps steps _ x later e)
    where
      id : QueryId
      id = sw.closest_peers_query trace key
