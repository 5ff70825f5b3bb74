-- ===== src/Command/KadStreams/Bootstraps.antt =====
-- core/src/command/kad/bootstrap.rs: what a whole query comes to.
use swarm_p2p.Prelude.{
  map, ◌∙◌, String, ◌≡◌, refl, true, Option, none, some, List, [], ◌∷◌, ◌++◌, ◌==◌, arith,
  if◌then◌else◌, prefixed,
}
use swarm_p2p.Error.{Error, Result, ok, err, kad}
use swarm_p2p.Swarm.{
  Types, Trace, Swarm, QueryId, BootstrapOk, SwarmEvent, kad_progressed, bootstrap_result,
}
use swarm_p2p.Command.{Answer, pass_on}
use swarm_p2p.Command.Kad.{stats_info, merge_stats}
use swarm_p2p.Command.KadQueries.{
  BootstrapCommand, BootstrapResult, new_bootstrap, run_bootstrap, on_event_bootstrap,
  step_bootstrap,
}
use swarm_p2p.Command.KadStreams.{
  QueryStep, merge_all, progress, ends, ended, feed, lifetime, own_steps, Reacts, feed-own_steps,
}

abbrev pub Step : Types → Type 0
Step T = QueryStep T (Result BootstrapOk String)

abbrev pub own_step : {T : Types} → QueryId → SwarmEvent T → Option (Step T)
own_step id (kad_progressed i (bootstrap_result res) stats last) =
    if id == i then some (record { result = res; stats = stats; last = last }) else none
own_step id _ = none

module _ {T : Types} (sw : Swarm T) where
  abbrev step : BootstrapCommand T → Step T → Answer T (BootstrapCommand T) BootstrapResult
  step c x =
      let merged = merge_stats sw c.stats x.stats in
      step_bootstrap sw (record c { stats = some merged }) x.result merged x.last

  abbrev HasId : QueryId → BootstrapCommand T → Type 0
  HasId id c = c.query_id ≡ some id

  own :
      (id : QueryId) (c : BootstrapCommand T) (e : SwarmEvent T) (x : Step T)
      → HasId id c
      → own_step id e ≡ some x
      → on_event_bootstrap sw c e ≡ step c x
  unfolding on_event_bootstrap
  own id c (kad_progressed i (bootstrap_result res) stats last) x q e = ground arith
  own id c _ x q e = cc

  foreign :
      (id : QueryId) (c : BootstrapCommand T) (e : SwarmEvent T)
      → HasId id c
      → own_step id e ≡ none
      → on_event_bootstrap sw c e ≡ pass_on c e
  unfolding on_event_bootstrap
  foreign id c (kad_progressed i (bootstrap_result res) stats last) q e = ground arith
  foreign id c _ q e = refl

  stays :
      (id : QueryId) (c : BootstrapCommand T) (x : Step T)
      → HasId id c
      → HasId id (step c x).command
  unfolding step_bootstrap
  stays id c x q = ground arith

  reacts : (id : QueryId) → Reacts (on_event_bootstrap sw) step (own_step id) (HasId id)
  reacts id = record { own = own id; foreign = foreign id; stays = stays id }

  -- What the query ends with, given the statistics before its final step.
  abbrev pub outcome : Option T.QueryStats → Step T → Result BootstrapResult Error
  outcome stats x = elim x.result [
    | ok r ↦ ok (record {
      num_remaining = r.num_remaining;
      stats = stats_info sw (merge_stats sw stats x.stats);
    })
    | err e ↦ err (kad (prefixed "Bootstrap: " e))
  ]

  feed-final :
      (c : BootstrapCommand T) (x : Step T) (later : List (Step T))
      → ends x ≡ true
      → feed step c (x ∷ later) ≡ ended (outcome c.stats x)
  unfolding feed step_bootstrap
  feed-final c x later e = ground arith

  feed-steps :
      (steps : List (BootstrapOk × T.QueryStats)) (c : BootstrapCommand T) (x : Step T)
      (later : List (Step T))
      → ends x ≡ true
      → feed step c (map progress steps ++ x ∷ later)
        ≡ ended (outcome (merge_all sw c.stats steps) x)
  unfolding feed step_bootstrap
  feed-steps [] c x later e = feed-final c x later e
  feed-steps ((r, s) ∷ steps) c x later e = feed-steps steps _ x later e

  -- A bootstrap query that starts, and whose own steps, among any other events, are successful ones
  -- and then one that ends it (the last, or an error): the command finishes with the error, or with
  -- the number remaining of its last step and the merged statistics. It finishes once, at that step,
  -- and leaves then; neither its run nor any other event makes it finish or leave.
  pub bootstrap-outcome :
      (trace : Trace T) (events : List (SwarmEvent T)) (id : QueryId)
      (steps : List (BootstrapOk × T.QueryStats)) (x : Step T) (later : List (Step T))
      → sw.bootstrap_answer trace ≡ ok id
      → ends x ≡ true
      → own_steps (own_step id) events ≡ map progress steps ++ x ∷ later
      → lifetime (on_event_bootstrap sw) (run_bootstrap sw new_bootstrap trace) events
        ≡ ended (outcome (merge_all sw none steps) x)
  unfolding run_bootstrap
  bootstrap-outcome trace events id steps x later started e q =
      rw (started, run_bootstrap)
        (feed-own_steps (on_event_bootstrap sw) step (own_step id) (HasId id) (reacts id) events _
            refl
          ∙ rw q (feed-steps steps _ x later e))
