-- ===== src/Command/KadStreams/Provides.antt =====
-- core/src/command/kad/start_provide.rs: what a whole query comes to.
use swarm_p2p.Prelude.{
  map, ◌∙◌, String, ◌≡◌, refl, true, Option, none, some, List, [], ◌∷◌, ◌++◌, ◌==◌, arith,
  if◌then◌else◌, false,
}
use swarm_p2p.Error.{Result, ok}
use swarm_p2p.Swarm.{
  Types, Trace, Swarm, QueryId, QueryStatsInfo, SwarmEvent, kad_progressed, start_providing_result,
}
use swarm_p2p.Command.{Answer, pass_on, wait_on, done_with}
use swarm_p2p.Command.Kad.{
  stats_info, merge_stats, with_info, StartProvideCommand, new_start_provide, run_start_provide,
  on_event_start_provide,
}
use swarm_p2p.Command.KadStreams.{
  QueryStep, merge_all, ended, feed, lifetime, own_steps, Reacts, feed-own_steps,
}

abbrev pub Step : Types → Type 0
Step T = QueryStep T (Result (Unit {0}) String)

abbrev pub own_step : {T : Types} → QueryId → SwarmEvent T → Option (Step T)
own_step id (kad_progressed i (start_providing_result res) stats last) =
    if id == i then some (record { result = res; stats = stats; last = last }) else none
own_step id _ = none

module _ {T : Types} (sw : Swarm T) where
  abbrev step : StartProvideCommand T → Step T → Answer T (StartProvideCommand T) QueryStatsInfo
  step c x =
      let merged = merge_stats sw c.stats x.stats in
      let c' = record c { stats = some merged } in
      if x.last
      then done_with c' (with_info (stats_info sw merged) "Provide: " x.result)
      else wait_on c'

  abbrev HasId : QueryId → StartProvideCommand T → Type 0
  HasId id c = c.query_id ≡ some id

  own :
      (id : QueryId) (c : StartProvideCommand T) (e : SwarmEvent T) (x : Step T)
      → HasId id c
      → own_step id e ≡ some x
      → on_event_start_provide sw c e ≡ step c x
  unfolding on_event_start_provide
  own id c (kad_progressed i (start_providing_result res) stats last) x q e = ground arith
  own id c _ x q e = cc

  foreign :
      (id : QueryId) (c : StartProvideCommand T) (e : SwarmEvent T)
      → HasId id c
      → own_step id e ≡ none
      → on_event_start_provide sw c e ≡ pass_on c e
  unfolding on_event_start_provide
  foreign id c (kad_progressed i (start_providing_result res) stats last) q e = ground arith
  foreign id c _ q e = refl

  stays :
      (id : QueryId) (c : StartProvideCommand T) (x : Step T)
      → HasId id c
      → HasId id (step c x).command
  stays id c x q = ground arith

  reacts : (id : QueryId) → Reacts (on_event_start_provide sw) step (own_step id) (HasId id)
  reacts id = record { own = own id; foreign = foreign id; stays = stays id }

  abbrev pub waiting_step : Result (Unit {0}) String × T.QueryStats → Step T
  waiting_step (res, s) = record { result = res; stats = s; last = false }

  feed-steps :
      (steps : List (Result (Unit {0}) String × T.QueryStats)) (c : StartProvideCommand T)
      (res : Result (Unit {0}) String) (s : T.QueryStats) (later : List (Step T))
      → feed step c
          (map waiting_step steps ++ record { result = res; stats = s; last = true } ∷ later)
        ≡ ended (
            with_info
              (stats_info sw (merge_stats sw (merge_all sw c.stats steps) s))
              "Provide: "
              res)
  unfolding feed
  feed-steps [] c res s later = refl
  feed-steps ((r, q) ∷ steps) c res s later =
      feed-steps steps (record c { stats = some (merge_stats sw c.stats q) }) res s later

  -- A start-provide query that the store accepts, and whose own steps, among any other events, are
  -- some steps and then the last: the command finishes with the merged statistics of all of them
  -- if the last step succeeds, and with its error if not, whatever the earlier ones say. It finishes
  -- once, at its last step, and leaves then; neither its run nor any other event makes it finish or
  -- leave.
  pub start_provide-outcome :
      (key : T.RecordKey) (trace : Trace T) (id : QueryId) (events : List (SwarmEvent T))
      (steps : List (Result (Unit {0}) String × T.QueryStats)) (res : Result (Unit {0}) String)
      (s : T.QueryStats) (later : List (Step T))
      → sw.start_providing_answer trace key ≡ ok id
      → own_steps (own_step id) events
        ≡ map waiting_step steps ++ record { result = res; stats = s; last = true } ∷ later
      → lifetime
          (on_event_start_provide sw)
          (run_start_provide sw (new_start_provide key) trace)
          events
        ≡ ended
            (with_info (stats_info sw (merge_stats sw (merge_all sw none steps) s)) "Provide: " res)
  unfolding run_start_provide
  start_provide-outcome key trace id events steps res s later started q =
      rw (started, run_start_provide)
        (feed-own_steps (on_event_start_provide sw) step (own_step id) (HasId id) (reacts id) events
            _ refl
          ∙ rw q (feed-steps steps _ res s later))
