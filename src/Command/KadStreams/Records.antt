-- ===== src/Command/KadStreams/Records.antt =====
-- core/src/command/kad/get_record.rs: what a whole query comes to.
use swarm_p2p.Prelude.{
  map, ◌∙◌, String, ◌≡◌, refl, true, Option, none, some, List, [], ◌∷◌, ◌++◌, ◌==◌, arith,
  if◌then◌else◌, prefixed, false,
}
use swarm_p2p.Error.{Error, Result, ok, err, kad}
use swarm_p2p.Swarm.{
  Types, Trace, Swarm, QueryId, GetRecordOk, SwarmEvent, kad_progressed, record_result,
}
use swarm_p2p.Command.{Answer, pass_on}
use swarm_p2p.Command.Kad.{stats_info, merge_stats}
use swarm_p2p.Command.KadQueries.{
  GetRecordCommand, GetRecordResult, new_get_record, run_get_record, on_event_get_record,
  step_get_record, note_record,
}
use swarm_p2p.Command.KadStreams.{
  QueryStep, merge_all, ended, feed, lifetime, own_steps, Reacts, feed-own_steps,
}

abbrev pub Step : Types → Type 0
Step T = QueryStep T (Result (GetRecordOk T) String)

abbrev pub own_step : {T : Types} → QueryId → SwarmEvent T → Option (Step T)
own_step id (kad_progressed i (record_result res) stats last) =
    if id == i then some (record { result = res; stats = stats; last = last }) else none
own_step id _ = none

module _ {T : Types} (sw : Swarm T) where
  abbrev step : GetRecordCommand T → Step T → Answer T (GetRecordCommand T) (GetRecordResult T)
  step c x =
      let merged = merge_stats sw c.stats x.stats in
      step_get_record sw (record c { stats = some merged }) x.result merged x.last

  abbrev HasId : QueryId → GetRecordCommand T → Type 0
  HasId id c = c.query_id ≡ some id

  own :
      (id : QueryId) (c : GetRecordCommand T) (e : SwarmEvent T) (x : Step T)
      → HasId id c
      → own_step id e ≡ some x
      → on_event_get_record sw c e ≡ step c x
  unfolding on_event_get_record
  own id c (kad_progressed i (record_result res) stats last) x q e = ground arith
  own id c _ x q e = cc

  foreign :
      (id : QueryId) (c : GetRecordCommand T) (e : SwarmEvent T)
      → HasId id c
      → own_step id e ≡ none
      → on_event_get_record sw c e ≡ pass_on c e
  unfolding on_event_get_record
  foreign id c (kad_progressed i (record_result res) stats last) q e = ground arith
  foreign id c _ q e = refl

  stays :
      (id : QueryId) (c : GetRecordCommand T) (x : Step T)
      → HasId id c
      → HasId id (step c x).command
  unfolding step_get_record
  stays id c x q = ground arith

  reacts : (id : QueryId) → Reacts (on_event_get_record sw) step (own_step id) (HasId id)
  reacts id = record { own = own id; foreign = foreign id; stays = stays id }

  -- A step that is not the last, successful or not.
  abbrev pub waiting_step : Result (GetRecordOk T) String × T.QueryStats → Step T
  waiting_step (res, s) = record { result = res; stats = s; last = false }

  -- The record after one more step: the first one found stays, and errors are passed over.
  abbrev pub note_step : Option T.Record → Result (GetRecordOk T) String → Option T.Record
  note_step value (ok res) = note_record sw value res
  note_step value (err e) = value

  abbrev pub first_found :
      Option T.Record → List (Result (GetRecordOk T) String × T.QueryStats) → Option T.Record
  first_found value [] = value
  first_found value ((res, s) ∷ steps) = first_found (note_step value res) steps

  -- What the query ends with, given the record and the statistics after its last step.
  abbrev pub outcome :
      Option T.Record
      → T.QueryStats
      → Result (GetRecordOk T) String
      → Result (GetRecordResult T) Error
  outcome (some r) stats res = ok (record { value = r; stats = stats_info sw stats })
  outcome none stats (ok r) = err (kad "Record not found")
  outcome none stats (err e) = err (kad (prefixed "GetRecord: " e))

  feed-last :
      (c : GetRecordCommand T) (res : Result (GetRecordOk T) String) (s : T.QueryStats)
      (later : List (Step T))
      → feed step c (record { result = res; stats = s; last = true } ∷ later)
        ≡ ended (outcome (note_step c.value res) (merge_stats sw c.stats s) res)
  unfolding feed step_get_record
  feed-last c (ok res) s later = ground arith
  feed-last c (err e) s later = ground arith

  feed-steps :
      (steps : List (Result (GetRecordOk T) String × T.QueryStats)) (c : GetRecordCommand T)
      (res : Result (GetRecordOk T) String) (s : T.QueryStats) (later : List (Step T))
      → feed step c
          (map waiting_step steps ++ record { result = res; stats = s; last = true } ∷ later)
        ≡ ended (
            outcome
              (note_step (first_found c.value steps) res)
              (merge_stats sw (merge_all sw c.stats steps) s)
              res)
  unfolding feed step_get_record
  feed-steps [] c res s later = feed-last c res s later
  feed-steps ((ok r, q) ∷ steps) c res s later =
      feed-steps steps
        (record c { stats = some (merge_stats sw c.stats q); value = note_record sw c.value r }) res
        s later
  feed-steps ((err e, q) ∷ steps) c res s later =
      ground
        (arith, feed-steps steps (record c { stats = some (merge_stats sw c.stats q) }) res s later)

  -- A get-record query whose own steps, among any other events, are some steps, successful or
  -- failing, and then the last: the command finishes with the first record that any step found and
  -- the merged statistics, errors before or after it ignored; with none found, it finishes with the
  -- last step's error, or with "Record not found" if that step is no error. It finishes once, at its
  -- last step, and leaves then; neither its run nor any other event makes it finish or leave.
  pub get_record-outcome :
      (key : T.RecordKey) (trace : Trace T) (events : List (SwarmEvent T))
      (steps : List (Result (GetRecordOk T) String × T.QueryStats))
      (res : Result (GetRecordOk T) String) (s : T.QueryStats) (later : List (Step T))
      → own_steps (own_step (sw.record_query trace key)) events
        ≡ map waiting_step steps ++ record { result = res; stats = s; last = true } ∷ later
      → lifetime (on_event_get_record sw) (run_get_record sw (new_get_record key) trace) events
        ≡ ended (
            outcome
              (note_step (first_found none steps) res)
              (merge_stats sw (merge_all sw none steps) s)
              res)
  unfolding run_get_record
  get_record-outcome key trace events steps res s later q =
      feed-own_steps (on_event_get_record sw) step (own_step id) (HasId id) (reacts id) events _
        refl
      ∙ rw q (feed-steps steps _ res s later)
    where
      id : QueryId
      id = sw.record_query trace key
