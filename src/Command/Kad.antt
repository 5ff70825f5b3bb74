-- ===== src/Command/Kad.antt =====
-- core/src/command/kad: statistics (mod.rs, and core/src/util.rs), and the commands that write.
use swarm_p2p.Prelude.{String, Option, none, some, ◌∷◌, if◌then◌else◌, prefixed}
use swarm_p2p.Error.{Error, Result, ok, err, kad}
use swarm_p2p.Swarm.{
  Types, Swarm, Trace, QueryId, QueryStatsInfo, SwarmEvent, kad_progressed, put_record_result,
  start_providing_result, kad_put_record, kad_start_providing, kad_stop_providing,
  kad_remove_record,
}
use swarm_p2p.Command.{
  Ran, Answer, CommandHandler, default_on_event, no_relay_request, is_id, pass_on, wait_on,
  done_with,
}

module _ {T : Types} (sw : Swarm T) where
  -- `impl From<&kad::QueryStats> for QueryStatsInfo`.
  unfoldable pub stats_info : T.QueryStats → QueryStatsInfo
  stats_info s = record {
    duration = sw.duration s;
    num_requests = sw.num_requests s;
    num_successes = sw.num_successes s;
    num_failures = sw.num_failures s;
  }

  -- The value that `merge_stats` stores, so that the later `unwrap` of the field finds it.
  unfoldable pub merge_stats : Option T.QueryStats → T.QueryStats → T.QueryStats
  merge_stats none incoming = incoming
  merge_stats (some s) incoming = sw.merge s incoming

pub record PutRecordCommand (T : Types) : Type 0 where
  pub value : T.Record
  pub query_id : Option QueryId
  pub stats : Option T.QueryStats

abbrev pub new_put_record : {T : Types} → T.Record → PutRecordCommand T
new_put_record value = record { value = value; query_id = none; stats = none }

pub record StartProvideCommand (T : Types) : Type 0 where
  pub key : T.RecordKey
  pub query_id : Option QueryId
  pub stats : Option T.QueryStats

abbrev pub new_start_provide : {T : Types} → T.RecordKey → StartProvideCommand T
new_start_provide key = record { key = key; query_id = none; stats = none }

pub record StopProvideCommand (T : Types) : Type 0 where
  pub key : T.RecordKey

pub record RemoveRecordCommand (T : Types) : Type 0 where
  pub key : T.RecordKey

abbrev pub with_info :
    QueryStatsInfo → String → Result (Unit {0}) String → Result QueryStatsInfo Error
with_info info before (ok u) = ok info
with_info info before (err e) = err (kad (prefixed before e))

module _ {T : Types} (sw : Swarm T) where
  unfoldable pub run_put_record :
      PutRecordCommand T → Trace T → Ran T (PutRecordCommand T) QueryStatsInfo
  run_put_record c trace =
      let trace' : Trace T = kad_put_record c.value ∷ trace in
      elim (sw.put_record_answer trace c.value) [
        | ok id ↦ record {
          command = record c { query_id = some id };
          trace = trace';
          finished = none;
        }
        | err e ↦ record {
          command = c;
          trace = trace';
          finished = some (err (kad (prefixed "PutRecord store: " e)));
        }
      ]

  -- The last step's result decides; the earlier ones are ignored.
  unfoldable pub on_event_put_record :
      PutRecordCommand T → SwarmEvent T → Answer T (PutRecordCommand T) QueryStatsInfo
  on_event_put_record c (kad_progressed id (put_record_result res) stats last) =
      let merged = merge_stats sw c.stats stats in
      let c' = record c { stats = some merged } in
      if is_id c.query_id id
      then if last
        then done_with c' (with_info (stats_info sw merged) "PutRecord: " res)
        else wait_on c'
      else pass_on c (kad_progressed id (put_record_result res) stats last)
  on_event_put_record c event = pass_on c event

  unfoldable pub run_start_provide :
      StartProvideCommand T → Trace T → Ran T (StartProvideCommand T) QueryStatsInfo
  run_start_provide c trace =
      let trace' : Trace T = kad_start_providing c.key ∷ trace in
      elim (sw.start_providing_answer trace c.key) [
        | ok id ↦ record {
          command = record c { query_id = some id };
          trace = trace';
          finished = none;
        }
        | err e ↦ record {
          command = c;
          trace = trace';
          finished = some (err (kad (prefixed "StartProviding store: " e)));
        }
      ]

  unfoldable pub on_event_start_provide :
      StartProvideCommand T → SwarmEvent T → Answer T (StartProvideCommand T) QueryStatsInfo
  on_event_start_provide c (kad_progressed id (start_providing_result res) stats last) =
      let merged = merge_stats sw c.stats stats in
      let c' = record c { stats = some merged } in
      if is_id c.query_id id
      then if last
        then done_with c' (with_info (stats_info sw merged) "Provide: " res)
        else wait_on c'
      else pass_on c (kad_progressed id (start_providing_result res) stats last)
  on_event_start_provide c event = pass_on c event

unfoldable pub run_stop_provide :
    {T : Types} → StopProvideCommand T → Trace T → Ran T (StopProvideCommand T) (Unit {0})
run_stop_provide c trace = record {
  command = c;
  trace = kad_stop_providing c.key ∷ trace;
  finished = some (ok tt);
}

unfoldable pub run_remove_record :
    {T : Types} → RemoveRecordCommand T → Trace T → Ran T (RemoveRecordCommand T) (Unit {0})
run_remove_record c trace = record {
  command = c;
  trace = kad_remove_record c.key ∷ trace;
  finished = some (ok tt);
}

module _ {T : Types} (sw : Swarm T) where
  abbrev pub put_record_handler : CommandHandler T (PutRecordCommand T) QueryStatsInfo
  put_record_handler = record {
    run = run_put_record sw;
    on_event = on_event_put_record sw;
    take_relay_reservation_request = no_relay_request;
  }

  abbrev pub start_provide_handler : CommandHandler T (StartProvideCommand T) QueryStatsInfo
  start_provide_handler = record {
    run = run_start_provide sw;
    on_event = on_event_start_provide sw;
    take_relay_reservation_request = no_relay_request;
  }

module _ {T : Types} where
  abbrev pub stop_provide_handler : CommandHandler T (StopProvideCommand T) (Unit {0})
  stop_provide_handler = record {
    run = run_stop_provide;
    on_event = default_on_event;
    take_relay_reservation_request = no_relay_request;
  }

  abbrev pub remove_record_handler : CommandHandler T (RemoveRecordCommand T) (Unit {0})
  remove_record_handler = record {
    run = run_remove_record;
    on_event = default_on_event;
    take_relay_reservation_request = no_relay_request;
  }
