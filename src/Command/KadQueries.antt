-- ===== src/Command/KadQueries.antt =====
-- core/src/command/kad: bootstrap.rs, get_closest_peers.rs, get_providers.rs and get_record.rs.
use swarm_p2p.Prelude.{
  ℕ, String, Bool, not, ◌&&◌, Option, none, some, List, [], ◌∷◌, ◌++◌, if◌then◌else◌, is_some,
  prefixed,
}
use swarm_p2p.DataChannel.{PeerId}
use swarm_p2p.Error.{Error, Result, ok, err, kad}
use swarm_p2p.Swarm.{
  Types, Swarm, Trace, QueryId, QueryStatsInfo, BootstrapOk, GetRecordOk, found_record,
  finished_record, GetProvidersOk, found_providers, finished_providers, SwarmEvent, kad_progressed,
  bootstrap_result, closest_peers_result, providers_result, record_result, kad_bootstrap,
  kad_get_closest_peers, kad_get_providers, kad_get_record,
}
use swarm_p2p.Command.{Ran, Answer, is_id, pass_on, wait_on, done_with}
use swarm_p2p.Command.Kad.{stats_info, merge_stats}

pub record BootstrapResult : Type 0 where
  pub num_remaining : ℕ
  pub stats : QueryStatsInfo

pub record BootstrapCommand (T : Types) : Type 0 where
  pub query_id : Option QueryId
  pub stats : Option T.QueryStats

pub record GetClosestPeersResult : Type 0 where
  pub peers : List PeerId
  pub stats : QueryStatsInfo

pub record GetClosestPeersCommand (T : Types) : Type 0 where
  pub key : T.RecordKey
  pub query_id : Option QueryId
  pub peers : List PeerId
  pub stats : Option T.QueryStats

pub record GetProvidersResult : Type 0 where
  pub providers : List PeerId
  pub stats : QueryStatsInfo

pub record GetProvidersCommand (T : Types) : Type 0 where
  pub key : T.RecordKey
  pub query_id : Option QueryId
  pub providers : List PeerId
  pub stats : Option T.QueryStats

pub record GetRecordResult (T : Types) : Type 0 where
  pub value : T.Record
  pub stats : QueryStatsInfo

pub record GetRecordCommand (T : Types) : Type 0 where
  pub key : T.RecordKey
  pub query_id : Option QueryId
  pub value : Option T.Record
  pub stats : Option T.QueryStats

abbrev pub new_bootstrap : {T : Types} → BootstrapCommand T
new_bootstrap = record { query_id = none; stats = none }

abbrev pub new_get_closest_peers : {T : Types} → T.RecordKey → GetClosestPeersCommand T
new_get_closest_peers key = record { key = key; query_id = none; peers = []; stats = none }

abbrev pub new_get_providers : {T : Types} → T.RecordKey → GetProvidersCommand T
new_get_providers key = record { key = key; query_id = none; providers = []; stats = none }

abbrev pub new_get_record : {T : Types} → T.RecordKey → GetRecordCommand T
new_get_record key = record { key = key; query_id = none; value = none; stats = none }

-- The providers that one step adds.
abbrev pub providers_of : GetProvidersOk → List PeerId
providers_of (found_providers ps) = ps
providers_of (finished_providers ps) = []

module _ {T : Types} (sw : Swarm T) where
  unfoldable pub run_bootstrap :
      BootstrapCommand T → Trace T → Ran T (BootstrapCommand T) BootstrapResult
  run_bootstrap c trace = elim (sw.bootstrap_answer trace) [
    | ok id ↦ record {
      command = record c { query_id = some id };
      trace = kad_bootstrap ∷ trace;
      finished = none;
    }
    | err e ↦ record {
      command = c;
      trace = kad_bootstrap ∷ trace;
      finished = some (err (kad "Bootstrap failed: no known peers"));
    }
  ]

  -- One step of the command's own query, its statistics merged.
  unfoldable pub step_bootstrap :
      BootstrapCommand T
      → Result BootstrapOk String
      → T.QueryStats
      → Bool
      → Answer T (BootstrapCommand T) BootstrapResult
  step_bootstrap c (err e) merged last = done_with c (err (kad (prefixed "Bootstrap: " e)))
  step_bootstrap c (ok r) merged last =
      if last
      then done_with c
          (ok (record { num_remaining = r.num_remaining; stats = stats_info sw merged }))
      else wait_on c

  unfoldable pub on_event_bootstrap :
      BootstrapCommand T → SwarmEvent T → Answer T (BootstrapCommand T) BootstrapResult
  unfolding step_bootstrap
  on_event_bootstrap c (kad_progressed id (bootstrap_result res) stats last) =
      let merged = merge_stats sw c.stats stats in
      if is_id c.query_id id
      then step_bootstrap (record c { stats = some merged }) res merged last
      else pass_on c (kad_progressed id (bootstrap_result res) stats last)
  on_event_bootstrap c event = pass_on c event

  unfoldable pub run_get_closest_peers :
      GetClosestPeersCommand T → Trace T → Ran T (GetClosestPeersCommand T) GetClosestPeersResult
  run_get_closest_peers c trace = record {
    command = record c { query_id = some (sw.closest_peers_query trace c.key) };
    trace = kad_get_closest_peers c.key ∷ trace;
    finished = none;
  }

  unfoldable pub step_get_closest_peers :
      GetClosestPeersCommand T
      → Result (List PeerId) String
      → T.QueryStats
      → Bool
      → Answer T (GetClosestPeersCommand T) GetClosestPeersResult
  step_get_closest_peers c (err e) merged last =
      done_with c (err (kad (prefixed "GetClosestPeers: " e)))
  step_get_closest_peers c (ok found) merged last =
      let peers = c.peers ++ found in
      if last
      then done_with (record c { peers = [] })
          (ok (record { peers = peers; stats = stats_info sw merged }))
      else wait_on (record c { peers = peers })

  unfoldable pub on_event_get_closest_peers :
      GetClosestPeersCommand T
      → SwarmEvent T
      → Answer T (GetClosestPeersCommand T) GetClosestPeersResult
  unfolding step_get_closest_peers
  on_event_get_closest_peers c (kad_progressed id (closest_peers_result res) stats last) =
      let merged = merge_stats sw c.stats stats in
      if is_id c.query_id id
      then step_get_closest_peers (record c { stats = some merged }) res merged last
      else pass_on c (kad_progressed id (closest_peers_result res) stats last)
  on_event_get_closest_peers c event = pass_on c event

  unfoldable pub run_get_providers :
      GetProvidersCommand T → Trace T → Ran T (GetProvidersCommand T) GetProvidersResult
  run_get_providers c trace = record {
    command = record c { query_id = some (sw.providers_query trace c.key) };
    trace = kad_get_providers c.key ∷ trace;
    finished = none;
  }

  unfoldable pub step_get_providers :
      GetProvidersCommand T
      → Result GetProvidersOk String
      → T.QueryStats
      → Bool
      → Answer T (GetProvidersCommand T) GetProvidersResult
  step_get_providers c (err e) merged last = done_with c (err (kad (prefixed "GetProviders: " e)))
  step_get_providers c (ok res) merged last =
      let providers = c.providers ++ providers_of res in
      if last
      then done_with (record c { providers = [] })
          (ok (record { providers = providers; stats = stats_info sw merged }))
      else wait_on (record c { providers = providers })

  unfoldable pub on_event_get_providers :
      GetProvidersCommand T → SwarmEvent T → Answer T (GetProvidersCommand T) GetProvidersResult
  unfolding step_get_providers
  on_event_get_providers c (kad_progressed id (providers_result res) stats last) =
      let merged = merge_stats sw c.stats stats in
      if is_id c.query_id id
      then step_get_providers (record c { stats = some merged }) res merged last
      else pass_on c (kad_progressed id (providers_result res) stats last)
  on_event_get_providers c event = pass_on c event

  unfoldable pub run_get_record :
      GetRecordCommand T → Trace T → Ran T (GetRecordCommand T) (GetRecordResult T)
  run_get_record c trace = record {
    command = record c { query_id = some (sw.record_query trace c.key) };
    trace = kad_get_record c.key ∷ trace;
    finished = none;
  }

  -- The first record found is kept.
  abbrev pub note_record : Option T.Record → GetRecordOk T → Option T.Record
  note_record (some r) res = some r
  note_record none (found_record r) = some r
  note_record none finished_record = none

  abbrev pub conclude_record : Option T.Record → T.QueryStats → Result (GetRecordResult T) Error
  conclude_record (some r) merged = ok (record { value = r; stats = stats_info sw merged })
  conclude_record none merged = err (kad "Record not found")

  -- An error is reported only if it is the last step and no record has been found.
  unfoldable pub step_get_record :
      GetRecordCommand T
      → Result (GetRecordOk T) String
      → T.QueryStats
      → Bool
      → Answer T (GetRecordCommand T) (GetRecordResult T)
  step_get_record c (err e) merged last =
      if not (is_some c.value) && last
      then done_with c (err (kad (prefixed "GetRecord: " e)))
      else if last
      then done_with (record c { value = none }) (conclude_record c.value merged)
      else wait_on c
  step_get_record c (ok res) merged last =
      let value = note_record c.value res in
      if last
      then done_with (record c { value = none }) (conclude_record value merged)
      else wait_on (record c { value = value })

  unfoldable pub on_event_get_record :
      GetRecordCommand T → SwarmEvent T → Answer T (GetRecordCommand T) (GetRecordResult T)
  unfolding step_get_record
  on_event_get_record c (kad_progressed id (record_result res) stats last) =
      let merged = merge_stats sw c.stats stats in
      if is_id c.query_id id
      then step_get_record (record c { stats = some merged }) res merged last
      else pass_on c (kad_progressed id (record_result res) stats last)
  on_event_get_record c event = pass_on c event
