-- ===== src/Command/KadStreams/Providers.antt =====
-- core/src/command/kad/get_providers.rs: what a whole query comes to.
use swarm_p2p.Prelude.{
  String, ◌≡◌, Option, none, some, List, [], ◌∷◌, ◌++◌, ◌==◌, if◌then◌else◌, prefixed,
}
use swarm_p2p.DataChannel.{PeerId}
use swarm_p2p.Error.{Error, Result, ok, err, kad}
use swarm_p2p.Swarm.{
  Types, Swarm, QueryId, GetProvidersOk, SwarmEvent, kad_progressed, providers_result,
}
use swarm_p2p.Command.{Answer}
use swarm_p2p.Command.Kad.{stats_info, merge_stats}
use swarm_p2p.Command.KadQueries.{
  GetProvidersCommand, GetProvidersResult, providers_of, step_get_providers,
}
use swarm_p2p.Command.KadStreams.{QueryStep}

abbrev pub Step : Types → Type 0
Step T = QueryStep T (Result GetProvidersOk String)

abbrev pub own_step : {T : Types} → QueryId → SwarmEvent T → Option (Step T)
own_step id (kad_progressed i (providers_result res) stats last) =
    if id == i then some (record { result = res; stats = stats; last = last }) else none
own_step id _ = none

module _ {T : Types} (sw : Swarm T) where
  abbrev step : GetProvidersCommand T → Step T → Answer T (GetProvidersCommand T) GetProvidersResult
  step c x =
      let merged = merge_stats sw c.stats x.stats in
      step_get_providers sw (record c { stats = some merged }) x.result merged x.last

  abbrev HasId : QueryId → GetProvidersCommand T → Type 0
  HasId id c = c.query_id ≡ some id

  abbrev pub gather : List (GetProvidersOk × T.QueryStats) → List PeerId
  gather [] = []
  gather ((r, s) ∷ steps) = providers_of r ++ gather steps

  -- What the query ends with, given the providers and the statistics before its final step.
  abbrev pub outcome : List PeerId → Option T.QueryStats → Step T → Result GetProvidersResult Error
  outcome providers stats x = elim x.result [
    | ok r ↦ ok (record {
      providers = providers ++ providers_of r;
      stats = stats_info sw (merge_stats sw stats x.stats);
    })
    | err e ↦ err (kad (prefixed "GetProviders: " e))
  ]
