-- ===== src/Examples/Queries.antt =====
-- The theorems on the queries of core/src/command/kad at concrete inputs: each query with the id 5
-- is offered a foreign event, a step that is not the last, and the last step.
use swarm_p2p.Prelude.{◌≡◌, refl, some, true, false, [], ◌∷◌, List, ℕ}
use swarm_p2p.Error.{ok, err, kad}
use swarm_p2p.Swarm.{
  SwarmEvent, kad_progressed, bootstrap_result, closest_peers_result, providers_result,
  record_result, put_record_result, start_providing_result, found_providers, finished_providers,
  found_record, finished_record, other_event, QueryStatsInfo, response_message,
  connection_established,
}
use swarm_p2p.Command.Kad.{
  stats_info, merge_stats, run_put_record, on_event_put_record, new_put_record, run_start_provide,
  on_event_start_provide, new_start_provide,
}
use swarm_p2p.Command.KadQueries.{
  run_bootstrap, on_event_bootstrap, new_bootstrap, run_get_closest_peers,
  on_event_get_closest_peers, new_get_closest_peers, run_get_record, on_event_get_record,
  new_get_record,
}
use swarm_p2p.Command.KadStreams.{ended, lifetime}
use swarm_p2p.Command.KadStreams.ClosestPeers.{get_closest_peers-outcome}
use swarm_p2p.Command.KadStreams.Records.{get_record-outcome}
use swarm_p2p.Command.KadStreams.Writes.{put_record-outcome}
use swarm_p2p.Command.KadStreams.Provides.{start_provide-outcome}
use swarm_p2p.Command.KadStreams.Bootstraps.{bootstrap-outcome}
use swarm_p2p.Command.ReqResp.{new_send_request, run_send_request, on_event_send_request}
use swarm_p2p.Command.ReqResp.Matching.{send_request-first_reply}
use swarm_p2p.Command.Active.Queue.{Active, dialing, getting_record, on_event_active}
use swarm_p2p.Command.Active.Queue.Offers.{active-Delivered}
use swarm_p2p.Command.Listing.{
  get_listen_addrs, run_get_listen_addrs, Lists, run_get_listen_addrs-Lists,
}
use swarm_p2p.Swarm.Addr.{Multiaddr}
use swarm_p2p.Examples.AddrOrder.{addr_le-IsOrder}
use swarm_p2p.Chain.{chain}
use swarm_p2p.Chain.Delivery.{Delivered}
use swarm_p2p.Handle.{new_handle}
use swarm_p2p.Examples.{types, network}

abbrev info : ℕ → QueryStatsInfo
info n = record { duration = some n; num_requests = n; num_successes = n; num_failures = 0 }

abbrev provider_events : List (SwarmEvent types)
provider_events =
    kad_progressed 4 (providers_result (err "foreign")) 1 true
    ∷ kad_progressed 5 (providers_result (ok (found_providers (7 ∷ [])))) 2 false
    ∷ kad_progressed 5 (providers_result (ok (finished_providers []))) 3 true
    ∷ []

abbrev closest_events : List (SwarmEvent types)
closest_events =
    other_event 1
    ∷ kad_progressed 5 (closest_peers_result (ok (7 ∷ []))) 2 false
    ∷ kad_progressed 5 (closest_peers_result (ok (8 ∷ []))) 3 true
    ∷ []

get_closest_peers-outcome_example :
    lifetime
      (on_event_get_closest_peers network)
      (run_get_closest_peers network (new_get_closest_peers 6) [])
      closest_events
    ≡ ended (ok (record { peers = 7 ∷ 8 ∷ []; stats = info 5 }))
unfolding stats_info merge_stats
get_closest_peers-outcome_example =
    get_closest_peers-outcome network 6 [] closest_events ((7 ∷ [], 2) ∷ [])
      (record { result = ok (8 ∷ []); stats = 3; last = true }) [] refl refl

-- The first step fails, the second finds a record.
abbrev record_events : List (SwarmEvent types)
record_events =
    kad_progressed 5 (record_result (err "quorum")) 1 false
    ∷ kad_progressed 5 (record_result (ok (found_record 40))) 1 false
    ∷ kad_progressed 5 (record_result (ok finished_record)) 3 true
    ∷ []

get_record-outcome_example :
    lifetime
      (on_event_get_record network)
      (run_get_record network (new_get_record 6) [])
      record_events
    ≡ ended (ok (record { value = 40; stats = info 5 }))
unfolding stats_info merge_stats
get_record-outcome_example =
    get_record-outcome network 6 [] record_events
      ((err "quorum", 1) ∷ (ok (found_record 40), 1) ∷ []) (ok finished_record) 3 [] refl

abbrev put_events : List (SwarmEvent types)
put_events =
    kad_progressed 5 (put_record_result (err "early")) 1 false
    ∷ kad_progressed 5 (put_record_result (ok tt)) 3 true
    ∷ []

put_record-outcome_example :
    lifetime (on_event_put_record network) (run_put_record network (new_put_record 6) []) put_events
    ≡ ended (ok (info 4))
unfolding stats_info merge_stats
put_record-outcome_example =
    put_record-outcome network 6 [] 5 put_events ((err "early", 1) ∷ []) (ok tt) 3 [] refl refl

abbrev provide_events : List (SwarmEvent types)
provide_events =
    kad_progressed 5 (start_providing_result (ok tt)) 1 false
    ∷ kad_progressed 5 (start_providing_result (err "timeout")) 3 true
    ∷ []

start_provide-outcome_example :
    lifetime
      (on_event_start_provide network)
      (run_start_provide network (new_start_provide 6) [])
      provide_events
    ≡ ended (err (kad "Provide: timeout"))
unfolding stats_info merge_stats
start_provide-outcome_example =
    start_provide-outcome network 6 [] 5 provide_events ((ok tt, 1) ∷ []) (err "timeout") 3 [] refl
      refl

abbrev bootstrap_events : List (SwarmEvent types)
bootstrap_events =
    kad_progressed 5 (bootstrap_result (ok (record { peer = 1; num_remaining = 2 }))) 1 false
    ∷ kad_progressed 5 (bootstrap_result (ok (record { peer = 1; num_remaining = 0 }))) 3 true
    ∷ []

bootstrap-outcome_example :
    lifetime (on_event_bootstrap network) (run_bootstrap network new_bootstrap []) bootstrap_events
    ≡ ended (ok (record { num_remaining = 0; stats = info 4 }))
unfolding stats_info merge_stats
bootstrap-outcome_example =
    bootstrap-outcome network [] bootstrap_events 5
      ((record { peer = 1; num_remaining = 2 }, 1) ∷ [])
      (record { result = ok (record { peer = 1; num_remaining = 0 }); stats = 3; last = true }) []
      refl refl refl

-- A response of another peer under the same id, and then the request's own.
abbrev reply_events : List (SwarmEvent types)
reply_events = response_message 8 3 70 ∷ response_message 7 3 80 ∷ []

send_request-first_reply_example :
    lifetime on_event_send_request
      (run_send_request network (new_send_request {T = types} 7 1) [])
      reply_events
    ≡ ended (ok 80)
send_request-first_reply_example = send_request-first_reply network 7 1 [] reply_events

-- A dial of peer 7 and a query, and a connection to peer 7.
abbrev active : List (Active types)
active =
    dialing (record { handler = record { peer_id = 7 }; handle = new_handle })
    ∷ getting_record (record { handler = new_get_record 6; handle = new_handle })
    ∷ []

active-Delivered_example :
    Delivered
      (on_event_active network)
      (connection_established 7 1)
      active
      (chain (on_event_active network) active (connection_established 7 1)).0
      (chain (on_event_active network) active (connection_established 7 1)).1
active-Delivered_example = active-Delivered network (connection_established 7 1) active

run_get_listen_addrs-Lists_example :
    (addrs : List Multiaddr) × ((run_get_listen_addrs network get_listen_addrs []).finished
      ≡ some (ok addrs))
    × ((run_get_listen_addrs network get_listen_addrs []).trace ≡ [])
    × Lists network [] addrs
run_get_listen_addrs-Lists_example =
    run_get_listen_addrs-Lists network addr_le-IsOrder get_listen_addrs []
