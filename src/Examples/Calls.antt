-- ===== src/Examples/Calls.antt =====
-- The theorem on whole calls of core/src/client at a concrete input, and what it says of some methods.
use swarm_p2p.Prelude.{◌≡◌, refl, true, false, some, [], ◌∷◌, ◌++◌, List}
use swarm_p2p.Error.{ok}
use swarm_p2p.DataChannel.Registry.{new_registry}
use swarm_p2p.PendingMap.{new_pending}
use swarm_p2p.Swarm.{kad_progressed, providers_result, found_providers, finished_providers}
use swarm_p2p.Command.KadQueries.{new_get_providers, run_get_providers, on_event_get_providers}
use swarm_p2p.Command.Kad.{stats_info, merge_stats}
use swarm_p2p.Command.Active.{get_providers_handler}
use swarm_p2p.Command.Active.Queue.{getting_providers}
use swarm_p2p.Client.Net.{NetClient, get_providers}
use swarm_p2p.Client.Call.{Moment, polled, taken, offered, queued, new_call, await_call}
use swarm_p2p.Client.Call.Outcome.{first_finish, call-first_finish}
use swarm_p2p.Client.Call.Once.{get_providers-Once}
use swarm_p2p.Examples.{types, network}

abbrev client : NetClient types
client = record {
  command_tx = record { queue = []; capacity = 32; closed = false };
  pending_channels = new_pending 97;
  dc_registry = new_registry;
  dc_open_timeout = 30;
}

-- The loop runs the command, and offers it an event of another query, one that finds a provider, and
-- the last one; the caller's task polls once between these.
abbrev moments : List (Moment types)
moments =
    taken []
    ∷ offered (kad_progressed 9 (providers_result (ok (found_providers (1 ∷ [])))) 2 true)
    ∷ offered (kad_progressed 5 (providers_result (ok (found_providers (3 ∷ [])))) 2 false)
    ∷ polled 1
    ∷ offered (kad_progressed 5 (providers_result (ok (finished_providers []))) 4 true)
    ∷ []

-- The call is what the client's method starts with.
method_call :
    get_providers client 6
    ≡ (new_call
        (get_providers_handler network)
        getting_providers
        (new_get_providers 6)
        client.command_tx).future
method_call = refl

finished_call :
    first_finish (get_providers_handler network) (queued (new_get_providers 6)) moments
    ≡ some (ok (record { providers = 3 ∷ []; stats = stats_info network 6 }))
unfolding first_finish run_get_providers on_event_get_providers merge_stats
finished_call = refl

call-first_finish_example :
    (await_call
      (get_providers_handler network)
      getting_providers
      (new_call
        (get_providers_handler network)
        getting_providers
        (new_get_providers 6)
        client.command_tx)
      (polled 1 ∷ moments ++ polled 2 ∷ [])).0
    ≡ first_finish (get_providers_handler network) (queued (new_get_providers 6)) moments
call-first_finish_example =
    call-first_finish (get_providers_handler network) getting_providers
      (get_providers-Once network (new_get_providers 6)) client.command_tx 1 2 moments
