-- ===== src/Client/Call/Once.antt =====
-- Commands of core/src/command that finish at most once.
use swarm_p2p.Prelude.{◌≡◌, refl, false, none, some, arith}
use swarm_p2p.Error.{Result, Error}
use swarm_p2p.Swarm.{Types, Swarm, Trace, SwarmEvent, kad_progressed, providers_result}
use swarm_p2p.Command.{CommandHandler, default_on_event}
use swarm_p2p.Command.KadQueries.{GetProvidersCommand, on_event_get_providers, run_get_providers}
use swarm_p2p.Command.Active.{get_providers_handler}
use swarm_p2p.Client.Call.Outcome.{Once}

-- A command with the trait's default `on_event` finishes in `run`, if at all.
pub default-Once :
    {T : Types} {C R : Type 0} (h : CommandHandler T C R) (c : C)
    → ((d : C) (event : SwarmEvent T) → h.on_event d event ≡ default_on_event d event)
    → Once h c
default-Once h c same = record {
  Done = λ d. Unit;
  run_done = λ trace r e. tt;
  done_quiet = λ d event o. rw (same d event) refl;
  done_stays = λ d event o. tt;
  event_ends = λ d event r e. rw (same d event) refl;
}

-- A command that `run` never finishes, and that is over with the event that finishes it.
pub asking-Once :
    {T : Types} {C R : Type 0} (h : CommandHandler T C R) (c : C)
    → ((trace : Trace T) → (h.run c trace).finished ≡ none)
    → ((d : C) (event : SwarmEvent T) (r : Result R Error)
        → (h.on_event d event).finished ≡ some r
        → (h.on_event d event).keep ≡ false)
    → Once h c
asking-Once h c unfinished ends = record {
  Done = λ d. ⊥;
  run_done = λ trace r e. cc (unfinished trace);
  done_quiet = λ d event o. absurd o;
  done_stays = λ d event o. o;
  event_ends = ends;
}

module _ {T : Types} (sw : Swarm T) where
  get_providers_ends :
      (d : GetProvidersCommand T) (event : SwarmEvent T) (r : Result _ Error)
      → (on_event_get_providers sw d event).finished ≡ some r
      → (on_event_get_providers sw d event).keep ≡ false
  unfolding on_event_get_providers
  get_providers_ends d (kad_progressed id (providers_result res) stats last) r e = ground arith
  get_providers_ends d _ r e = cc

  pub get_providers-Once : (c : GetProvidersCommand T) → Once (get_providers_handler sw) c
  unfolding run_get_providers
  get_providers-Once c = asking-Once (get_providers_handler sw) c (λ trace. refl) get_providers_ends
