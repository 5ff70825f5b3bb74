-- ===== src/Node/Ends.antt =====
-- How a whole start of core/src/runtime/node.rs ends, from the builder of the swarm on.
use swarm_p2p.Prelude.{ℕ, ◌≡◌, refl, [], String}
use swarm_p2p.Error.{Error, Result, ok, err}
use swarm_p2p.Config.{NodeConfig}
use swarm_p2p.Swarm.{Types, Swarm, Trace}
use swarm_p2p.EventLoop.{EventLoop}
use swarm_p2p.Config.Build.{plan_behaviour}
use swarm_p2p.Node.{
  start_node, SwarmBuilder, StartError, not_built, not_started, and_build, build_swarm, wrapped,
  after_built, start,
}
use swarm_p2p.Node.Started.{Started, start_node-Started}

module _ {T : Types} (b : SwarmBuilder T) (config : NodeConfig) where
  -- The first step of the builder that fails, and none.
  pub data Unbuilt : String → Type 0 where
    no_tcp : (e : String) → b.with_tcp ≡ err e → Unbuilt e
    no_dns : (e : String) → b.with_tcp ≡ ok tt → b.with_dns ≡ err e → Unbuilt e
    no_relay :
        (e : String)
        → b.with_tcp ≡ ok tt
        → b.with_dns ≡ ok tt
        → b.with_relay_client ≡ err e
        → Unbuilt e
    no_behaviour :
        (e : String)
        → b.with_tcp ≡ ok tt
        → b.with_dns ≡ ok tt
        → b.with_relay_client ≡ ok tt
        → b.with_behaviour (plan_behaviour config) ≡ err e
        → Unbuilt e

  abbrev pub Built : Type 0
  Built =
      (b.with_tcp ≡ ok tt)
      × (b.with_dns ≡ ok tt)
      × (b.with_relay_client ≡ ok tt)
      × (b.with_behaviour (plan_behaviour config) ≡ ok tt)

  abbrev pub the_swarm : Swarm T
  the_swarm = b.build (plan_behaviour config) config.idle_connection_timeout

  -- The swarm is the one built, or a step of the builder failed.
  abbrev BuildsIt : Result (Swarm T) String → Type 0
  BuildsIt (ok sw) = Built × (sw ≡ the_swarm)
  BuildsIt (err e) = Unbuilt e

  step-BuildsIt :
      (answer : Result (Unit {0}) String) (next : Result (Swarm T) String)
      → ((e : String) → answer ≡ err e → Unbuilt e)
      → (answer ≡ ok tt → BuildsIt next)
      → BuildsIt (and_build answer next)
  step-BuildsIt (ok u) next why h = h refl
  step-BuildsIt (err e) next why h = why e refl

  build_swarm-BuildsIt : BuildsIt (build_swarm b config)
  unfolding build_swarm
  build_swarm-BuildsIt = step-BuildsIt b.with_tcp _ no_tcp (λ tcp.
      step-BuildsIt b.with_dns _ (λ e h. no_dns e tcp h)
        (λ dns.
          step-BuildsIt b.with_relay_client _ (λ e h. no_relay e tcp dns h)
            (λ relay.
              step-BuildsIt (b.with_behaviour (plan_behaviour config)) _
                (λ e h. no_behaviour e tcp dns relay h)
                (λ behaviour. ((tcp, dns, relay, behaviour), refl)))))

  module _ {C : Type 0} where
    -- What a whole start ends with.
    abbrev pub StartEnds : Trace T × Result (EventLoop T C) StartError → Type 0
    StartEnds (trace, err (not_built e)) = (trace ≡ []) × Unbuilt e
    StartEnds (trace, err (not_started e)) = Built × Started the_swarm {C = C} config (trace, err e)
    StartEnds (trace, ok s) = Built × Started the_swarm config (trace, ok s)

  module _ (C : Type 0) where
    wrapped-StartEnds :
        (r : Trace T × Result (EventLoop T C) Error)
        → Built
        → Started the_swarm config r
        → StartEnds (wrapped r)
    wrapped-StartEnds (trace, ok s) built h = (built, h)
    wrapped-StartEnds (trace, err e) built h = (built, h)

    after_built-StartEnds :
        (next_id : ℕ) (r : Result (Swarm T) String)
        → BuildsIt r
        → StartEnds (after_built {C = C} config next_id r)
    after_built-StartEnds next_id (err e) h = (refl, h)
    after_built-StartEnds next_id (ok sw) (built, same) = rw same (
        wrapped-StartEnds (start_node the_swarm config next_id) built
          (start_node-Started the_swarm C config next_id))

    -- A start either fails with the error of the first step of the swarm's builder that fails, and has
    -- made no call; or all these steps succeed, and it fails with a listen error that tells why the
    -- swarm refused a configured address, the first that it refused and the last that it was asked to
    -- listen on, and has dialled no peer; or it succeeds. Then the swarm has accepted each configured
    -- address, there are as many calls to listen as configured addresses, each peer has been dialled
    -- as often as it stands among the bootstrap peers, and the event loop holds as many addresses for
    -- relay reservations as there are bootstrap entries if the relay client is enabled, and none
    -- otherwise.
    pub start-StartEnds : (next_id : ℕ) → StartEnds (start {C = C} b config next_id)
    unfolding start
    start-StartEnds next_id =
        after_built-StartEnds next_id (build_swarm b config) build_swarm-BuildsIt
