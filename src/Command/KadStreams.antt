-- ===== src/Command/KadStreams.antt =====
-- A command that is offered a sequence of events, as the event loop offers them, and what that
-- sequence comes to for a query of core/src/command/kad: its own steps only.
pub mod Providers
pub mod ClosestPeers
pub mod Records
pub mod Writes
pub mod Provides
pub mod Bootstraps
use swarm_p2p.Prelude.{
  String, true, false, ℕ, ◌≡◌, refl, ◌⊎◌, inl, inr, Bool, true, false, Bool-cases, Option, none,
  some, Option-cases, List, [], ◌∷◌, if◌then◌else◌,
}
use swarm_p2p.Error.{Error, Result, ok, err}
use swarm_p2p.Swarm.{Types, Swarm, SwarmEvent}
use swarm_p2p.Command.Kad.{merge_stats}
use swarm_p2p.Command.{Answer, Ran, pass_on}

-- One answer of the swarm to a query: its result, the statistics, and whether it is the last.
pub record QueryStep (T : Types) (X : Type 0) : Type 0 where
  pub result : X
  pub stats : T.QueryStats
  pub last : Bool

-- What comes of a command that is offered events: the results that it finishes with, in order, and
-- whether it is still active after them.
pub record Fed (R : Type 0) : Type 0 where
  pub finished : List (Result R Error)
  pub active : Bool

-- It finishes once, with this result, and leaves.
abbrev pub ended : {R : Type 0} → Result R Error → Fed R
ended r = record { finished = r ∷ []; active = false }

-- It neither finishes nor leaves.
abbrev pub waits : {R : Type 0} → Fed R
waits = record { finished = []; active = true }

-- An answer, and what comes of the events after it, which a command that has left is not offered.
abbrev pub after : {R : Type 0} → Option (Result R Error) → Bool → Fed R → Fed R
after none true rest = rest
after none false rest = record { finished = []; active = false }
after (some r) true rest = record rest { finished = r ∷ rest.finished }
after (some r) false rest = ended r

unfoldable pub feed : {T : Types} {C R E : Type 0} → (C → E → Answer T C R) → C → List E → Fed R
feed h c [] = waits
feed h c (event ∷ events) =
    after (h c event).finished (h c event).keep (feed h (h c event).command events)

-- A command from its run on.
abbrev pub lifetime :
    {T : Types} {C R E : Type 0} → (C → E → Answer T C R) → Ran T C R → List E → Fed R
lifetime h ran events = after ran.finished true (feed h ran.command events)

abbrev pub with_step : {X : Type 0} → Option X → List X → List X
with_step none xs = xs
with_step (some x) xs = x ∷ xs

abbrev pub own_steps : {E X : Type 0} → (E → Option X) → List E → List X
own_steps view [] = []
own_steps view (event ∷ events) = with_step (view event) (own_steps view events)

module _ {T : Types} {C R X : Type 0} (h : C → SwarmEvent T → Answer T C R)
    (step : C → X → Answer T C R) (view : SwarmEvent T → Option X) (IsOwn : C → Type 0) where
  -- A handler that reacts to the events that `view` knows, and passes on the others as it is.
  pub record Reacts : Type 0 where
    pub own : (c : C) (e : SwarmEvent T) (x : X) → IsOwn c → view e ≡ some x → h c e ≡ step c x
    pub foreign : (c : C) (e : SwarmEvent T) → IsOwn c → view e ≡ none → h c e ≡ pass_on c e
    pub stays : (c : C) (x : X) → IsOwn c → IsOwn (step c x).command

  pub feed-own_steps :
      Reacts
      → (events : List (SwarmEvent T)) (c : C) → IsOwn c
      → feed h c events ≡ feed step c (own_steps view events)
  unfolding feed
  feed-own_steps r [] c o = refl
  feed-own_steps r (e ∷ events) c o = elim (Option-cases (view e)) [
    | inl f ↦ rw (f, r.foreign c e o f) (feed-own_steps r events c o)
    | inr (x, f) ↦
        rw (f, r.own c e x o f, feed-own_steps r events (step c x).command (r.stays c x o))
  ]

-- The statistics of a query after some of its steps.
abbrev pub merge_all :
    {T : Types} {X : Type 0}
    → Swarm T
    → Option T.QueryStats
    → List (X × T.QueryStats)
    → Option T.QueryStats
merge_all sw stats [] = stats
merge_all sw stats ((r, s) ∷ steps) = merge_all sw (some (merge_stats sw stats s)) steps

-- A step that succeeds and is not the last.
abbrev pub progress : {T : Types} {X : Type 0} → X × T.QueryStats → QueryStep T (Result X String)
progress (r, s) = record { result = ok r; stats = s; last = false }

-- Whether a step ends its query: the last one does, and so does an error.
abbrev pub ends : {T : Types} {X : Type 0} → QueryStep T (Result X String) → Bool
ends x = elim x.result [ ok r ↦ x.last | err e ↦ true ]
