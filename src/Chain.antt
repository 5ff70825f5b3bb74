-- ===== src/Chain.antt =====
-- core/src/runtime/event_loop.rs, the loop of `handle_swarm_event`: an event goes through the
-- active commands until one consumes it, and commands that are done leave by `swap_remove`.
pub mod Lists
pub mod Delivery
use swarm_p2p.Prelude.{
  ℕ, zero, suc, ◌+◌, Bool, Option, none, some, List, [], ◌∷◌, length, if◌then◌else◌,
}
use Lists.{get_elem?, set, swap_remove}

-- What a command makes of an event: its new state, whether it stays, and the event if handed on.
abbrev pub OnEvent : Type 0 → Type 0 → Type 0
OnEvent C E = C → E → C × Bool × Option E

module _ {C E : Type 0} (on_event : OnEvent C E) where
  -- The commands and the position after one turn of the loop.
  abbrev pub advance : Bool → ℕ → C → List C → ℕ × List C
  advance keep i c active = if keep then (i + 1, set active i c) else (i, swap_remove i active)

  -- The next turn, unless the event has been consumed.
  abbrev pub go_on :
      (ℕ → List C → E → List C × Option E) → ℕ × List C → Option E → List C × Option E
  go_on again (i, active) none = (active, none)
  go_on again (i, active) (some event) = again i active event

  abbrev pub offer :
      (ℕ → List C → E → List C × Option E) → ℕ → List C → E → Option C → List C × Option E
  offer again i active event none = (active, some event)
  offer again i active event (some c) =
      let (c', keep, remaining) = on_event c event in
      go_on again (advance keep i c' active) remaining

  -- `while i < active_commands.len()`, with fuel.
  unfoldable pub chain_loop : ℕ → ℕ → List C → E → List C × Option E
  chain_loop zero i active event = (active, some event)
  chain_loop (suc fuel) i active event =
      offer (λ i' active' event'. chain_loop fuel i' active' event') i active event
        (get_elem? active i)

  -- Each turn looks at a command that no earlier turn has looked at.
  unfoldable pub chain : List C → E → List C × Option E
  unfolding chain_loop
  chain active event = chain_loop (length active) 0 active event
