-- ===== src/Examples/Quota.antt =====
-- The theorems on the quota of core/src/data_channel.rs at concrete inputs.
use swarm_p2p.Prelude.{refl, some, [], ◌∷◌, ◌≡◌}
use swarm_p2p.DataChannel.{inbound}
use swarm_p2p.DataChannel.Registry.{try_acquire, drop_guard, increment}
use swarm_p2p.Prelude.{word_add}
use swarm_p2p.Prelude.Map.{get, insert}
use swarm_p2p.DataChannel.Quota.{Acquires, guard_of, try_acquire-Acquires}
use swarm_p2p.DataChannel.Bounds.{
  Live, Action, acquire, run, step, IsSound, run-IsSound, drop-then-acquire,
}
use swarm_p2p.DataChannel.Open.{OpenState, init, Shared, waiting, elapsed}
use swarm_p2p.DataChannel.OpenQuota.{drive, Settles, drive-Settles}
use swarm_p2p.Prelude.{List}
use swarm_p2p.Examples.{limits, limits-IsUsize}

-- One request.
abbrev one : List Action
one = acquire 7 1 inbound ∷ []

-- What `one` comes to.
abbrev busy : Live
busy = record {
  inner = record {
    inbound_per_peer = (7, 1) ∷ [];
    outbound_per_peer = [];
    per_protocol = (1, 1) ∷ [];
  };
  guards = guard_of 7 1 inbound ∷ [];
}

busy-IsSound : IsSound limits busy
unfolding run step try_acquire increment word_add insert get
busy-IsSound = run-IsSound limits one limits-IsUsize

try_acquire-Acquires_example :
    Acquires limits
      (guard_of 7 1 inbound ∷ [])
      busy.inner
      7
      2
      inbound
      (try_acquire limits busy.inner 7 2 inbound)
try_acquire-Acquires_example = try_acquire-Acquires limits-IsUsize busy-IsSound.backs 7 2 inbound

drop-then-acquire_example :
    (try_acquire limits (drop_guard busy.inner (guard_of 7 1 inbound)) 7 1 inbound).1
    ≡ some (guard_of 7 1 inbound)
drop-then-acquire_example =
    drop-then-acquire limits busy 0 (guard_of 7 1 inbound) [] limits-IsUsize busy-IsSound refl

abbrev opening : OpenState
opening = init (record { peer_id = 7; protocol = 1; open_timeout = 30 })

abbrev shared : Shared
shared = record { inner = busy.inner; next_id = 0 }

drive-Settles_example :
    Settles (guard_of 7 1 inbound ∷ []) (drive limits opening (waiting ∷ elapsed ∷ []) shared)
drive-Settles_example =
    drive-Settles limits (guard_of 7 1 inbound ∷ []) (waiting ∷ elapsed ∷ []) opening shared
      limits-IsUsize busy-IsSound.backs
