-- ===== src/Examples/Pending.antt =====
-- The theorems on core/src/pending_map.rs at concrete inputs.
use swarm_p2p.Prelude.{
  ℕ, ◌≡◌, refl, none, some, [], ◌∷◌, List, arith, tally, ◌+◌, ◌≤◌, ◌&&◌, not, Bool,
}
use swarm_p2p.PendingMap.{
  PendingEntry, PendingMap, new_pending, insert_pending, take_pending, purge_expired, len_pending,
  purge_expired_entries,
}
use swarm_p2p.PendingMap.Cleaner.{
  Timeline, with_cleanup_interval, waits, ticks, inserts, clean, Timeline-age,
}
use swarm_p2p.Prelude.Map.{get, insert}
use swarm_p2p.PendingMap.Laws.{is_stale, purge_expired-count}
use swarm_p2p.PendingMap.History.{
  Op, put, take, purge, run, spec_run, Refines, run-Refines, take-put,
}

abbrev ops : List (Op ℕ)
ops = put 0 1 10 ∷ put 5 2 20 ∷ purge 100 ∷ take 1 ∷ take 2 ∷ []

run-Refines_example :
    ((run (new_pending 97) ops).0 ≡ (spec_run 97 (λ key. none) ops).0)
    × Refines 97 (run (new_pending 97) ops).1 (spec_run 97 (λ key. none) ops).1
run-Refines_example = run-Refines 97 ops

abbrev spared : List (Op ℕ)
spared = put 6 2 20 ∷ purge 100 ∷ take 2 ∷ []

take-put_example :
    (take_pending 3 (run (insert_pending 5 3 30 (run (new_pending 97) ops).1) spared).1).0 ≡ some 30
take-put_example = take-put 97 ops spared 5 3 30 (refl, (omega arith, (refl, tt)))

-- At 100, the first entry is stale and the second is not.
abbrev held : PendingMap ℕ
held = record {
  inner =
      (1, record { value = 10; created_at = 0 }) ∷ (2, record { value = 20; created_at = 50 }) ∷ [];
  ttl = 97;
}

purge_expired-count_example :
    ((purge_expired 100 held).0 ≡ 1)
    × ((purge_expired 100 held).0 + len_pending (purge_expired 100 held).1 ≡ 2)
    × (tally (is_stale 97 100) (purge_expired 100 held).1.inner ≡ 0)
    × ((p : ℕ × PendingEntry ℕ → Bool)
        → tally p (purge_expired 100 held).1.inner
          ≡ tally (λ x. p x && not (is_stale 97 100 x)) held.inner)
purge_expired-count_example = purge_expired-count 100 held

abbrev aged : PendingMap ℕ
aged = record { inner = (1, record { value = 30; created_at = 0 }) ∷ []; ttl = 5 }

-- A cleaner every 10 with a lag of 1 and a time to live of 5: an entry of time 0 is still there at 11,
-- when the second tick is late.
timeline : Timeline {V = ℕ} 5 10 1 (record { now = 11; due = 10; map = aged })
unfolding insert_pending clean purge_expired_entries insert
timeline =
    waits 11 (inserts 1 30 (ticks (with_cleanup_interval 0) (omega arith))) (omega arith)
      (omega arith)

Timeline-age_example : 11 ≤ 0 + 5 + 10 + 1
unfolding get
Timeline-age_example = Timeline-age 5 10 1 timeline 1 (record { value = 30; created_at = 0 }) refl
