-- ===== src/PendingMap/Cleaner.antt =====
-- core/src/pending_map.rs: the task that `with_cleanup_interval` spawns, beside the users of the map.
-- Time is given by the moments at which something happens. tokio's interval is due at once, and then
-- every `interval`, also after a late tick; `lag` bounds how late the runtime lets a tick run.
use swarm_p2p.Prelude.{
  ℕ, ◌+◌, ◌-◌, ◌≤◌, ◌<◌, ◌≡◌, refl, ◌∙◌, sym, Bool-cases, inl, inr, Option, none, some, arith, ltb,
  ◌==◌,
}
use swarm_p2p.Prelude.Map.{IsMap, get}
use swarm_p2p.PendingMap.{
  PendingEntry, PendingMap, new_pending, insert_pending, take_pending, purge_expired,
  purge_expired_entries,
}
use swarm_p2p.PendingMap.Laws.{
  entry_at, if_fresh, insert_pending-effect, take_pending-effect, purge_expired-effect,
}

-- One turn of the cleaner's loop.
unfoldable pub clean : {V : Type 0} → ℕ → PendingMap V → PendingMap V
unfolding purge_expired_entries
clean now m = record m { inner = (purge_expired_entries m.ttl now m.inner).1 }

pub record Running (V : Type 0) : Type 0 where
  pub now : ℕ
  pub due : ℕ
  pub map : PendingMap V

pub data Timeline {V : Type 0} (ttl interval lag : ℕ) : Running V → Type 0 where
  with_cleanup_interval :
      (now : ℕ) → Timeline ttl interval lag (record { now = now; due = now; map = new_pending ttl })
  waits :
      {s : Running V} (now : ℕ)
      → Timeline ttl interval lag s
      → s.now ≤ now
      → now ≤ s.due + lag
      → Timeline ttl interval lag (record s { now = now })
  ticks :
      {s : Running V}
      → Timeline ttl interval lag s
      → s.due ≤ s.now
      → Timeline ttl interval lag (record s { due = s.due + interval; map = clean s.now s.map })
  inserts :
      {s : Running V} (key : ℕ) (v : V)
      → Timeline ttl interval lag s
      → Timeline ttl interval lag (record s { map = insert_pending s.now key v s.map })
  takes :
      {s : Running V} (key : ℕ)
      → Timeline ttl interval lag s
      → Timeline ttl interval lag (record s { map = (take_pending key s.map).1 })
  purges :
      {s : Running V}
      → Timeline ttl interval lag s
      → Timeline ttl interval lag (record s { map = (purge_expired s.now s.map).1 })

-- The cleaner's turn does what a call of `purge_expired` does.
pub clean_lem : {V : Type 0} (now : ℕ) (m : PendingMap V) → clean now m ≡ (purge_expired now m).1
unfolding clean purge_expired
clean_lem now m = refl

module _ {V : Type 0} where
  ttl-insert_pending :
      (now key : ℕ) (v : V) (m : PendingMap V) → (insert_pending now key v m).ttl ≡ m.ttl
  unfolding insert_pending
  ttl-insert_pending now key v m = refl

  ttl-take_pending : (key : ℕ) (m : PendingMap V) → (take_pending key m).1.ttl ≡ m.ttl
  unfolding take_pending
  ttl-take_pending key m = refl

  ttl-purge_expired : (now : ℕ) (m : PendingMap V) → (purge_expired now m).1.ttl ≡ m.ttl
  unfolding purge_expired
  ttl-purge_expired now m = refl

-- What an entry that is still there after an operation was before.
fresh_entry :
    {V : Type 0} (ttl now : ℕ) (found : Option (PendingEntry V)) (e : PendingEntry V)
    → if_fresh ttl now found ≡ some e
    → (found ≡ some e) × (now - e.created_at < ttl)
fresh_entry ttl now none e h = cc
fresh_entry ttl now (some x) e h = elim (Bool-cases (ltb (now - x.created_at) ttl)) [
  | inl fresh ↦ ground arith
  | inr stale ↦ ground arith
]

module _ {V : Type 0} (ttl interval lag : ℕ) where
  record Held (s : Running V) : Type 0 where
    unique : IsMap s.map.inner
    same_ttl : s.map.ttl ≡ ttl
    due_near : s.due ≤ s.now + interval
    on_time : s.now ≤ s.due + lag
    entries :
        (key : ℕ) (e : PendingEntry V)
        → entry_at s.map key ≡ some e
        → s.due ≤ e.created_at + ttl + interval

  Timeline-Held : {s : Running V} → Timeline ttl interval lag s → Held s
  unfolding get
  Timeline-Held (with_cleanup_interval now) = record {
    unique = tt;
    same_ttl = refl;
    due_near = omega arith;
    on_time = omega arith;
    entries = λ key e h. cc;
  }
  Timeline-Held (waits now h later prompt) =
      let v = Timeline-Held h in
      record {
        unique = v.unique;
        same_ttl = v.same_ttl;
        due_near = omega arith;
        on_time = prompt;
        entries = v.entries;
      }
  Timeline-Held (inserts {s} key x h) =
      let v = Timeline-Held h in
      let (u, found) = insert_pending-effect s.map v.unique s.now key x in
      record {
        unique = u;
        same_ttl = ttl-insert_pending s.now key x s.map ∙ v.same_ttl;
        due_near = v.due_near;
        on_time = v.on_time;
        entries = λ j e there. elim (Bool-cases (key == j)) [
          | inl own ↦ ground (arith, found j, v.due_near)
          | inr other ↦ v.entries j e (ground (arith, found j))
        ];
      }
  Timeline-Held (takes {s} key h) =
      let v = Timeline-Held h in
      let (o, u, found) = take_pending-effect s.map v.unique key in
      record {
        unique = u;
        same_ttl = ttl-take_pending key s.map ∙ v.same_ttl;
        due_near = v.due_near;
        on_time = v.on_time;
        entries = λ j e there. v.entries j e (ground (arith, found j));
      }
  Timeline-Held (purges {s} h) =
      let v = Timeline-Held h in
      let (u, found) = purge_expired-effect s.map v.unique s.now in
      record {
        unique = u;
        same_ttl = ttl-purge_expired s.now s.map ∙ v.same_ttl;
        due_near = v.due_near;
        on_time = v.on_time;
        entries = λ j e there.
            v.entries j e
              (fresh_entry s.map.ttl s.now (entry_at s.map j) e (sym (found j) ∙ there)).0;
      }
  Timeline-Held (ticks {s} h reached) =
      let v = Timeline-Held h in
      let (u, found) = purge_expired-effect s.map v.unique s.now in
      record {
        unique = rw clean_lem u;
        same_ttl = rw clean_lem (ttl-purge_expired s.now s.map ∙ v.same_ttl);
        due_near = omega arith;
        on_time = omega arith;
        entries = λ j e there.
            let (held, young) =
              fresh_entry s.map.ttl s.now (entry_at s.map j) e
                (sym (found j) ∙ rw clean_lem at there) in
            omega (arith, v.same_ttl, young);
      }

  -- At every moment at which the cleaner is at most `lag` late, whatever was inserted, taken and
  -- purged before it, no entry in the map is older than the time to live, the cleanup interval and
  -- `lag` together.
  pub Timeline-age :
      {s : Running V}
      → Timeline ttl interval lag s
      → (key : ℕ) (e : PendingEntry V) → entry_at s.map key ≡ some e
      → s.now ≤ e.created_at + ttl + interval + lag
  Timeline-age h key e there =
      let v = Timeline-Held h in omega (arith, v.on_time, v.entries key e there)
