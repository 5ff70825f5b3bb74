-- ===== src/PendingMap/History.antt =====
-- Histories of the map of core/src/pending_map.rs: the event loop inserts, clients take, and the
-- cleaner task purges, in any order.
use swarm_p2p.Prelude.{
  ℕ, ◌-◌, ◌<◌, ◌≡◌, refl, ◌∙◌, ap, false, Option, none, some, List, [], ◌∷◌, arith, ◌==◌, ==-self,
  if◌then◌else◌,
}
use swarm_p2p.Prelude.Map.{IsMap, get}
use swarm_p2p.PendingMap.{
  PendingEntry, PendingMap, new_pending, insert_pending, take_pending, purge_expired,
}
use swarm_p2p.PendingMap.Laws.{
  entry_at, if_fresh, insert_pending-effect, take_pending-effect, purge_expired-effect,
}
use mathlib.Core.Option

pub data Op {ℓ} (V : Type ℓ) : Type ℓ where
  put : ℕ → ℕ → V → Op V
  take : ℕ → Op V
  purge : ℕ → Op V

-- The specification: one optional entry for each key.
abbrev pub Spec {ℓ} : Type ℓ → Type ℓ
Spec V = ℕ → Option (PendingEntry V)

module _ {ℓ} {V : Type ℓ} where
  pub step : PendingMap V → Op V → Option V × PendingMap V
  step m (put now key v) = (none, insert_pending now key v m)
  step m (take key) = take_pending key m
  step m (purge now) = (none, (purge_expired now m).1)

  -- The values that the takes return, in order, and the last state.
  pub run : PendingMap V → List (Op V) → List (Option V) × PendingMap V
  run m [] = ([], m)
  run m (op ∷ ops) = let (out, m') = step m op in let (outs, m'') = run m' ops in (out ∷ outs, m'')

  abbrev pub spec_step : ℕ → Spec V → Op V → Option V × Spec V
  spec_step ttl s (put now key v) =
      (none, λ j. if key == j then some (record { value = v; created_at = now }) else s j)
  spec_step ttl s (take key) =
      (Option.map (λ e. e.value) (s key), λ j. if key == j then none else s j)
  spec_step ttl s (purge now) = (none, λ j. if_fresh ttl now (s j))

  pub spec_run : ℕ → Spec V → List (Op V) → List (Option V) × Spec V
  spec_run ttl s [] = ([], s)
  spec_run ttl s (op ∷ ops) =
      let (out, s') = spec_step ttl s op in
      let (outs, s'') = spec_run ttl s' ops in (out ∷ outs, s'')

  pub record Refines (ttl : ℕ) (m : PendingMap V) (s : Spec V) : Type ℓ where
    pub unique : IsMap m.inner
    pub same_ttl : m.ttl ≡ ttl
    pub entries : (key : ℕ) → entry_at m key ≡ s key

  step-Refines :
      (ttl : ℕ) (m : PendingMap V) (s : Spec V) (op : Op V)
      → Refines ttl m s
      → ((step m op).0 ≡ (spec_step ttl s op).0) × Refines ttl (step m op).1 (spec_step ttl s op).1
  unfolding step
  step-Refines ttl m s (put now key v) r =
      let (u, e) = insert_pending-effect m r.unique now key v in
      (
        refl,
        record {
          unique = u;
          same_ttl = unfold insert_pending in r.same_ttl;
          entries = λ j. ground (arith, e j, r.entries j);
        },
      )
  step-Refines ttl m s (take key) r =
      let (o, u, e) = take_pending-effect m r.unique key in
      (
        rw (o, r.entries key),
        record {
          unique = u;
          same_ttl = unfold take_pending in r.same_ttl;
          entries = λ j. ground (arith, e j, r.entries j);
        },
      )
  step-Refines ttl m s (purge now) r =
      let (u, e) = purge_expired-effect m r.unique now in
      (
        refl,
        record {
          unique = u;
          same_ttl = unfold purge_expired in r.same_ttl;
          entries = λ j. rw (e j, r.entries j, r.same_ttl);
        },
      )

  run-Refines_from :
      (ttl : ℕ) (ops : List (Op V)) (m : PendingMap V) (s : Spec V)
      → Refines ttl m s
      → ((run m ops).0 ≡ (spec_run ttl s ops).0) × Refines ttl (run m ops).1 (spec_run ttl s ops).1
  unfolding run spec_run
  run-Refines_from ttl [] m s r = (refl, r)
  run-Refines_from ttl (op ∷ ops) m s r =
      let (same, r') = step-Refines ttl m s op r in
      let (rest, r'') = run-Refines_from ttl ops _ _ r' in (rw (same, rest), r'')

  -- From a new map, any sequence of inserts, takes and purges returns what one optional entry for
  -- each key would, and ends with those entries: an insert sets the entry, a take returns and
  -- clears it, a purge clears what is as old as the time to live.
  pub run-Refines :
      (ttl : ℕ) (ops : List (Op V))
      → ((run (new_pending ttl) ops).0 ≡ (spec_run ttl (λ key. none) ops).0)
        × Refines ttl (run (new_pending ttl) ops).1 (spec_run ttl (λ key. none) ops).1
  unfolding get
  run-Refines ttl ops =
      run-Refines_from ttl ops (new_pending ttl) (λ key. none)
        (record { unique = tt; same_ttl = refl; entries = λ key. refl })

-- The operations that leave an entry of this age under the key where it is.
abbrev pub Spares {ℓ} : {V : Type ℓ} → ℕ → ℕ → ℕ → Op V → Type 0
Spares ttl created key (put now k v) = (k == key) ≡ false
Spares ttl created key (take k) = (k == key) ≡ false
Spares ttl created key (purge now) = now - created < ttl

-- The operations that put nothing under the key.
abbrev pub NoPut {ℓ} : {V : Type ℓ} → ℕ → Op V → Type 0
NoPut key (put now k v) = (k == key) ≡ false
NoPut key _ = Unit

abbrev pub Every {ℓ κ} : {A : Type ℓ} → (A → Type κ) → List A → Type κ
Every P [] = Unit
Every P (x ∷ xs) = P x × Every P xs

module _ {ℓ} {V : Type ℓ} where
  spared_step :
      (key : ℕ) (e : PendingEntry V) (op : Op V) (m : PendingMap V) (s : Spec V)
      → Spares m.ttl e.created_at key op
      → s key ≡ some e
      → (spec_step m.ttl s op).1 key ≡ some e
  spared_step key e (put now k v) m s h held = rw (h, held)
  spared_step key e (take k) m s h held = rw (h, held)
  spared_step key e (purge now) m s h held = ground arith

  spared_run :
      (key : ℕ) (e : PendingEntry V) (ttl : ℕ) (ops : List (Op V)) (s : Spec V)
      → Every (Spares ttl e.created_at key) ops
      → s key ≡ some e
      → (spec_run ttl s ops).1 key ≡ some e
  unfolding spec_run
  spared_run key e ttl [] s h held = held
  spared_run key e ttl (op ∷ ops) s h held =
      spared_run key e ttl ops _ h.1 (spared_step key e op (new_pending ttl) s h.0 held)

  -- An inserted value is there for its taker throughout its time to live: if no later operation
  -- inserts or takes under its key and every purge comes within the time to live after the
  -- insertion, then a take returns it. This holds after any history.
  pub take-put :
      (ttl : ℕ) (before after : List (Op V)) (now key : ℕ) (v : V)
      → Every (Spares ttl now key) after
      → let held = insert_pending now key v (run (new_pending ttl) before).1 in
        (take_pending key (run held after).1).0 ≡ some v
  unfolding step
  take-put ttl before after now key v h =
      let (_, r) = run-Refines ttl before in
      let (_, r') = step-Refines ttl _ _ (put now key v) r in
      let (_, r'') = run-Refines_from ttl after _ _ r' in
      let entry : PendingEntry V = record { value = v; created_at = now } in
      let kept = spared_run key entry ttl after _ h (rw ==-self) in
      (step-Refines ttl _ _ (take key) r'').0 ∙ ap (Option.map (λ e. e.value)) kept

  empty_run :
      (key ttl : ℕ) (ops : List (Op V)) (s : Spec V)
      → Every (NoPut key) ops
      → s key ≡ none
      → (spec_run ttl s ops).1 key ≡ none
  unfolding spec_run
  empty_run key ttl [] s h e = e
  empty_run key ttl (put now k v ∷ ops) s h e = empty_run key ttl ops _ h.1 (rw (h.0, e))
  empty_run key ttl (take k ∷ ops) s h e = empty_run key ttl ops _ h.1 (ground arith)
  empty_run key ttl (purge now ∷ ops) s h e = empty_run key ttl ops _ h.1 (rw e)

  -- A value is handed out at most once: after any history and a take of a key, as long as nothing
  -- is inserted under the key again, a further take of it returns nothing.
  pub take-take :
      (ttl : ℕ) (before after : List (Op V)) (key : ℕ)
      → Every (NoPut key) after
      → let taken = (take_pending key (run (new_pending ttl) before).1).1 in
        (take_pending key (run taken after).1).0 ≡ none
  unfolding step
  take-take ttl before after key h =
      let (_, r) = run-Refines ttl before in
      let (_, r') = step-Refines ttl _ _ (take key) r in
      let (_, r'') = run-Refines_from ttl after _ _ r' in
      let gone = empty_run key ttl after _ h (rw ==-self) in
      (step-Refines ttl _ _ (take key) r'').0 ∙ ap (Option.map (λ e. e.value)) gone
