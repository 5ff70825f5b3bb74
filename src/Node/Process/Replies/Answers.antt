-- ===== src/Node/Process/Replies/Answers.antt =====
-- From an inbound request to its answer over a whole node: core/src/runtime/event_loop.rs stores the reply
-- channels in the map of core/src/pending_map.rs, from which the answers of
-- core/src/client/req_resp.rs take them, while the cleaner drops the old ones.
use swarm_p2p.Prelude.{
  ℕ, zero, suc, ◌+◌, ◌<◌, ◌≡◌, ap, ◌∙◌, inl, inr, Bool-cases, Option, none, some, List, [], ◌∷◌,
  ◌++◌, arith, word_add-eq, word_mod, length, length-append, ◌==◌, ==→eq,
}
use mathlib.Core.List.{append-nil}
use swarm_p2p.Prelude.Map.{IsMap, get}
use swarm_p2p.PendingMap.{PendingEntry, take_pending, purge_expired}
use swarm_p2p.PendingMap.Laws.{
  entry_at, if_fresh, insert_pending-effect, take_pending-effect, purge_expired-effect,
}
use swarm_p2p.Chain.Lists.{get_elem?, get_elem?-prefix}
use swarm_p2p.Swarm.{Types}
use swarm_p2p.EventLoop.{Env}
use swarm_p2p.EventLoop.Convert.Pending.{Request}
use swarm_p2p.Node.Process.Replies.{Waiting, noted}

pub get_elem?-append :
    {A : Type 0} (xs ys : List A) (i : ℕ) (x : A)
    → get_elem? xs i ≡ some x
    → get_elem? (xs ++ ys) i ≡ some x
get_elem?-append [] ys i x e = cc
get_elem?-append (y ∷ xs) ys zero x e = e
get_elem?-append (y ∷ xs) ys (suc i) x e = get_elem?-append xs ys i x e

get_elem?-lt : {A : Type 0} (xs : List A) (i : ℕ) (x : A) → get_elem? xs i ≡ some x → i < length xs
get_elem?-lt [] i x e = cc
get_elem?-lt (y ∷ xs) zero x e = omega arith
get_elem?-lt (y ∷ xs) (suc i) x e = omega (arith, get_elem?-lt xs i x e)

place_last :
    {A : Type 0} (xs : List A) (x : A) (i : ℕ) → i ≡ length xs → get_elem? (xs ++ x ∷ []) i ≡ some x
place_last xs x i e = rw e (get_elem?-prefix xs (x ∷ []))

if_fresh-some :
    {V : Type 0} (ttl now : ℕ) (o : Option (PendingEntry V)) (e : PendingEntry V)
    → if_fresh ttl now o ≡ some e
    → o ≡ some e
if_fresh-some ttl now none e h = cc
if_fresh-some ttl now (some f) e h = ground arith

-- The reply channel of a request, if there is one.
abbrev pub channel_of : {P Q A : Type 0} → Option (P × Q × A) → List A
channel_of none = []
channel_of (some (peer, request, channel)) = channel ∷ []

module _ {T : Types} where
  -- The waiting reply channels are of these requests, each under its place among them, and the
  -- counter is their number.
  pub record Owes (reqs : List T.ResponseChannel) (w : Waiting T) : Type 0 where
    pub unique : IsMap w.pending.inner
    pub counted : w.counter ≡ length reqs
    pub placed :
        (id : ℕ) (e : PendingEntry T.ResponseChannel)
        → get id w.pending.inner ≡ some e
        → get_elem? reqs id ≡ some e.value

  pub noted-Owes :
      (env : Env) (request : Option (Request T)) (reqs : List T.ResponseChannel) (w : Waiting T)
      → length reqs + length (channel_of request) < word_mod
      → Owes reqs w
      → Owes (reqs ++ channel_of request) (noted env request w)
  noted-Owes env none reqs w room o = rw append-nil o
  noted-Owes env (some (peer, request, channel)) reqs w room o =
      let (unique, entries) = insert_pending-effect w.pending o.unique env.now w.counter channel in
      record {
        unique = unique;
        counted =
            omega (arith, word_add-eq w.counter 1, o.counted, length-append reqs (channel ∷ []));
        placed = λ id e held. elim (Bool-cases (w.counter == id)) [
          | inl here ↦
              place_last reqs channel id (omega (arith, ==→eq w.counter id here, o.counted))
              ∙ ap some (ground (arith, entries id))
          | inr elsewhere ↦
              get_elem?-append reqs (channel ∷ []) id e.value
                (o.placed id e (ground (arith, entries id)))
        ];
      }

  pub taken-Owes :
      (id : ℕ) (reqs : List T.ResponseChannel) (w : Waiting T)
      → Owes reqs w
      → Owes reqs (record w { pending = (take_pending id w.pending).1 })
  taken-Owes id reqs w o =
      let (found, unique, entries) = take_pending-effect w.pending o.unique id in
      record {
        unique = unique;
        counted = o.counted;
        placed = λ j e held. o.placed j e (ground (arith, entries j));
      }

  pub cleaned-Owes :
      (now : ℕ) (reqs : List T.ResponseChannel) (w : Waiting T)
      → Owes reqs w
      → Owes reqs (record w { pending = (purge_expired now w.pending).1 })
  cleaned-Owes now reqs w o =
      let (unique, entries) = purge_expired-effect w.pending o.unique now in
      record {
        unique = unique;
        counted = o.counted;
        placed = λ j e held.
            o.placed j e (
              if_fresh-some w.pending.ttl now (entry_at w.pending j) e (ground (arith, entries j)));
      }

  -- The id was given out, and nothing waits under it.
  pub record Gone (id : ℕ) (w : Waiting T) : Type 0 where
    pub given : id < w.counter
    pub empty : get id w.pending.inner ≡ none

  pub noted-Gone :
      (id : ℕ) (env : Env) (request : Option (Request T)) (reqs : List T.ResponseChannel)
      (w : Waiting T)
      → length reqs + length (channel_of request) < word_mod
      → Owes reqs w
      → Gone id w
      → Gone id (noted env request w)
  noted-Gone id env none reqs w room o g = g
  noted-Gone id env (some (peer, request, channel)) reqs w room o g =
      let (unique, entries) = insert_pending-effect w.pending o.unique env.now w.counter channel in
      record {
        given = omega (arith, g.given, word_add-eq w.counter 1, o.counted);
        empty = ground (arith, entries id, g.given, g.empty);
      }

  pub taken-Gone :
      (id key : ℕ) (reqs : List T.ResponseChannel) (w : Waiting T)
      → Owes reqs w
      → Gone id w
      → Gone id (record w { pending = (take_pending key w.pending).1 })
  taken-Gone id key reqs w o g =
      let (found, unique, entries) = take_pending-effect w.pending o.unique key in
      record { given = g.given; empty = ground (arith, entries id, g.empty) }

  pub cleaned-Gone :
      (id now : ℕ) (reqs : List T.ResponseChannel) (w : Waiting T)
      → Owes reqs w
      → Gone id w
      → Gone id (record w { pending = (purge_expired now w.pending).1 })
  cleaned-Gone id now reqs w o g =
      let (unique, entries) = purge_expired-effect w.pending o.unique now in
      record { given = g.given; empty = entries id ∙ ap (if_fresh w.pending.ttl now) g.empty }

  pub just_taken-Gone :
      (id : ℕ) (e : PendingEntry T.ResponseChannel) (reqs : List T.ResponseChannel) (w : Waiting T)
      → Owes reqs w
      → get id w.pending.inner ≡ some e
      → Gone id (record w { pending = (take_pending id w.pending).1 })
  just_taken-Gone id e reqs w o held =
      let (found, unique, entries) = take_pending-effect w.pending o.unique id in
      record {
        given = omega (arith, o.counted, get_elem?-lt reqs id e.value (o.placed id e held));
        empty = ground (arith, entries id);
      }
