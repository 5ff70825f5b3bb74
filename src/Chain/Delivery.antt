-- ===== src/Chain/Delivery.antt =====
-- Who is offered an event in core/src/runtime/event_loop.rs, and which commands are left after it.
use mathlib.Core.List.{Perm, append_assoc}
use mathlib.Core.List.Perm
use swarm_p2p.Prelude.{
  ℕ, zero, suc, ◌+◌, ◌≤◌, ◌≡◌, refl, ◌∙◌, ◌⊎◌, inl, inr, Bool, true, false, Option, none, some,
  List, [], ◌∷◌, ◌++◌, length, length-append, arith,
}
use swarm_p2p.Chain.Lists.{
  last_first, last_first-perm, length-last_first, get_elem?-prefix, set-prefix, swap_remove-prefix,
}
use swarm_p2p.Chain.{OnEvent, offer, chain_loop, chain}

abbrev pub Every : {A : Type 0} → (A → Type 0) → List A → Type 0
Every P [] = Unit
Every P (x ∷ xs) = P x × Every P xs

-- A command with its new state, if it stays.
abbrev pub survivor : {C E : Type 0} → C × Bool × Option E → List C
survivor (c, true, remaining) = c ∷ []
survivor (c, false, remaining) = []

module _ {C E : Type 0} (on_event : OnEvent C E) (event : E) where
  abbrev pub Passes : C → Type 0
  Passes c = (on_event c event).2 ≡ some event

  abbrev pub Consumes : C → Type 0
  Consumes c = (on_event c event).2 ≡ none

  -- The commands that stay, of those that were offered the event.
  abbrev pub survivors : List C → List C
  survivors [] = []
  survivors (c ∷ cs) = survivor (on_event c event) ++ survivors cs

  -- From the commands `before` to those `after`, in any order: `everyone` was offered the event once
  -- and nobody took it, or it `stopped` at the first that did, and the rest were left alone.
  pub data Delivered (before after : List C) (remaining : Option E) : Type 0 where
    everyone :
        remaining ≡ some event
        → (seen : List C) → Every Passes seen
        → Perm before seen
        → Perm after (survivors seen)
        → Delivered before after remaining
    stopped :
        remaining ≡ none
        → (seen : List C) (c : C) (unseen : List C) → Every Passes seen
        → Consumes c
        → Perm before (seen ++ c ∷ unseen)
        → Perm after (survivors seen ++ (survivor (on_event c event) ++ unseen))
        → Delivered before after remaining

  Delivered-cons :
      {rest rest' after : List C} {remaining : Option E} (c : C)
      → Passes c
      → Perm rest rest'
      → Delivered rest' after remaining
      → Delivered (c ∷ rest) (survivor (on_event c event) ++ after) remaining
  Delivered-cons c p q (everyone e seen ps b a) =
      everyone e (c ∷ seen) (p, ps) (Perm.cons c (Perm.trans q b)) (Perm.append (Perm.refl _) a)
  Delivered-cons c p q (stopped e seen d unseen ps s b a) =
      stopped e (c ∷ seen) d unseen (p, ps) s (Perm.cons c (Perm.trans q b))
        (rw append_assoc (Perm.append (Perm.refl _) a))

  -- One turn of the loop, at the command behind the prefix `pre`.
  one_turn :
      (fuel : ℕ) (pre : List C) (c : C) (rest : List C)
      → chain_loop on_event (suc fuel) (length pre) (pre ++ c ∷ rest) event
        ≡ offer on_event
            (λ i active e. chain_loop on_event fuel i active e)
            (length pre)
            (pre ++ c ∷ rest)
            event
            (some c)
  unfolding chain_loop
  one_turn fuel pre c rest = rw (get_elem?-prefix pre (c ∷ rest))

  abbrev Ends : List C → List C → List C × Option E → Type 0
  Ends pre ws r = (after : List C) × (r.0 ≡ pre ++ after) × Delivered ws after r.1

  -- What the rest of the loop does, at any position with as many commands left as in `rest`.
  abbrev Continues : List C → (ℕ → List C → E → List C × Option E) → Type 0
  Continues rest again =
      (pre ws : List C) (i : ℕ)
      → i ≡ length pre
      → length ws ≡ length rest
      → Ends pre ws (again i (pre ++ ws) event)

  module _ (again : ℕ → List C → E → List C × Option E) (pre : List C) (c : C) (rest : List C)
      (ih : Continues rest again) (c' : C) (remaining : Option E) where
    consumed_kept :
        on_event c event ≡ (c', true, remaining)
        → remaining ≡ none
        → Ends pre (c ∷ rest) (offer on_event again (length pre) (pre ++ c ∷ rest) event (some c))
    consumed_kept e q =
        rw (e, q)
          (
            c' ∷ rest,
            set-prefix pre c rest c',
            stopped refl [] c rest tt (rw (e, q)) (Perm.refl _) (rw e (Perm.refl _)),
          )

    consumed_done :
        on_event c event ≡ (c', false, remaining)
        → remaining ≡ none
        → Ends pre (c ∷ rest) (offer on_event again (length pre) (pre ++ c ∷ rest) event (some c))
    consumed_done e q =
        rw (e, q)
          (
            last_first rest,
            swap_remove-prefix pre c rest,
            stopped refl [] c rest tt (rw (e, q)) (Perm.refl _)
                (rw e (Perm.symm (last_first-perm rest))),
          )

    passed_kept :
        on_event c event ≡ (c', true, remaining)
        → remaining ≡ some event
        → Ends pre (c ∷ rest) (offer on_event again (length pre) (pre ++ c ∷ rest) event (some c))
    passed_kept e q =
        let next =
          ih (pre ++ c' ∷ []) rest (length pre + 1) (omega (arith, length-append pre (c' ∷ [])))
            refl in
        let (after, out, d) = rw (append_assoc pre (c' ∷ []) rest) at next in
        rw (e, q, set-prefix pre c rest c')
          (
            c' ∷ after,
            out ∙ append_assoc pre (c' ∷ []) after,
            rw e at (Delivered-cons c (rw (e, q)) (Perm.refl _) d),
          )

    passed_done :
        on_event c event ≡ (c', false, remaining)
        → remaining ≡ some event
        → Ends pre (c ∷ rest) (offer on_event again (length pre) (pre ++ c ∷ rest) event (some c))
    passed_done e q =
        let (after, out, d) = ih pre (last_first rest) (length pre) refl (length-last_first rest) in
        rw (e, q, swap_remove-prefix pre c rest)
          (after, out, rw e at (Delivered-cons c (rw (e, q)) (last_first-perm rest) d))

  offer-Ends :
      (again : ℕ → List C → E → List C × Option E) (pre : List C) (c : C) (rest : List C)
      → Continues rest again
      → (r : C × Bool × Option E) → on_event c event ≡ r
      → (r.2 ≡ none) ⊎ (r.2 ≡ some event)
      → Ends pre (c ∷ rest) (offer on_event again (length pre) (pre ++ c ∷ rest) event (some c))
  offer-Ends again pre c rest ih (c', true, remaining) e (inl q) =
      consumed_kept again pre c rest ih c' remaining e q
  offer-Ends again pre c rest ih (c', false, remaining) e (inl q) =
      consumed_done again pre c rest ih c' remaining e q
  offer-Ends again pre c rest ih (c', true, remaining) e (inr q) =
      passed_kept again pre c rest ih c' remaining e q
  offer-Ends again pre c rest ih (c', false, remaining) e (inr q) =
      passed_done again pre c rest ih c' remaining e q

  -- Behind the last command the loop is over.
  finished_loop :
      (fuel : ℕ) (pre : List C)
      → chain_loop on_event fuel (length pre) (pre ++ []) event ≡ (pre ++ [], some event)
  unfolding chain_loop
  finished_loop zero pre = refl
  finished_loop (suc fuel) pre = rw (get_elem?-prefix pre [])

  module _ (hands_on : (c : C) → Consumes c ⊎ Passes c) where
    loop-Ends :
        (fuel : ℕ) (pre ws : List C) (i : ℕ)
        → i ≡ length pre
        → length ws ≤ fuel
        → Ends pre ws (chain_loop on_event fuel i (pre ++ ws) event)
    loop-Ends fuel pre [] i e h =
        rw (e, finished_loop fuel pre) ([], refl, everyone refl [] tt (Perm.refl _) (Perm.refl _))
    loop-Ends zero pre (c ∷ rest) i e h = absurd (omega arith)
    loop-Ends (suc fuel) pre (c ∷ rest) i e h =
        rw (e, one_turn fuel pre c rest)
          (offer-Ends (λ i' active e'. chain_loop on_event fuel i' active e') pre c rest
            (λ pre' ws' j p q. loop-Ends fuel pre' ws' j p (omega arith)) (on_event c event) refl
            (hands_on c))

    -- If every command either consumes the event or hands on the very same event, then the loop offers
    -- it to each active command at most once, each of them exactly once unless one consumes it, and no
    -- further command after that one. Afterwards the active commands are, in some order, those that
    -- were offered the event and stay, with their new states, and those that were not offered it,
    -- unchanged. The event is handed on exactly if nobody consumed it.
    pub chain-Delivered :
        (active : List C)
        → Delivered active (chain on_event active event).0 (chain on_event active event).1
    unfolding chain
    chain-Delivered active =
        let (after, out, d) = loop-Ends (length active) [] active 0 refl (omega arith) in rw out d
