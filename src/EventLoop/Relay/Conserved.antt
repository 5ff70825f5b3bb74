-- ===== src/EventLoop/Relay/Conserved.antt =====
-- The relay reservations of core/src/runtime/event_loop.rs: from the registration of a relay's
-- addresses to the request for a reservation.
use swarm_p2p.Prelude.{
  ℕ, ◌+◌, ◌≡◌, refl, Bool, Option, none, some, List, [], ◌∷◌, length, if◌then◌else◌, unwrap_or,
  arith, ap, Bool-cases, inl, inr,
}
use swarm_p2p.Prelude.Map.{get, IsMap, remove-IsMap}
use swarm_p2p.DataChannel.{PeerId}
use swarm_p2p.Swarm.{
  Types, Swarm, Trace, listen_on, dial, add_peer_address, kad_add_address, IdentifyInfo,
}
use swarm_p2p.Swarm.Addr.{Multiaddr}
use swarm_p2p.Command.{RelayRequest}
use swarm_p2p.EventLoop.{EventLoop, remember, connect_bootstrap_peers}
use swarm_p2p.EventLoop.Relay.Waiting.{total, total-remove, total-remember, remember-IsMap}
use swarm_p2p.EventLoop.Relay.{relay_addr, request_relay_reservations}
use swarm_p2p.EventLoop.Convert.{on_identify, add_to_kad_and_swarm, reserve_remembered, same_text}
use swarm_p2p.EventLoop.Run.{reserve}

-- What registers relay addresses, and what uses them.
data Op : Type 0 where
  bootstrap : List (PeerId × Multiaddr) → Op
  request : RelayRequest → Op
  identify : PeerId → IdentifyInfo → Op

abbrev pub requested : RelayRequest → ℕ
requested none = 0
requested (some (peer, addrs)) = length addrs

-- How many addresses an operation registers, with and without a relay client.
abbrev registered : Bool → Op → ℕ
registered relay_client (bootstrap peers) = if relay_client then length peers else 0
registered relay_client (request r) = requested r
registered relay_client (identify peer info) = 0

abbrev registered_by : Bool → List Op → ℕ
registered_by relay_client [] = 0
registered_by relay_client (op ∷ ops) = registered relay_client op + registered_by relay_client ops

module _ {T : Types} where
  -- The calls of `listen_on` in a trace.
  abbrev pub listens : Trace T → ℕ
  listens [] = 0
  listens (listen_on addr ∷ trace) = listens trace + 1
  listens (_ ∷ trace) = listens trace

  listens-request :
      (peer : PeerId) (addrs : List Multiaddr) (trace : Trace T)
      → listens (request_relay_reservations peer addrs trace) ≡ listens trace + length addrs
  unfolding request_relay_reservations
  listens-request peer [] trace = omega arith
  listens-request peer (addr ∷ addrs) trace =
      omega (arith, listens-request peer addrs (listen_on (relay_addr peer addr) ∷ trace))

  listens-add :
      (peer : PeerId) (addrs : List Multiaddr) (trace : Trace T)
      → listens (add_to_kad_and_swarm peer addrs trace) ≡ listens trace
  unfolding add_to_kad_and_swarm
  listens-add peer [] trace = refl
  listens-add peer (addr ∷ addrs) trace = listens-add peer addrs _

  module _ {C : Type 0} where
    -- The reservations requested and the addresses that still wait.
    abbrev pub balance : EventLoop T C → ℕ
    balance s = listens s.trace + total s.bootstrap_peers

    -- From `s` to `s'` with `n` more addresses.
    abbrev pub Adds : ℕ → EventLoop T C → EventLoop T C → Type 0
    Adds n s s' =
        (balance s' ≡ balance s + n)
        × (s'.enable_relay_client ≡ s.enable_relay_client)
        × IsMap s'.bootstrap_peers

    abbrev dialing : PeerId → Multiaddr → EventLoop T C → EventLoop T C
    dialing peer addr s = record s {
      trace = dial peer ∷ add_peer_address peer addr ∷ kad_add_address peer addr ∷ s.trace;
    }

    pub connect-Adds :
        (peers : List (PeerId × Multiaddr)) (s : EventLoop T C)
        → IsMap s.bootstrap_peers
        → Adds
            (if s.enable_relay_client then length peers else 0)
            s
            (connect_bootstrap_peers peers s)
    unfolding connect_bootstrap_peers
    connect-Adds [] s k = (ground arith, refl, k)
    connect-Adds ((peer, addr) ∷ peers) s k = elim (Bool-cases s.enable_relay_client) [
      | inl on ↦
          let (b, c, m) =
            connect-Adds peers
              (record (dialing peer addr s) {
                bootstrap_peers = remember peer (addr ∷ []) s.bootstrap_peers;
              })
              (remember-IsMap peer (addr ∷ []) s.bootstrap_peers k) in
          rw on (
            omega (arith, rw on at b, total-remember peer (addr ∷ []) s.bootstrap_peers),
            rw on at c,
            rw on at m,
          )
      | inr off ↦
          let (b, c, m) = connect-Adds peers (dialing peer addr s) k in
          rw off (omega (arith, rw off at b), rw off at c, rw off at m)
    ]

    pub reserve-Adds :
        (sw : Swarm T) (r : RelayRequest) (s : EventLoop T C)
        → IsMap s.bootstrap_peers
        → Adds (requested r) s (reserve sw r s)
    reserve-Adds sw none s k = (omega arith, refl, k)
    reserve-Adds sw (some (peer, addrs)) s k = elim (Bool-cases (sw.is_connected s.trace peer)) [
      | inl now ↦ rw now (omega (arith, listens-request peer addrs s.trace), refl, k)
      | inr later ↦ rw later (
        omega (arith, total-remember peer addrs s.bootstrap_peers),
        refl,
        remember-IsMap peer addrs s.bootstrap_peers k,
      )
    ]

    reserve_remembered-Adds :
        (peer : PeerId) (found : Option (List Multiaddr)) (s : EventLoop T C)
        → get peer s.bootstrap_peers ≡ found
        → IsMap s.bootstrap_peers
        → Adds 0 s (reserve_remembered peer found s)
    reserve_remembered-Adds peer none s e k = (omega arith, refl, k)
    reserve_remembered-Adds peer (some addrs) s e k = (
      omega (
        arith,
        listens-request peer addrs s.trace,
        total-remove peer s.bootstrap_peers k,
        ap (λ o. length (unwrap_or o [])) e,
      ),
      refl,
      remove-IsMap peer s.bootstrap_peers k,
    )

    pub identify-Adds :
        (peer : PeerId) (info : IdentifyInfo) (s : EventLoop T C)
        → IsMap s.bootstrap_peers
        → Adds 0 s (on_identify peer info s)
    unfolding on_identify
    identify-Adds peer info s k =
        elim (Bool-cases (same_text info.protocol_version s.protocol_version)) [
          | inl match ↦
              let (b, c, m) =
                reserve_remembered-Adds peer (get peer s.bootstrap_peers)
                  (record s { trace = add_to_kad_and_swarm peer info.listen_addrs s.trace }) refl
                  k in
              rw match (omega (arith, b, listens-add peer info.listen_addrs s.trace), c, m)
          | inr mismatch ↦ rw mismatch (omega arith, refl, k)
        ]

    module _ (sw : Swarm T) where
      abbrev step : Op → EventLoop T C → EventLoop T C
      step (bootstrap peers) s = connect_bootstrap_peers peers s
      step (request r) s = reserve sw r s
      step (identify peer info) s = on_identify peer info s

      abbrev run : List Op → EventLoop T C → EventLoop T C
      run [] s = s
      run (op ∷ ops) s = run ops (step op s)

      step-Adds :
          (op : Op) (s : EventLoop T C)
          → IsMap s.bootstrap_peers
          → Adds (registered s.enable_relay_client op) s (step op s)
      step-Adds (bootstrap peers) s k = connect-Adds peers s k
      step-Adds (request r) s k = reserve-Adds sw r s k
      step-Adds (identify peer info) s k = identify-Adds peer info s k

      -- From a state that remembers addresses under distinct peers, over any sequence of bootstrap
      -- connections, relay requests of commands and identifications: the number of calls to listen on
      -- a relay and the number of addresses that still wait for their peer grow together by exactly
      -- the number of addresses registered.
      run-balance :
          (ops : List Op) (s : EventLoop T C)
          → IsMap s.bootstrap_peers
          → balance (run ops s) ≡ balance s + registered_by s.enable_relay_client ops
      run-balance [] s k = omega arith
      run-balance (op ∷ ops) s k =
          let (b, c, m) = step-Adds op s k in
          omega (arith, b, rw c at (run-balance ops (step op s) m))
