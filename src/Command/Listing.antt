-- ===== src/Command/Listing.antt =====
-- core/src/command/get_listen_addrs.rs. The order of addresses is libp2p's.
use swarm_p2p.Prelude.{◌≡◌, refl, ◌∙◌, ◌||◌, some, List, [], ◌∷◌, ◌++◌, arith}
use swarm_p2p.Prelude.Sort.{
  sort, dedup, member, IsOrder, Rising, dedup-sort-Rising, member-dedup-sort,
}
use swarm_p2p.Error.{ok}
use swarm_p2p.Swarm.{Types, Swarm, Trace}
use swarm_p2p.Swarm.Addr.{Multiaddr, same_addr}
use swarm_p2p.Command.{Ran, CommandHandler, default_on_event, no_relay_request}

pub data GetListenAddrsCommand : Type 0 where
  get_listen_addrs : GetListenAddrsCommand

module _ {T : Types} (sw : Swarm T) where
  unfoldable pub listed : Trace T → List Multiaddr
  listed trace =
      dedup sw.addr_le same_addr
        (sort sw.addr_le same_addr (sw.listeners trace ++ sw.external_addresses trace))

  unfoldable pub run_get_listen_addrs :
      GetListenAddrsCommand → Trace T → Ran T GetListenAddrsCommand (List Multiaddr)
  unfolding listed
  run_get_listen_addrs c trace = record {
    command = c;
    trace = trace;
    finished = some (ok (listed trace));
  }

  abbrev pub get_listen_addrs_handler : CommandHandler T GetListenAddrsCommand (List Multiaddr)
  get_listen_addrs_handler = record {
    run = run_get_listen_addrs;
    on_event = default_on_event;
    take_relay_reservation_request = no_relay_request;
  }

  member-append :
      (a : Multiaddr) (xs ys : List Multiaddr)
      → member sw.addr_le same_addr a (xs ++ ys)
        ≡ (member sw.addr_le same_addr a xs || member sw.addr_le same_addr a ys)
  member-append a [] ys = refl
  member-append a (x ∷ xs) ys = ground (arith, member-append a xs ys)

  abbrev pub Lists : Trace T → List Multiaddr → Type 0
  Lists trace addrs =
      Rising sw.addr_le same_addr addrs
      × ((a : Multiaddr)
          → member sw.addr_le same_addr a addrs ≡ (
              member sw.addr_le same_addr a (sw.listeners trace)
              || member sw.addr_le same_addr a (sw.external_addresses trace)))

  -- If the order of addresses is total, the command finishes with the addresses that are listened on
  -- or external, all of them and no other, each once and in ascending order, and calls nothing of the
  -- swarm.
  pub run_get_listen_addrs-Lists :
      IsOrder sw.addr_le same_addr
      → (c : GetListenAddrsCommand) (trace : Trace T)
      → (addrs : List Multiaddr) × ((run_get_listen_addrs c trace).finished ≡ some (ok addrs))
        × ((run_get_listen_addrs c trace).trace ≡ trace)
        × Lists trace addrs
  unfolding run_get_listen_addrs
  run_get_listen_addrs-Lists o c trace =
      let all : List Multiaddr = sw.listeners trace ++ sw.external_addresses trace in
      (
        listed trace,
        refl,
        refl,
        (
          dedup-sort-Rising sw.addr_le same_addr o all,
          λ a.
              member-dedup-sort sw.addr_le same_addr o a all
              ∙ member-append a (sw.listeners trace) (sw.external_addresses trace),
        ),
      )
