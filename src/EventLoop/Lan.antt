-- ===== src/EventLoop/Lan.antt =====
-- core/src/runtime/event_loop.rs: `is_usable_lan_addr` and `maybe_announce_lan_helper_addr`.
pub mod Usable
pub mod Advertised
use Prim.Native.Nat.{◌/◌, bit_and}
use swarm_p2p.Prelude.{
  ℕ, ◌^◌, Bool, true, false, not, ◌&&◌, ◌||◌, Option, none, some, List, [], ◌∷◌, ◌++◌, ◌==◌, leb,
  if◌then◌else◌,
}
use swarm_p2p.Event.{lan_helper_status_changed}
use swarm_p2p.Config.{LanHelperConfig}
use swarm_p2p.Swarm.{Types, Swarm, add_external_address}
use swarm_p2p.Swarm.Addr.{
  same_addr, Ipv4Addr, Protocol, Multiaddr, ip4, ip6, p2p, p2p_circuit, tcp, udp, quic_v1, other,
}
use swarm_p2p.EventLoop.{EventLoop, Env}
use swarm_p2p.EventLoop.Relay.{any}

-- The standard library's predicates on addresses.
abbrev pub is_private : Ipv4Addr → Bool
is_private ip =
    ip.a == 10 || (ip.a == 172 && leb 16 ip.b && leb ip.b 31) || (ip.a == 192 && ip.b == 168)

abbrev pub is_loopback : Ipv4Addr → Bool
is_loopback ip = ip.a == 127

abbrev pub is_link_local : Ipv4Addr → Bool
is_link_local ip = ip.a == 169 && ip.b == 254

abbrev pub is_unspecified : Ipv4Addr → Bool
is_unspecified ip = ip.a == 0 && ip.b == 0 && ip.c == 0 && ip.d == 0

-- `segments()[0]`: the upper 16 of the 128 bits.
abbrev pub first_segment : ℕ → ℕ
first_segment ip = ip / 2 ^ 112

unfoldable pub usable_protocol : Protocol → Bool
usable_protocol (ip4 ip) =
    is_private ip && not (is_loopback ip) && not (is_link_local ip) && not (is_unspecified ip)
usable_protocol (ip6 ip) =
    bit_and (first_segment ip) 65024 == 64512 && not (ip == 1) && not (ip == 0)
usable_protocol _ = false

unfoldable pub is_usable_lan_addr : Multiaddr → Bool
unfolding usable_protocol
is_usable_lan_addr addr = any usable_protocol addr

abbrev pub contains : Multiaddr → List Multiaddr → Bool
contains addr addrs = any (same_addr addr) addrs

module _ {T : Types} {C : Type 0} where
  unfoldable pub advertise : Multiaddr → EventLoop T C → EventLoop T C
  advertise addr s =
      if is_usable_lan_addr addr && not (contains addr s.advertised_lan_addrs)
      then record s {
        trace = add_external_address addr ∷ s.trace;
        advertised_lan_addrs = s.advertised_lan_addrs ++ addr ∷ [];
      }
      else s

module _ {T : Types} (sw : Swarm T) {C : Type 0} where
  -- `try_send`: the status is dropped when the user's channel is full or closed.
  unfoldable pub report_status : Env → EventLoop T C → EventLoop T C
  report_status env s =
      if env.event_open && env.event_room
      then record s {
        sent =
            s.sent
            ++ lan_helper_status_changed (sw.relay_server_is_enabled s.trace) s.advertised_lan_addrs
              ∷ [];
      }
      else s

  abbrev pub announce_for : Env → Option LanHelperConfig → Multiaddr → EventLoop T C → EventLoop T C
  announce_for env none addr s = s
  announce_for env (some config) addr s =
      if config.announce_private_addrs then report_status env (advertise addr s) else s

  unfoldable pub maybe_announce_lan_helper_addr : Env → Multiaddr → EventLoop T C → EventLoop T C
  maybe_announce_lan_helper_addr env addr s = announce_for env s.lan_helper addr s
