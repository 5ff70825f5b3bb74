-- ===== src/EventLoop/Lan/Usable.antt =====
-- The addresses that `is_usable_lan_addr` of core/src/runtime/event_loop.rs accepts.
use swarm_p2p.Prelude.{ℕ, ◌+◌, ◌*◌, ◌<◌, ◌≡◌, Bool, ◌&&◌, ◌||◌, arith, leb, not, ◌==◌, ◌∙◌}
use mathlib.Core.Path.{ap₂}
use swarm_p2p.Swarm.Addr.{Ipv4Addr, ip4}
use swarm_p2p.EventLoop.Lan.{
  usable_protocol, is_private, is_loopback, is_link_local, is_unspecified,
}

-- An address as one number of 32 bits.
abbrev pub bits : Ipv4Addr → ℕ
bits ip = ip.a * 16777216 + ip.b * 65536 + ip.c * 256 + ip.d

abbrev pub within : ℕ → ℕ → ℕ → Bool
within low high n = leb low n && leb n high

-- The ranges 10.0.0.0/8, 172.16.0.0/12 and 192.168.0.0/16.
abbrev pub in_private_range : ℕ → Bool
in_private_range n =
    within 167772160 184549375 n || within 2886729728 2887778303 n || within 3232235520 3232301055 n

pub record IsIpv4 (ip : Ipv4Addr) : Type 0 where
  pub a_fits : ip.a < 256
  pub b_fits : ip.b < 256
  pub c_fits : ip.c < 256
  pub d_fits : ip.d < 256

class_a :
    (n a r : ℕ) → n ≡ a * 16777216 + r → r < 16777216 → (a == 10) ≡ within 167772160 184549375 n
class_a n a r e h = ground arith

class_b :
    (n a b r : ℕ)
    → n ≡ a * 16777216 + b * 65536 + r
    → b < 256
    → r < 65536
    → (a == 172 && leb 16 b && leb b 31) ≡ within 2886729728 2887778303 n
class_b n a b r e h k = ground arith

class_c :
    (n a b r : ℕ)
    → n ≡ a * 16777216 + b * 65536 + r
    → b < 256
    → r < 65536
    → (a == 192 && b == 168) ≡ within 3232235520 3232301055 n
class_c n a b r e h k = ground arith

-- The tests after `is_private` exclude nothing.
private_only :
    (ip : Ipv4Addr)
    → (is_private ip && not (is_loopback ip) && not (is_link_local ip) && not (is_unspecified ip))
      ≡ is_private ip
private_only ip = ground arith

-- An IPv4 component is usable exactly if its address is in one of the private ranges 10.0.0.0/8,
-- 172.16.0.0/12 and 192.168.0.0/16; the further tests for loopback, link-local and unspecified
-- addresses exclude none of these.
pub usable_protocol-ip4 :
    (ip : Ipv4Addr) → IsIpv4 ip → usable_protocol (ip4 ip) ≡ in_private_range (bits ip)
unfolding usable_protocol
usable_protocol-ip4 ip fits =
    let c = fits.c_fits in
    let d = fits.d_fits in
    let low = ip.c * 256 + ip.d in
    private_only ip
    ∙ ap₂ (λ x y. x || y)
        (ap₂ (λ x y. x || y)
          (class_a (bits ip) ip.a (ip.b * 65536 + low) (omega arith)
            (omega (arith, fits.b_fits, c, d)))
          (class_b (bits ip) ip.a ip.b low (omega arith) fits.b_fits (omega (arith, c, d))))
        (class_c (bits ip) ip.a ip.b low (omega arith) fits.b_fits (omega (arith, c, d)))
