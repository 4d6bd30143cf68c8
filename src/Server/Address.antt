-- ===== src/Server/Address.antt =====
-- server/src/stream.rs, the classes of addresses: which ones count as globally reachable. The
-- predicates of `std::net` that the code calls are written out from their documentation.
pub mod Blocks
pub mod Scopes
use epoxy_tls.Base.{ℕ, ◌+◌, ◌*◌, Bool, not, ◌&&◌, ◌||◌, ◌==◌, ltb, leb, and_word}

-- The octets of `Ipv4Addr`.
pub record Ipv4Addr : Type 0 where
  pub a : ℕ
  pub b : ℕ
  pub c : ℕ
  pub d : ℕ

-- The eight segments of `Ipv6Addr`.
pub record Ipv6Addr : Type 0 where
  pub s0 : ℕ
  pub s1 : ℕ
  pub s2 : ℕ
  pub s3 : ℕ
  pub s4 : ℕ
  pub s5 : ℕ
  pub s6 : ℕ
  pub s7 : ℕ

pub data IpAddr : Type 0 where
  v4 : Ipv4Addr → IpAddr
  v6 : Ipv6Addr → IpAddr

-- `u32::from(addr)` and `u128::from_be_bytes(addr.octets())`
abbrev pub v4_bits : Ipv4Addr → ℕ
v4_bits x = x.a * 16777216 + x.b * 65536 + x.c * 256 + x.d

abbrev pub v6_bits : Ipv6Addr → ℕ
v6_bits x =
    ((((((x.s0 * 65536 + x.s1) * 65536 + x.s2) * 65536 + x.s3) * 65536 + x.s4) * 65536 + x.s5)
          * 65536
        + x.s6)
      * 65536
    + x.s7

abbrev pub v4_is_private : Ipv4Addr → Bool
v4_is_private x =
    x.a == 10 || (x.a == 172 && leb 16 x.b && leb x.b 31) || (x.a == 192 && x.b == 168)

abbrev pub v4_is_loopback : Ipv4Addr → Bool
v4_is_loopback x = x.a == 127

abbrev pub v4_is_link_local : Ipv4Addr → Bool
v4_is_link_local x = x.a == 169 && x.b == 254

abbrev pub v4_is_documentation : Ipv4Addr → Bool
v4_is_documentation x =
    (x.a == 192 && x.b == 0 && x.c == 2)
    || (x.a == 198 && x.b == 51 && x.c == 100)
    || (x.a == 203 && x.b == 0 && x.c == 113)

abbrev pub v4_is_broadcast : Ipv4Addr → Bool
v4_is_broadcast x = x.a == 255 && x.b == 255 && x.c == 255 && x.d == 255

abbrev pub v4_is_multicast : Ipv4Addr → Bool
v4_is_multicast x = leb 224 x.a && leb x.a 239

abbrev pub v6_is_unspecified : Ipv6Addr → Bool
v6_is_unspecified x = v6_bits x == 0

abbrev pub v6_is_loopback : Ipv6Addr → Bool
v6_is_loopback x = v6_bits x == 1

abbrev pub v6_is_multicast : Ipv6Addr → Bool
v6_is_multicast x = and_word 16 x.s0 0xff00 == 0xff00

abbrev pub is_loopback : IpAddr → Bool
is_loopback (v4 x) = v4_is_loopback x
is_loopback (v6 x) = v6_is_loopback x

abbrev pub is_multicast : IpAddr → Bool
is_multicast (v4 x) = v4_is_multicast x
is_multicast (v6 x) = v6_is_multicast x

-- Taken from Rust 1.82.0.
unfoldable pub ipv4_is_global : Ipv4Addr → Bool
ipv4_is_global x = not (
    x.a == 0
    || v4_is_private x
    || (x.a == 100 && and_word 8 x.b 0b11000000 == 0b01000000)
    || v4_is_loopback x
    || v4_is_link_local x
    || (x.a == 192 && x.b == 0 && x.c == 0 && not (x.d == 9) && not (x.d == 10))
    || v4_is_documentation x
    || (x.a == 198 && and_word 8 x.b 0xfe == 18)
    || and_word 8 x.a 240 == 240
    || v4_is_broadcast x)

unfoldable pub ipv6_is_global : Ipv6Addr → Bool
ipv6_is_global x = not (
    v6_is_unspecified x
    || v6_is_loopback x
    || (x.s0 == 0 && x.s1 == 0 && x.s2 == 0 && x.s3 == 0 && x.s4 == 0 && x.s5 == 0xffff)
    || (x.s0 == 0x64 && x.s1 == 0xff9b && x.s2 == 1)
    || (x.s0 == 0x100 && x.s1 == 0 && x.s2 == 0 && x.s3 == 0)
    || (x.s0 == 0x2001
        && ltb x.s1 0x200
        && not (
            v6_bits x == 0x20010001000000000000000000000001
            || v6_bits x == 0x20010001000000000000000000000002
            || (x.s0 == 0x2001 && x.s1 == 3)
            || (x.s0 == 0x2001 && x.s1 == 4 && x.s2 == 0x112)
            || (x.s0 == 0x2001 && leb 0x20 x.s1 && leb x.s1 0x3f)))
    || x.s0 == 0x2002
    || (x.s0 == 0x2001 && x.s1 == 0xdb8)
    || and_word 16 x.s0 0xfe00 == 0xfc00
    || and_word 16 x.s0 0xfe00 == 0xfc00)

unfoldable pub is_global : IpAddr → Bool
unfolding ipv4_is_global ipv6_is_global
is_global (v4 x) = ipv4_is_global x
is_global (v6 x) = ipv6_is_global x
