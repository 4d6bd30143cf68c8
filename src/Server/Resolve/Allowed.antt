-- ===== src/Server/Resolve/Allowed.antt =====
-- What a permitted connection has passed.
use epoxy_tls.Base.{
  ◌==◌, ◌/◌, ◌⊎◌, ◌&&◌, not, ◌≡◌, ◌≢◌, refl, arith, Bool, true, false, ◌||◌, List, [], ◌∷◌, ◌++◌,
  some, All, Bool-cases, inl, inr, ap, ◌⊎◌, ◌/◌,
}
use epoxy_tls.Packet.Kinds.{StreamType, tcp, udp, other}
use epoxy_tls.Packet.Codec.{ConnectPacket}
use epoxy_tls.Server.Anyhow.{ok, panic}
use epoxy_tls.Server.Address.{IpAddr, is_loopback, is_multicast, is_global, v4, v6}
use epoxy_tls.Server.Config.{StreamConfig, Config}
use epoxy_tls.Server.Resolve.{
  Names, Resolver, valid, is_ipv4, check_address, first_address, Regexes, ConfigCache, is_other,
  host_blocked, resolve_host, resolve, is_udp, allowed_set, wispnet_packet, resolve_name,
  blocked_set, any_contains, is_some, match_addr, StreamType, other,
}

-- fe80::/10, which the code's `is_global` counts as global.
abbrev pub is_unicast_link_local : IpAddr → Bool
is_unicast_link_local (v4 x) = false
is_unicast_link_local (v6 x) = x.s0 / 64 == 1018

-- The address is one that is reached over the global network.
abbrev pub is_routable : IpAddr → Bool
is_routable addr = is_global addr && not (is_unicast_link_local addr)

-- The configuration permits connections to this class of address.
pub record IsPermitted (c : StreamConfig) (addr : IpAddr) : Type 0 where
  pub loopback : (is_loopback addr && not c.allow_loopback) ≡ false
  pub multicast : (is_multicast addr && not c.allow_multicast) ≡ false
  pub global : (is_routable addr && not c.allow_global) ≡ false
  pub non_global : (not (is_routable addr) && not c.allow_non_global) ≡ false

-- A link-local address of IPv6 that the configuration forbids with those that are not global, and
-- that the code lets through as a global one.
pub record SlipsThrough (c : StreamConfig) (addr : IpAddr) : Type 0 where
  pub link_local : is_unicast_link_local addr ≡ true
  pub global : c.allow_global ≡ true
  pub non_global : c.allow_non_global ≡ false

-- The tests of the four switches, from the classes of the address.
permitted :
    (c : StreamConfig) (addr : IpAddr)
    → (is_loopback addr && not c.allow_loopback) ≡ false
    → (is_multicast addr && not c.allow_multicast) ≡ false
    → (is_global addr && not c.allow_global) ≡ false
    → (not (is_global addr) && not c.allow_non_global) ≡ false
    → IsPermitted c addr ⊎ SlipsThrough c addr
permitted c addr l m g n =
    elim (Bool-cases (is_unicast_link_local addr && not c.allow_non_global)) [
      | inl slips ↦ elim (Bool-cases c.allow_global) [
        | inl some_ ↦
            inr (record { link_local = ground arith; global = some_; non_global = ground arith })
        | inr none_ ↦ absurd (ground arith)
      ]
      | inr kept ↦
          inl (record {
            loopback = l;
            multicast = m;
            global = ground arith;
            non_global = ground arith;
          })
    ]

check_address-valid :
    (names : Names) (c : StreamConfig) (packet p : ConnectPacket) (addr : IpAddr)
    → check_address names c packet addr ≡ valid p
    → (IsPermitted c addr ⊎ SlipsThrough c addr)
      × (p ≡ record packet { host = names.to_string addr })
unfolding check_address
check_address-valid names c packet p addr h =
    (permitted c addr (ground arith) (ground arith) (ground arith) (ground arith), ground arith)

-- The address that is chosen: the first that the filter for IPv6 keeps.
pub record IsFirst (resolve_ipv6 : Bool) (addrs : List IpAddr) (addr : IpAddr) : Type 0 where
  pub before : List IpAddr
  pub after : List IpAddr
  pub split : addrs ≡ before ++ (addr ∷ after)
  pub kept : (resolve_ipv6 || is_ipv4 addr) ≡ true
  pub dropped : All (λ a. (resolve_ipv6 || is_ipv4 a) ≡ false) before

first_address-valid :
    (names : Names) (resolve_ipv6 : Bool) (c : StreamConfig) (packet p : ConnectPacket)
    (addrs : List IpAddr)
    → first_address names resolve_ipv6 c packet addrs ≡ valid p
    → (addr : IpAddr) × IsFirst resolve_ipv6 addrs addr
      × (IsPermitted c addr ⊎ SlipsThrough c addr)
      × (p ≡ record packet { host = names.to_string addr })
unfolding first_address
first_address-valid names r c packet p [] h = absurd (ground arith)
first_address-valid names r c packet p (addr ∷ addrs) h = elim (Bool-cases (r || is_ipv4 addr)) [
  | inl k ↦
      let (ok_addr, e) = check_address-valid names c packet p addr (ground arith) in
      (
        addr,
        record { before = []; after = addrs; split = refl; kept = k; dropped = tt },
        ok_addr,
        e,
      )
  | inr k ↦
      let (a, first, ok_addr, e) = first_address-valid names r c packet p addrs (ground arith) in
      (
        a,
        record {
          before = addr ∷ first.before;
          after = first.after;
          split = ap (◌∷◌ addr) first.split;
          kept = first.kept;
          dropped = (k, first.dropped);
        },
        ok_addr,
        e,
      )
]

abbrev pub is_tcp : StreamType → Bool
is_tcp tcp = true
is_tcp udp = false
is_tcp (other b) = false

-- The request itself is not blocked: by stream type, port, literal address and host name. The lists
-- that allow only make exceptions to those that block.
pub record IsAdmitted (regexes : Regexes) (names : Names) (c : StreamConfig)
    (cache : ConfigCache regexes) (packet : ConnectPacket) : Type 0 where
  pub known : is_other packet.stream_type ≡ false
  pub udp_allowed : (is_udp packet.stream_type && not c.allow_udp) ≡ false
  pub port :
      (any_contains cache.blocked_ports packet.port
        && not (any_contains cache.allowed_ports packet.port))
      ≡ false
  pub literal : (is_some (names.from_str packet.host) && not c.allow_direct_ip) ≡ false
  -- Of a TCP request, and of a UDP one: its own block list.
  pub tcp_host :
      (is_tcp packet.stream_type
        && regexes.is_match cache.blocked_tcp_hosts packet.host
        && not (regexes.is_match cache.allowed_tcp_hosts packet.host))
      ≡ false
  pub udp_host :
      (is_udp packet.stream_type
        && regexes.is_match cache.blocked_udp_hosts packet.host
        && not (regexes.is_match cache.allowed_udp_hosts packet.host))
      ≡ false
  -- The block list for all, with the exceptions of both.
  pub any_host :
      (regexes.is_match cache.blocked_hosts packet.host
        && not (regexes.is_match cache.allowed_hosts packet.host)
        && not (is_tcp packet.stream_type && regexes.is_match cache.allowed_tcp_hosts packet.host)
        && not (is_udp packet.stream_type && regexes.is_match cache.allowed_udp_hosts packet.host))
      ≡ false

module _ {LevelFilter : Type 0} (regexes : Regexes) (names : Names) (resolver : Resolver)
    (config : Config LevelFilter) (cache : ConfigCache regexes) (packet : ConnectPacket) where
  known_sets :
      (ty : StreamType)
      → is_other ty ≡ false
      → (a : regexes.RegexSet) × (b : regexes.RegexSet) × (allowed_set regexes cache ty ≡ ok a)
        × (blocked_set regexes cache ty ≡ ok b)
  unfolding allowed_set blocked_set
  known_sets tcp h = (cache.allowed_tcp_hosts, cache.blocked_tcp_hosts, refl, refl)
  known_sets udp h = (cache.allowed_udp_hosts, cache.blocked_udp_hosts, refl, refl)
  known_sets (other b) h = absurd (ground arith)

  host_blocked-known :
      is_other packet.stream_type ≡ false → (b : Bool) × (host_blocked regexes cache packet ≡ ok b)
  unfolding host_blocked
  host_blocked-known h =
      let (a, b, ea, eb) = known_sets packet.stream_type h in
      (
        match_addr regexes packet.host a b
            || (match_addr regexes packet.host cache.allowed_hosts cache.blocked_hosts
                && not (regexes.is_match a packet.host)),
        rw (ea, eb) refl,
      )

  -- The lists that a host which is not blocked has passed.
  host_blocked-false :
      (ty : StreamType)
      → packet.stream_type ≡ ty
      → host_blocked regexes cache packet ≡ ok false
      → ((is_tcp ty
            && regexes.is_match cache.blocked_tcp_hosts packet.host
            && not (regexes.is_match cache.allowed_tcp_hosts packet.host))
          ≡ false)
        × ((is_udp ty
              && regexes.is_match cache.blocked_udp_hosts packet.host
              && not (regexes.is_match cache.allowed_udp_hosts packet.host))
            ≡ false)
        × ((regexes.is_match cache.blocked_hosts packet.host
              && not (regexes.is_match cache.allowed_hosts packet.host)
              && not (is_tcp ty && regexes.is_match cache.allowed_tcp_hosts packet.host)
              && not (is_udp ty && regexes.is_match cache.allowed_udp_hosts packet.host))
            ≡ false)
  unfolding host_blocked allowed_set blocked_set match_addr
  host_blocked-false tcp t h = (ground arith, refl, ground arith)
  host_blocked-false udp t h = (refl, ground arith, ground arith)
  host_blocked-false (other b) t h = absurd (ground arith)

  -- Neither `unreachable!()` is reached.
  pub resolve_total : resolve regexes names resolver config cache packet ≢ panic
  unfolding resolve resolve_host wispnet_packet
  resolve_total h = ground (arith, host_blocked-known)

  resolve_host-valid :
      (b : Bool) (p : ConnectPacket)
      → resolve_host regexes names resolver config packet b ≡ ok (valid p)
      → (b ≡ false)
        × ((addrs : List IpAddr) × (resolve_name names resolver packet.host ≡ some addrs)
            × (first_address names config.server.resolve_ipv6 config.stream packet addrs ≡ valid p))
  unfolding resolve_host
  resolve_host-valid b p h = ground arith

  host_passed :
      (p : ConnectPacket)
      → resolve regexes names resolver config cache packet ≡ ok (valid p)
      → host_blocked regexes cache packet ≡ ok false
  unfolding resolve wispnet_packet
  host_passed p h = ground (arith, host_blocked-known)

  admitted :
      (p : ConnectPacket)
      → resolve regexes names resolver config cache packet ≡ ok (valid p)
      → IsAdmitted regexes names config.stream cache packet
        × (resolve_host regexes names resolver config packet false ≡ ok (valid p))
  unfolding resolve wispnet_packet
  admitted p h =
      let lists = host_blocked-false packet.stream_type refl (host_passed p h) in
      (
        record {
          known = ground arith;
          udp_allowed = ground arith;
          port = ground arith;
          literal = ground arith;
          tcp_host = lists.0;
          udp_host = lists.1;
          any_host = lists.2;
        },
        ground (arith, host_blocked-known),
      )

  -- A request that is answered with an address is not of an unknown type, nor of UDP where that is
  -- not allowed, nor blocked by its port, by being a literal address or by its host's name, where the
  -- lists that allow only make exceptions to those that block. The address is the first of the
  -- resolver's answer that the filter for IPv6 keeps. Its class is one that the configuration permits,
  -- link-local addresses of IPv6 being no global ones, but for this case: such an address where global
  -- ones are allowed and others are not. And of the request only the host has been replaced, by the
  -- text of that address.
  pub resolve-valid :
      (p : ConnectPacket)
      → resolve regexes names resolver config cache packet ≡ ok (valid p)
      → IsAdmitted regexes names config.stream cache packet
        × ((addrs : List IpAddr) × (resolve_name names resolver packet.host ≡ some addrs)
            × (addr : IpAddr) × IsFirst config.server.resolve_ipv6 addrs addr
            × (IsPermitted config.stream addr ⊎ SlipsThrough config.stream addr)
            × (p ≡ record packet { host = names.to_string addr }))
  resolve-valid p h =
      let (adm, e) = admitted p h in
      let (_, (addrs, ea, ef)) = resolve_host-valid false p e in
      let (addr, first, fine, e_host) =
        first_address-valid names config.server.resolve_ipv6 config.stream packet p addrs ef in
      (adm, (addrs, ea, addr, first, fine, e_host))
