-- ===== src/Server/Resolve.antt =====
-- server/src/stream.rs, config.rs and main.rs: which connections a client may open, and where a
-- permitted one goes. The regex and base64 crates, the resolvers and the text form of addresses
-- are arguments. The build is one without `twisp`.
pub mod Allowed
pub mod Whitelist
pub mod Connect
use epoxy_tls.Base.{
  ℕ, ◌+◌, Bool, true, false, not, ◌&&◌, ◌||◌, List, [], ◌∷◌, ◌++◌, length, drop, Option, none, some,
  leb, ◌==◌, list_eq, if◌then◌else◌, codes, ◌≡◌,
}
use epoxy_tls.Bytes.{Payload}
use epoxy_tls.Bytes.Utf8.{Text, is_utf8}
use epoxy_tls.Packet.Kinds.{StreamType, tcp, udp, other}
use epoxy_tls.Packet.Codec.{ConnectPacket}
use epoxy_tls.Server.Texts.{is_some, ends_with, split_next}
use epoxy_tls.Server.Anyhow.{Anyhow, ok, error, panic, ◌>>=◌, try, unwrap}
use epoxy_tls.Server.Address.{IpAddr, v4, v6, is_loopback, is_multicast, is_global}
use epoxy_tls.Server.Config.{StreamConfig, Config, has_wispnet}
use epoxy_tls.Server.Config.Ports.{parse_uint, cached_ports, any_contains}

pub record Regexes : Type 1 where
  pub RegexSet : Type 0
  -- `RegexSet::new`, which refuses an invalid expression.
  pub new : List Text → Option RegexSet
  pub is_match : RegexSet → Text → Bool
  -- A set of no expressions matches nothing.
  pub is_match_empty : (r : RegexSet) → new [] ≡ some r → (t : Text) → is_match r t ≡ false

pub record Names : Type 0 where
  -- `BASE64_STANDARD.decode`
  pub decode : Text → Option Payload
  -- `IpAddr::from_str` and `IpAddr::to_string`
  pub from_str : Text → Option IpAddr
  pub to_string : IpAddr → Text
  -- hickory's `lookup_ip` and tokio's `lookup_host`
  pub lookup_ip : Text → Option (List IpAddr)
  pub lookup_host : Text → Option (List IpAddr)
  -- An address is read from its own text.
  pub from_str-to_string : (a : IpAddr) → from_str (to_string a) ≡ some a

pub data Resolver : Type 0 where
  hickory system : Resolver

pub data ResolvedPacket : Type 0 where
  valid : ConnectPacket → ResolvedPacket
  valid_wispnet : ℕ → ConnectPacket → ResolvedPacket
  no_resolved_addrs : ResolvedPacket
  blocked : ResolvedPacket
  invalid : ResolvedPacket

abbrev pub is_ipv4 : IpAddr → Bool
is_ipv4 (v4 x) = true
is_ipv4 (v6 x) = false

abbrev pub is_udp : StreamType → Bool
is_udp udp = true
is_udp tcp = false
is_udp (other b) = false

abbrev pub is_other : StreamType → Bool
is_other (other b) = true
is_other tcp = false
is_other udp = false

abbrev pub wisp_suffix : Text
wisp_suffix = codes ".wisp"

-- `u32::from_str(&String::from_utf8(decoded)?)?`
unfoldable pub parse_server_id : Payload → Option ℕ
parse_server_id decoded = if is_utf8 decoded then parse_uint 4294967296 decoded else none

unfoldable pub wispnet_packet : Names → ConnectPacket → Anyhow ResolvedPacket
unfolding parse_server_id
wispnet_packet names packet = do
  decoded ← try (names.decode (split_next wisp_suffix packet.host))
  server_id ← try (parse_server_id decoded)
  ok (valid_wispnet server_id packet)

-- `Resolver::resolve`
unfoldable pub resolve_name : Names → Resolver → Text → Option (List IpAddr)
resolve_name names hickory host = names.lookup_ip host
resolve_name names system host = names.lookup_host (host ++ codes ":0")

-- The verdict on one address.
unfoldable pub check_address : Names → StreamConfig → ConnectPacket → IpAddr → ResolvedPacket
check_address names c packet addr =
    if is_loopback addr && not c.allow_loopback
    then blocked
    else if is_multicast addr && not c.allow_multicast
    then blocked
    else if (is_global addr && not c.allow_global)
        || (not (is_global addr) && not c.allow_non_global)
    then blocked
    else valid (record {
      stream_type = packet.stream_type;
      host = names.to_string addr;
      port = packet.port;
    })

-- `.filter(…).map(…).next()`: the verdict on the first address that is not filtered out.
unfoldable pub first_address :
    Names → Bool → StreamConfig → ConnectPacket → List IpAddr → ResolvedPacket
unfolding check_address
first_address names resolve_ipv6 c packet [] = no_resolved_addrs
first_address names resolve_ipv6 c packet (addr ∷ addrs) =
    if resolve_ipv6 || is_ipv4 addr
    then check_address names c packet addr
    else first_address names resolve_ipv6 c packet addrs

module _ (regexes : Regexes) where
  pub record ConfigCache : Type 0 where
    pub blocked_ports : List (ℕ × ℕ)
    pub allowed_ports : List (ℕ × ℕ)
    pub allowed_hosts : regexes.RegexSet
    pub blocked_hosts : regexes.RegexSet
    pub allowed_tcp_hosts : regexes.RegexSet
    pub blocked_tcp_hosts : regexes.RegexSet
    pub allowed_udp_hosts : regexes.RegexSet
    pub blocked_udp_hosts : regexes.RegexSet

  -- `CONFIG_CACHE`
  unfoldable pub config_cache : StreamConfig → Anyhow ConfigCache
  config_cache c = do
    allowed_ports ← unwrap (cached_ports c.allow_ports)
    blocked_ports ← unwrap (cached_ports c.block_ports)
    allowed_hosts ← unwrap (regexes.new c.allow_hosts)
    blocked_hosts ← unwrap (regexes.new c.block_hosts)
    allowed_tcp_hosts ← unwrap (regexes.new c.allow_tcp_hosts)
    blocked_tcp_hosts ← unwrap (regexes.new c.block_tcp_hosts)
    allowed_udp_hosts ← unwrap (regexes.new c.allow_udp_hosts)
    blocked_udp_hosts ← unwrap (regexes.new c.block_udp_hosts)
    ok (record {
      blocked_ports = blocked_ports;
      allowed_ports = allowed_ports;
      allowed_hosts = allowed_hosts;
      blocked_hosts = blocked_hosts;
      allowed_tcp_hosts = allowed_tcp_hosts;
      blocked_tcp_hosts = blocked_tcp_hosts;
      allowed_udp_hosts = allowed_udp_hosts;
      blocked_udp_hosts = blocked_udp_hosts;
    })

  unfoldable pub match_addr : Text → regexes.RegexSet → regexes.RegexSet → Bool
  match_addr str allowed_ blocked_ =
      regexes.is_match blocked_ str && not (regexes.is_match allowed_ str)

  unfoldable pub allowed_set : ConfigCache → StreamType → Anyhow regexes.RegexSet
  allowed_set cache tcp = ok cache.allowed_tcp_hosts
  allowed_set cache udp = ok cache.allowed_udp_hosts
  allowed_set cache (other b) = panic

  unfoldable pub blocked_set : ConfigCache → StreamType → Anyhow regexes.RegexSet
  blocked_set cache tcp = ok cache.blocked_tcp_hosts
  blocked_set cache udp = ok cache.blocked_udp_hosts
  blocked_set cache (other b) = panic

  -- The two tests of the host's name.
  unfoldable pub host_blocked : ConfigCache → ConnectPacket → Anyhow Bool
  unfolding match_addr allowed_set blocked_set
  host_blocked cache packet = do
    allowed_ ← allowed_set cache packet.stream_type
    blocked_ ← blocked_set cache packet.stream_type
    ok (
        match_addr packet.host allowed_ blocked_
        || (match_addr packet.host cache.allowed_hosts cache.blocked_hosts
            && not (regexes.is_match allowed_ packet.host)))

  -- From the lookup on.
  unfoldable pub resolve_host :
      {LevelFilter : Type 0}
      → Names
      → Resolver
      → Config LevelFilter
      → ConnectPacket
      → Bool
      → Anyhow ResolvedPacket
  unfolding first_address resolve_name
  resolve_host names resolver config packet true = ok blocked
  resolve_host names resolver config packet false = do
    addrs ← try (resolve_name names resolver packet.host)
    ok (first_address names config.server.resolve_ipv6 config.stream packet addrs)

  unfoldable pub resolve :
      {LevelFilter : Type 0}
      → Names
      → Resolver
      → Config LevelFilter
      → ConfigCache
      → ConnectPacket
      → Anyhow ResolvedPacket
  unfolding wispnet_packet host_blocked resolve_host
  resolve names resolver config cache packet =
      if has_wispnet config.wisp && ends_with packet.host wisp_suffix
      then wispnet_packet names packet
      else if is_other packet.stream_type
      then ok invalid
      else if not config.stream.allow_udp && is_udp packet.stream_type
      then ok blocked
      else if any_contains cache.blocked_ports packet.port
          && not (any_contains cache.allowed_ports packet.port)
      then ok blocked
      else if is_some (names.from_str packet.host) && not config.stream.allow_direct_ip
      then ok blocked
      else (host_blocked cache packet >>= resolve_host names resolver config packet)
