-- ===== src/Server/Resolve/Whitelist.antt =====
-- The lists of allowed ports and hosts when nothing is blocked.
use epoxy_tls.Base.{◌≡◌, refl, arith, false, not, ◌&&◌, [], some, sym, ◌∙◌, ap}
use epoxy_tls.Packet.Kinds.{StreamType, tcp, udp, other}
use epoxy_tls.Packet.Codec.{ConnectPacket}
use epoxy_tls.Bytes.Utf8.{Text}
use epoxy_tls.Server.Anyhow.{ok}
use epoxy_tls.Server.Config.{StreamConfig}
use epoxy_tls.Server.Config.Ports.{any_contains, cached_ports}
use epoxy_tls.Server.Resolve.{
  Regexes, ConfigCache, config_cache, match_addr, allowed_set, blocked_set, host_blocked, is_other,
}

-- The four lists of what is blocked are empty.
pub record BlocksNothing (c : StreamConfig) : Type 0 where
  pub ports : c.block_ports ≡ []
  pub hosts : c.block_hosts ≡ []
  pub tcp_hosts : c.block_tcp_hosts ≡ []
  pub udp_hosts : c.block_udp_hosts ≡ []

module _ (regexes : Regexes) (c : StreamConfig) (cache : ConfigCache regexes) where
  -- The cache holds what was compiled from the configuration.
  cache_blocked :
      config_cache regexes c ≡ ok cache
      → (cached_ports c.block_ports ≡ some cache.blocked_ports)
        × (regexes.new c.block_hosts ≡ some cache.blocked_hosts)
        × (regexes.new c.block_tcp_hosts ≡ some cache.blocked_tcp_hosts)
        × (regexes.new c.block_udp_hosts ≡ some cache.blocked_udp_hosts)
  unfolding config_cache
  cache_blocked h = ground arith

  no_ports : config_cache regexes c ≡ ok cache → BlocksNothing c → cache.blocked_ports ≡ []
  unfolding cached_ports
  no_ports h e =
      let (p, _, _, _) = cache_blocked h in
      let q : cached_ports [] ≡ some cache.blocked_ports = sym (ap cached_ports e.ports) ∙ p in
      ground arith

  no_hosts :
      config_cache regexes c ≡ ok cache
      → BlocksNothing c
      → (t : Text) → regexes.is_match cache.blocked_hosts t ≡ false
  no_hosts h e t =
      let (_, q, _, _) = cache_blocked h in
      regexes.is_match_empty cache.blocked_hosts (sym (ap regexes.new e.hosts) ∙ q) t

  -- The sets of a known stream type, of which the one that blocks matches nothing.
  silent_sets :
      config_cache regexes c ≡ ok cache
      → BlocksNothing c
      → (ty : StreamType) → is_other ty ≡ false
      → (a : regexes.RegexSet) × (b : regexes.RegexSet) × (allowed_set regexes cache ty ≡ ok a)
        × (blocked_set regexes cache ty ≡ ok b)
        × ((t : Text) → regexes.is_match b t ≡ false)
  unfolding allowed_set blocked_set
  silent_sets h e tcp k =
      let (_, _, q, _) = cache_blocked h in
      (
        cache.allowed_tcp_hosts,
        cache.blocked_tcp_hosts,
        refl,
        refl,
        λ t.
            regexes.is_match_empty cache.blocked_tcp_hosts (sym (ap regexes.new e.tcp_hosts) ∙ q) t,
      )
  silent_sets h e udp k =
      let (_, _, _, q) = cache_blocked h in
      (
        cache.allowed_udp_hosts,
        cache.blocked_udp_hosts,
        refl,
        refl,
        λ t.
            regexes.is_match_empty cache.blocked_udp_hosts (sym (ap regexes.new e.udp_hosts) ∙ q) t,
      )
  silent_sets h e (other b) k = absurd (ground arith)

  -- While no port and no host is blocked, the lists of allowed ports and hosts restrict nothing:
  -- every TCP and UDP request passes the test of its port and the tests of its host's name.
  pub whitelist_inert :
      config_cache regexes c ≡ ok cache
      → BlocksNothing c
      → (packet : ConnectPacket) → is_other packet.stream_type ≡ false
      → ((any_contains cache.blocked_ports packet.port
            && not (any_contains cache.allowed_ports packet.port))
          ≡ false)
        × (host_blocked regexes cache packet ≡ ok false)
  unfolding host_blocked match_addr
  whitelist_inert h e packet k =
      let (a, b, ea, eb, quiet) = silent_sets h e packet.stream_type k in
      (rw (no_ports h e) refl, rw (ea, eb, quiet packet.host, no_hosts h e packet.host) refl)
