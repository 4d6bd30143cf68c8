-- ===== src/Server/Proxy/Permitted.antt =====
-- The legacy proxy keeps to the same limits.
use mathlib.Core.Path.{subst}
use epoxy_tls.Base.{
  if◌then◌else◌, [], ap, ◌∷◌, inl, inr, ◌⊎◌, ◌≢◌, ℕ, ◌≡◌, refl, arith, Bool, true, false, not, ◌&&◌,
  List, Option, none, some, sym,
}
use epoxy_tls.Bytes.Utf8.{Text}
use epoxy_tls.Packet.Kinds.{StreamType, tcp, udp}
use epoxy_tls.Packet.Codec.{ConnectPacket}
use epoxy_tls.Server.Anyhow.{◌>>=◌, Anyhow, ok, error, panic, bind-ok, try, ok-injective}
use epoxy_tls.Server.Address.{IpAddr}
use epoxy_tls.Server.Config.{Config, has_wispnet}
use epoxy_tls.Server.Resolve.{
  no_resolved_addrs, blocked, invalid, Regexes, Names, Resolver, ConfigCache, resolve,
  ResolvedPacket, valid, valid_wispnet, check_address, resolve_host, first_address, resolve_name,
  host_blocked,
}
use epoxy_tls.Server.Resolve.Allowed.{IsPermitted, SlipsThrough}
use epoxy_tls.Server.Resolve.Connect.{Sockets, ClientStream, connect}
use epoxy_tls.Server.Resolve.Connect.Checked.{Opened, connect-resolve}
use epoxy_tls.Server.Wispnet.{WispnetServers}
use epoxy_tls.Server.Clients.{StreamPair}
use epoxy_tls.Server.Proxy.Path.{proxy_request-Names}
use epoxy_tls.Server.Proxy.Path
use epoxy_tls.Server.Proxy.{
  proxied, proxy_request, proxy_resolved, proxy_stream, attached, proxy_packet,
}

module _ {LevelFilter ClientMux MuxStream : Type 0} (regexes : Regexes) (names : Names)
    (resolver : Resolver) (config : Config LevelFilter) (cache : ConfigCache regexes)
    (sockets : Sockets) (new_stream : ClientMux → StreamType → Text → ℕ → Option MuxStream)
    (servers : WispnetServers ClientMux) where
  attached-proxied :
      (requested resolved : ConnectPacket) (m : Anyhow (ClientStream sockets MuxStream))
      (pair : StreamPair) (s : ClientStream sockets MuxStream)
      → attached requested resolved m ≡ proxied pair s
      → (m ≡ ok s) × (pair ≡ record { requested = requested; resolved = resolved })
  attached-proxied requested resolved m pair s h = ground arith

  check_address-wispnet :
      (packet p : ConnectPacket) (addr : IpAddr) (n : ℕ)
      → check_address names config.stream packet addr ≢ valid_wispnet n p
  unfolding check_address
  check_address-wispnet packet p addr n h = ground arith

  first_address-wispnet :
      (packet p : ConnectPacket) (addrs : List IpAddr) (n : ℕ)
      → first_address names config.server.resolve_ipv6 config.stream packet addrs
        ≢ valid_wispnet n p
  unfolding first_address
  first_address-wispnet packet p [] n h = cc
  first_address-wispnet packet p (addr ∷ addrs) n h =
      ground (arith, check_address-wispnet packet p addr n, first_address-wispnet packet p addrs n)

  resolve_host-wispnet :
      (packet p : ConnectPacket) (b : Bool) (n : ℕ)
      → resolve_host regexes names resolver config packet b ≢ ok (valid_wispnet n p)
  unfolding resolve_host
  resolve_host-wispnet packet p true n h = ground arith
  resolve_host-wispnet packet p false n h =
      let (addrs, _, e) = bind-ok (try (resolve_name names resolver packet.host)) _ h in
      first_address-wispnet packet p addrs n (ok-injective _ _ e)

  tested_host-wispnet :
      (packet p : ConnectPacket) (m : Anyhow Bool) (n : ℕ)
      → (m >>= resolve_host regexes names resolver config packet) ≢ ok (valid_wispnet n p)
  tested_host-wispnet packet p (ok b) n h = resolve_host-wispnet packet p b n h
  tested_host-wispnet packet p error n h = cc
  tested_host-wispnet packet p panic n h = cc

  resolve-wispnet :
      (packet p : ConnectPacket) (n : ℕ)
      → has_wispnet config.wisp ≡ false
      → resolve regexes names resolver config cache packet ≢ ok (valid_wispnet n p)
  unfolding resolve
  resolve-wispnet packet p n w h =
      ground (arith, tested_host-wispnet packet p (host_blocked regexes cache packet) n)

  -- A request that was connected had been resolved to an address or to a wispnet client.
  proxy_resolved-proxied :
      (packet : ConnectPacket) (m : Anyhow ResolvedPacket) (pair : StreamPair)
      (s : ClientStream sockets MuxStream)
      → proxy_resolved regexes names resolver config cache sockets new_stream servers packet m
        ≡ proxied pair s
      → ((p : ConnectPacket) × (m ≡ ok (valid p))
          × (connect sockets MuxStream names config.stream p ≡ ok s)
          × (pair.requested ≡ packet))
        ⊎ ((n : ℕ) × (p : ConnectPacket) × (m ≡ ok (valid_wispnet n p)))
  unfolding proxy_resolved
  proxy_resolved-proxied packet (ok (valid p)) pair s h =
      let (e, k) =
        attached-proxied packet p (connect sockets MuxStream names config.stream p) pair s h in
      inl (p, refl, e, ap (λ q. q.requested) k)
  proxy_resolved-proxied packet (ok (valid_wispnet n p)) pair s h = inr (n, p, refl)
  proxy_resolved-proxied packet (ok no_resolved_addrs) pair s h = absurd (ground arith)
  proxy_resolved-proxied packet (ok blocked) pair s h = absurd (ground arith)
  proxy_resolved-proxied packet (ok invalid) pair s h = absurd (ground arith)
  proxy_resolved-proxied packet error pair s h = absurd (ground arith)
  proxy_resolved-proxied packet panic pair s h = absurd (ground arith)

  proxy_packet-IsPermitted :
      (request : Option ConnectPacket) (pair : StreamPair) (s : ClientStream sockets MuxStream)
      → has_wispnet config.wisp ≡ false
      → proxy_packet regexes names resolver config cache sockets new_stream servers request
        ≡ proxied pair s
      → (request ≡ some pair.requested)
        × ((addr : IpAddr) × (IsPermitted config.stream addr ⊎ SlipsThrough config.stream addr)
            × Opened sockets MuxStream names config.stream s pair.requested.stream_type
                (addr, pair.requested.port))
  unfolding proxy_packet
  proxy_packet-IsPermitted none pair s w h = absurd (ground arith)
  proxy_packet-IsPermitted (some packet) pair s w h =
      elim (proxy_resolved-proxied packet (resolve regexes names resolver config cache packet) pair
        s h) [
          | inl (p, e, k, q) ↦
              let (addr, fine, o) =
                connect-resolve regexes names resolver config cache sockets MuxStream packet p s e
                  k in
              (
                ap some (sym q),
                (
                  addr,
                  fine,
                  subst
                      (λ (r : ConnectPacket).
                        Opened sockets MuxStream names config.stream s r.stream_type (addr, r.port))
                      (sym q) o,
                ),
              )
          | inr (n, p, e) ↦ absurd (resolve-wispnet packet p n w e)
        ]

  -- Without wispnet, a stream that the legacy proxy connects is for the host and the port that the
  -- last part of its path names as `host:port`, of UDP exactly if that was asked for, which the
  -- configuration then allows here. Its socket, of that kind, was opened towards that port of an
  -- address. The class of the address is one that the configuration permits, link-local addresses of
  -- IPv6 being no global ones, but for this case: such an address where global ones are allowed and
  -- others are not.
  pub proxy_stream-IsPermitted :
      (path : Text) (udp_ : Bool) (pair : StreamPair) (s : ClientStream sockets MuxStream)
      → has_wispnet config.wisp ≡ false
      → proxy_stream regexes names resolver config cache sockets new_stream servers path udp_
        ≡ proxied pair s
      → Path.Names path udp_ pair.requested
        × ((udp_ && not config.stream.allow_wsproxy_udp) ≡ false)
        × ((addr : IpAddr) × (IsPermitted config.stream addr ⊎ SlipsThrough config.stream addr)
            × Opened sockets MuxStream names config.stream s
                (if udp_ then udp else tcp)
                (addr, pair.requested.port))
  unfolding proxy_stream
  proxy_stream-IsPermitted path udp_ pair s w h =
      let quiet : (udp_ && not config.stream.allow_wsproxy_udp) ≡ false = ground arith in
      let (e, (addr, fine, o)) =
        proxy_packet-IsPermitted (proxy_request path udp_) pair s w (ground arith) in
      let named = proxy_request-Names path udp_ pair.requested e in
      let (_, _, _, _, _, kind) = named in
      (
        named,
        quiet,
        (
          addr,
          fine,
          subst
              (λ ty. Opened sockets MuxStream names config.stream s ty (addr, pair.requested.port))
              kind o,
        ),
      )
