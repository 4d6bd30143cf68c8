-- ===== src/Server/Resolve/Connect/Checked.antt =====
-- A request from its arrival to its socket.
use mathlib.Core.Path.{subst}
use epoxy_tls.Base.{refl, ◌⊎◌, ◌&&◌, not, ℕ, ◌≡◌, arith, false, some, ap, ◌∙◌, ◌⊎◌}
use epoxy_tls.Packet.Kinds.{StreamType, tcp, udp, other}
use epoxy_tls.Packet.Codec.{ConnectPacket}
use epoxy_tls.Server.Anyhow.{bind-ok, ok, try, try-ok, ok-injective}
use epoxy_tls.Server.Address.{IpAddr}
use epoxy_tls.Server.Config.{Config, StreamConfig}
use epoxy_tls.Server.Resolve.{
  Regexes, Names, Resolver, ConfigCache, resolve, valid, is_other, is_udp,
}
use epoxy_tls.Server.Resolve.Allowed.{IsPermitted, SlipsThrough, resolve-valid}
use epoxy_tls.Server.Resolve.Connect.{
  Sockets, ClientStream, tcp_stream, udp_socket, bind_addr, with_nodelay, connect, connect_tcp,
  connect_udp, connect_as,
}

-- The socket of this type of stream was opened towards this address and port; a result that is no
-- socket is none.
abbrev pub Opened :
    (sockets : Sockets) (MuxStream : Type 0) (names : Names) (c : StreamConfig)
    → ClientStream sockets MuxStream
    → StreamType
    → IpAddr × ℕ
    → Type 0
Opened sockets M names c (tcp_stream s) ty to =
    (ty ≡ tcp)
    × ((t : sockets.TcpStream) × (sockets.tcp_connect to ≡ some t)
        × (with_nodelay sockets M names c t ≡ ok s))
Opened sockets M names c (udp_socket s) ty to =
    (ty ≡ udp)
    × ((t : sockets.UdpSocket) × (sockets.bind (bind_addr to.0) ≡ some t)
        × (sockets.udp_connect t to ≡ some s))
Opened sockets M names c _ ty to = ⊥

module _ {LevelFilter : Type 0} (regexes : Regexes) (names : Names) (resolver : Resolver)
    (config : Config LevelFilter) (cache : ConfigCache regexes) (sockets : Sockets)
    (MuxStream : Type 0) where
  connect_tcp-Opened :
      (p : ConnectPacket) (addr : IpAddr) (s : ClientStream sockets MuxStream)
      → names.from_str p.host ≡ some addr
      → connect_tcp sockets MuxStream names config.stream p ≡ ok s
      → Opened sockets MuxStream names config.stream s tcp (addr, p.port)
  unfolding connect_tcp
  connect_tcp-Opened p addr s e h =
      let (a, e1, h1) = bind-ok (try (names.from_str p.host)) _ h in
      let same : a ≡ addr = ground (arith, try-ok (names.from_str p.host) e1) in
      let (t, e2, h2) = bind-ok (try (sockets.tcp_connect (a, p.port))) _ h1 in
      let (t', e3, h3) = bind-ok (with_nodelay sockets MuxStream names config.stream t) _ h2 in
      rw (← ok-injective (tcp_stream t') s h3, ← same)
        (refl, (t, try-ok (sockets.tcp_connect (a, p.port)) e2, e3))

  connect_udp-Opened :
      (p : ConnectPacket) (addr : IpAddr) (s : ClientStream sockets MuxStream)
      → names.from_str p.host ≡ some addr
      → connect_udp sockets MuxStream names config.stream p ≡ ok s
      → Opened sockets MuxStream names config.stream s udp (addr, p.port)
  unfolding connect_udp
  connect_udp-Opened p addr s e h =
      let (a, e1, h1) = bind-ok (try (names.from_str p.host)) _ h in
      let same : a ≡ addr = ground (arith, try-ok (names.from_str p.host) e1) in
      let (t, e2, h2) = bind-ok (try (sockets.bind (bind_addr a))) _ h1 in
      let (t', e3, h3) = bind-ok (try (sockets.udp_connect t (a, p.port))) _ h2 in
      rw (← ok-injective (udp_socket t') s h3, ← same)
        (
          refl,
          (
            t,
            try-ok (sockets.bind (bind_addr a)) e2,
            try-ok (sockets.udp_connect t (a, p.port)) e3,
          ),
        )

  connect_as-Opened :
      (ty : StreamType) (p : ConnectPacket) (addr : IpAddr) (s : ClientStream sockets MuxStream)
      → names.from_str p.host ≡ some addr
      → is_other ty ≡ false
      → (is_udp ty && not config.stream.allow_udp) ≡ false
      → connect_as sockets MuxStream names config.stream ty p ≡ ok s
      → Opened sockets MuxStream names config.stream s ty (addr, p.port)
  unfolding connect_as
  connect_as-Opened tcp p addr s e known udp_ok h = connect_tcp-Opened p addr s e h
  connect_as-Opened udp p addr s e known udp_ok h = connect_udp-Opened p addr s e (ground arith)
  connect_as-Opened (other b) p addr s e known udp_ok h = absurd (ground arith)

  -- A request that was resolved and then connected has a TCP socket if it asked for TCP and a UDP
  -- socket if it asked for UDP, which was opened towards the requested port of an address. Its class
  -- is one that the configuration permits, link-local addresses of IPv6 being no global ones, but for
  -- this case: such an address where global ones are allowed and others are not.
  pub connect-resolve :
      (packet p : ConnectPacket) (s : ClientStream sockets MuxStream)
      → resolve regexes names resolver config cache packet ≡ ok (valid p)
      → connect sockets MuxStream names config.stream p ≡ ok s
      → (addr : IpAddr) × (IsPermitted config.stream addr ⊎ SlipsThrough config.stream addr)
        × Opened sockets MuxStream names config.stream s packet.stream_type (addr, packet.port)
  unfolding connect
  connect-resolve packet p s h k =
      let (adm, (addrs, ea, addr, first, fine, e)) =
        resolve-valid regexes names resolver config cache packet p h in
      let read : names.from_str p.host ≡ some addr =
        ap (λ q. names.from_str q.host) e ∙ names.from_str-to_string addr in
      (
        addr,
        fine,
        subst
            (λ (q : StreamType × ℕ). Opened sockets MuxStream names config.stream s q.0 (addr, q.1))
            (ap (λ q. (q.stream_type, q.port)) e)
            (connect_as-Opened p.stream_type p addr s read
              (ap (λ q. is_other q.stream_type) e ∙ adm.known)
              (ap (λ q. is_udp q.stream_type && not config.stream.allow_udp) e ∙ adm.udp_allowed)
              k),
      )
