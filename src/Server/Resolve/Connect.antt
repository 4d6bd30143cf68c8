-- ===== src/Server/Resolve/Connect.antt =====
-- server/src/stream.rs, `ClientStream::connect`: the socket of a resolved request. The sockets of
-- tokio are arguments.
pub mod Checked
use epoxy_tls.Base.{ℕ, Bool, Option, none, some, if◌then◌else◌, codes}
use epoxy_tls.Packet.Kinds.{StreamType, tcp, udp, other}
use epoxy_tls.Bytes.Utf8.{Text}
use epoxy_tls.Packet.Codec.{ConnectPacket}
use epoxy_tls.Server.Anyhow.{Anyhow, ok, ◌>>=◌, try}
use epoxy_tls.Server.Address.{IpAddr, v4, v6}
use epoxy_tls.Server.Config.{StreamConfig}
use epoxy_tls.Server.Resolve.{Names, is_ipv4}

pub record Sockets : Type 1 where
  pub TcpStream : Type 0
  pub UdpSocket : Type 0
  pub tcp_connect : IpAddr × ℕ → Option TcpStream
  pub set_nodelay : TcpStream → Option TcpStream
  pub bind : IpAddr × ℕ → Option UdpSocket
  pub udp_connect : UdpSocket → IpAddr × ℕ → Option UdpSocket

-- A wispnet stream is the value that its multiplexor gives, with the client that serves it.
pub data ClientStream (sockets : Sockets) (MuxStream : Type 0) : Type 0 where
  tcp_stream : sockets.TcpStream → ClientStream sockets MuxStream
  udp_socket : sockets.UdpSocket → ClientStream sockets MuxStream
  wispnet_stream : MuxStream → ℕ → ClientStream sockets MuxStream
  no_resolved_stream : ClientStream sockets MuxStream
  blocked_stream : ClientStream sockets MuxStream
  invalid_stream : ClientStream sockets MuxStream

abbrev unspecified_v4 : IpAddr
unspecified_v4 = v4 (record { a = 0; b = 0; c = 0; d = 0 })

abbrev unspecified_v6 : IpAddr
unspecified_v6 = v6 (record { s0 = 0; s1 = 0; s2 = 0; s3 = 0; s4 = 0; s5 = 0; s6 = 0; s7 = 0 })

-- The local address that a UDP socket towards this address is bound to.
abbrev pub bind_addr : IpAddr → IpAddr × ℕ
bind_addr ipaddr = if is_ipv4 ipaddr then (unspecified_v4, 0) else (unspecified_v6, 0)

module _ (sockets : Sockets) (MuxStream : Type 0) (names : Names) (c : StreamConfig) where
  unfoldable pub with_nodelay : sockets.TcpStream → Anyhow sockets.TcpStream
  with_nodelay stream = if c.tcp_nodelay then try (sockets.set_nodelay stream) else ok stream

  unfoldable pub connect_tcp : ConnectPacket → Anyhow (ClientStream sockets MuxStream)
  unfolding with_nodelay
  connect_tcp packet = do
    ipaddr ← try (names.from_str packet.host)
    stream ← try (sockets.tcp_connect (ipaddr, packet.port))
    stream' ← with_nodelay stream
    ok (tcp_stream stream')

  unfoldable pub connect_udp : ConnectPacket → Anyhow (ClientStream sockets MuxStream)
  connect_udp packet = do
    ipaddr ← try (names.from_str packet.host)
    socket ← try (sockets.bind (bind_addr ipaddr))
    stream ← try (sockets.udp_connect socket (ipaddr, packet.port))
    ok (udp_socket stream)

  -- The match on the stream type.
  unfoldable pub connect_as : StreamType → ConnectPacket → Anyhow (ClientStream sockets MuxStream)
  unfolding connect_tcp connect_udp
  connect_as tcp packet = connect_tcp packet
  connect_as udp packet = if c.allow_udp then connect_udp packet else ok blocked_stream
  connect_as (other b) packet = ok invalid_stream

  unfoldable pub connect : ConnectPacket → Anyhow (ClientStream sockets MuxStream)
  unfolding connect_as
  connect packet = connect_as packet.stream_type packet
