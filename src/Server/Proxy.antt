-- ===== src/Server/Proxy.antt =====
-- server/src/handle/wsproxy.rs: the legacy proxy, one stream per websocket, whose path names the
-- host and the port.
pub mod Permitted
pub mod Path
use epoxy_tls.Base.{
  ℕ, Bool, true, false, not, ◌&&◌, List, [], ◌∷◌, ◌++◌, Option, none, some, if◌then◌else◌, codes,
}
use epoxy_tls.Bytes.{Payload}
use epoxy_tls.Bytes.Utf8.{Text}
use epoxy_tls.Packet.Kinds.{StreamType, tcp, udp}
use epoxy_tls.Packet.Codec.{ConnectPacket}
use epoxy_tls.Server.Anyhow.{Anyhow, ok, error, panic}
use epoxy_tls.Server.Config.{Config}
use epoxy_tls.Server.Config.Ports.{parse_u16}
use epoxy_tls.Server.Resolve.{
  Regexes, Names, Resolver, ConfigCache, resolve, ResolvedPacket, valid, valid_wispnet,
  no_resolved_addrs, blocked, invalid,
}
use epoxy_tls.Server.Resolve.Connect.{
  Sockets, ClientStream, tcp_stream, udp_socket, wispnet_stream, no_resolved_stream, blocked_stream,
  invalid_stream, connect,
}
use epoxy_tls.Server.Wispnet.{WispnetServers, route_wispnet}
use epoxy_tls.Server.Clients.{StreamPair, Action, stream_in, stream_out}
use epoxy_tls.Server.Http.{split_parts, and_then}

-- The codes of tokio-websockets that the proxy closes with.
pub data CloseCode : Type 0 where
  normal_closure policy_violation internal_server_error : CloseCode

-- A connected stream, or how the websocket was closed instead.
pub data Proxied (Stream : Type 0) : Type 0 where
  proxied : StreamPair → Stream → Proxied Stream
  closed : CloseCode → Text → Proxied Stream
  aborted : Proxied Stream

-- `split(sep).next_back()`
abbrev pub last_part : Text → List Text → Text
last_part part [] = part
last_part part (p ∷ parts) = last_part p parts

abbrev second_part : List Text → Option Text
second_part [] = none
second_part (p ∷ parts) = some p

-- The host and the text of the port, from the path's last part.
abbrev pub host_and_port : Text × List Text → Text × Option Text
host_and_port (host, parts) = (host, second_part parts)

abbrev pub path_end : Text × List Text → Text
path_end (part, parts) = last_part part parts

abbrev pub with_port : Bool → Text → ℕ → ConnectPacket
with_port udp_ host port = record {
  stream_type = if udp_ then udp else tcp;
  host = host;
  port = port;
}

abbrev pub packet_of : Bool → Text × Option Text → Option ConnectPacket
packet_of udp_ (host, port) = and_then (and_then port parse_u16) (λ n. some (with_port udp_ host n))

-- The request that a path stands for; `none` where its port is missing or not a number.
unfoldable pub proxy_request : Text → Bool → Option ConnectPacket
proxy_request path udp_ =
    packet_of udp_ (host_and_port (split_parts b':' (path_end (split_parts b'/' path))))

abbrev pub attached :
    {Stream : Type 0} → ConnectPacket → ConnectPacket → Anyhow Stream → Proxied Stream
attached requested resolved (ok stream) =
    proxied (record { requested = requested; resolved = resolved }) stream
attached requested resolved error = closed internal_server_error (codes "failed to connect to host")
attached requested resolved panic = aborted

module _ {LevelFilter ClientMux MuxStream : Type 0} (regexes : Regexes) (names : Names)
    (resolver : Resolver) (config : Config LevelFilter) (cache : ConfigCache regexes)
    (sockets : Sockets) (new_stream : ClientMux → StreamType → Text → ℕ → Option MuxStream)
    (servers : WispnetServers ClientMux) where
  unfoldable pub proxy_resolved :
      ConnectPacket → Anyhow ResolvedPacket → Proxied (ClientStream sockets MuxStream)
  proxy_resolved requested (ok (valid packet)) =
      attached requested packet (connect sockets MuxStream names config.stream packet)
  proxy_resolved requested (ok (valid_wispnet server packet)) =
      attached requested packet (route_wispnet sockets new_stream servers server packet)
  proxy_resolved requested (ok no_resolved_addrs) =
      closed internal_server_error (codes "host did not resolve to any addrs")
  proxy_resolved requested (ok blocked) = closed policy_violation (codes "host is blocked")
  proxy_resolved requested (ok invalid) =
      closed policy_violation (codes "invalid host/port/type combination")
  proxy_resolved requested error = closed internal_server_error (codes "failed to resolve host")
  proxy_resolved requested panic = aborted

  unfoldable pub proxy_packet : Option ConnectPacket → Proxied (ClientStream sockets MuxStream)
  unfolding proxy_resolved
  proxy_packet none = closed policy_violation (codes "invalid port")
  proxy_packet (some packet) =
      proxy_resolved packet (resolve regexes names resolver config cache packet)

  -- From the path to the stream.
  unfoldable pub proxy_stream : Text → Bool → Proxied (ClientStream sockets MuxStream)
  unfolding proxy_request proxy_packet
  proxy_stream path udp_ =
      if udp_ && not config.stream.allow_wsproxy_udp
      then closed policy_violation (codes "udp is blocked")
      else proxy_packet (proxy_request path udp_)

-- How the websocket is closed after a stream, from the text of the error that ended the copy.
unfoldable pub proxy_close :
    {sockets : Sockets} {MuxStream : Type 0}
    → ClientStream sockets MuxStream
    → Option Text
    → CloseCode × Text
proxy_close no_resolved_stream ended =
    (internal_server_error, codes "host did not resolve to any addrs")
proxy_close blocked_stream ended = (policy_violation, codes "host is blocked")
proxy_close invalid_stream ended = (policy_violation, codes "host is invalid")
proxy_close _ none = (normal_closure, [])
proxy_close _ (some text) = (normal_closure, text)

-- The accesses to the table of clients. A server without the named client returns early.
unfoldable pub proxy_actions :
    {sockets : Sockets} {MuxStream : Type 0}
    → ℕ
    → ℕ
    → StreamPair
    → ClientStream sockets MuxStream
    → List Action
proxy_actions id uuid pair (wispnet_stream s mux_id) =
    stream_in id uuid pair
    ∷ stream_in mux_id uuid (record { requested = pair.resolved; resolved = pair.resolved })
    ∷ stream_out mux_id uuid
    ∷ stream_out id uuid
    ∷ []
proxy_actions id uuid pair no_resolved_stream = stream_in id uuid pair ∷ []
proxy_actions id uuid pair _ = stream_in id uuid pair ∷ stream_out id uuid ∷ []
