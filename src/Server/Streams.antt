-- ===== src/Server/Streams.antt =====
-- server/src/handle/wisp/mod.rs: the streams of a client, from the request to the last access to
-- the table of clients.
pub mod Leak
use epoxy_tls.Base.{ℕ, Bool, true, false, List, [], ◌∷◌, ◌++◌, Option, none, some, if◌then◌else◌}
use epoxy_tls.Bytes.Utf8.{Text}
use epoxy_tls.Packet.Kinds.{
  StreamType, CloseReason, unknown, voluntary, unexpected, server_stream_invalid_info,
  server_stream_unreachable, server_stream_blocked_address,
}
use epoxy_tls.Packet.Codec.{ConnectPacket}
use epoxy_tls.Server.Anyhow.{Anyhow, ok, error, panic}
use epoxy_tls.Server.Config.{Config}
use epoxy_tls.Server.Resolve.{
  Regexes, Names, Resolver, ConfigCache, resolve, ResolvedPacket, valid, valid_wispnet,
  no_resolved_addrs, blocked, invalid,
}
use epoxy_tls.Server.Resolve.Connect.{
  Sockets, ClientStream, tcp_stream, udp_socket, wispnet_stream, no_resolved_stream, blocked_stream,
  invalid_stream, connect,
}
use epoxy_tls.Server.Wispnet.{WispnetServers, route_wispnet}
use epoxy_tls.Server.Clients.{StreamPair, Action, stream_in, stream_out}

-- What `resolve_stream` comes to: a stream with what was asked for and what it was resolved to, or
-- the reason that the multiplexor's stream was closed with.
pub data Requested (Stream : Type 0) : Type 0 where
  opened : StreamPair → Stream → Requested Stream
  refused : CloseReason → Requested Stream
  crashed : Requested Stream

-- A stream that was to be connected, for the request and its resolved form.
abbrev pub connected :
    {Stream : Type 0} → ConnectPacket → ConnectPacket → Anyhow Stream → Requested Stream
connected requested resolved (ok stream) =
    opened (record { requested = requested; resolved = resolved }) stream
connected requested resolved error = refused server_stream_unreachable
connected requested resolved panic = crashed

module _ {LevelFilter ClientMux MuxStream : Type 0} (regexes : Regexes) (names : Names)
    (resolver : Resolver) (config : Config LevelFilter) (cache : ConfigCache regexes)
    (sockets : Sockets) (new_stream : ClientMux → StreamType → Text → ℕ → Option MuxStream)
    (servers : WispnetServers ClientMux) where
  abbrev pub connect_resolved :
      ConnectPacket → Anyhow ResolvedPacket → Requested (ClientStream sockets MuxStream)
  connect_resolved requested (ok (valid packet)) =
      connected requested packet (connect sockets MuxStream names config.stream packet)
  connect_resolved requested (ok (valid_wispnet server packet)) =
      connected requested packet (route_wispnet sockets new_stream servers server packet)
  connect_resolved requested (ok no_resolved_addrs) = refused server_stream_unreachable
  connect_resolved requested (ok blocked) = refused server_stream_blocked_address
  connect_resolved requested (ok invalid) = refused server_stream_invalid_info
  connect_resolved requested error = refused server_stream_unreachable
  connect_resolved requested panic = crashed

  unfoldable pub resolve_stream : ConnectPacket → Requested (ClientStream sockets MuxStream)
  resolve_stream packet =
      connect_resolved packet (resolve regexes names resolver config cache packet)

abbrev unwrap_reason : Option CloseReason → CloseReason
unwrap_reason none = unknown
unwrap_reason (some reason) = reason

-- The reason that `forward_stream` closes with at its end, from whether the copy was fine and the
-- reason that the peer had given.
unfoldable pub forward_reason :
    {sockets : Sockets} {MuxStream : Type 0}
    → ClientStream sockets MuxStream
    → Bool
    → Option CloseReason
    → CloseReason
forward_reason (tcp_stream s) fine given = if fine then voluntary else unexpected
forward_reason (udp_socket s) fine given = if fine then voluntary else unexpected
forward_reason (wispnet_stream s id) fine given = unwrap_reason given
forward_reason no_resolved_stream fine given = server_stream_unreachable
forward_reason invalid_stream fine given = server_stream_invalid_info
forward_reason blocked_stream fine given = server_stream_blocked_address

-- How far `forward_stream` gets: the client's event stops it during the copy, or it ends.
pub data Progress : Type 0 where
  cancelled finished : Progress

-- The accesses of `forward_stream` to the table; those of a wispnet stream are for the client that
-- serves it. A cancelled future does nothing further.
unfoldable pub forward_stream :
    {sockets : Sockets} {MuxStream : Type 0}
    → ClientStream sockets MuxStream
    → ConnectPacket
    → ℕ
    → Progress
    → List Action
forward_stream (wispnet_stream s mux_id) resolved uuid finished =
    stream_in mux_id uuid (record { requested = resolved; resolved = resolved })
    ∷ stream_out mux_id uuid
    ∷ []
forward_stream (wispnet_stream s mux_id) resolved uuid cancelled =
    stream_in mux_id uuid (record { requested = resolved; resolved = resolved }) ∷ []
forward_stream _ resolved uuid progress = []

-- All accesses of `handle_stream`; without a result of `resolve_stream` there are none.
unfoldable pub handle_stream :
    {sockets : Sockets} {MuxStream : Type 0}
    → ℕ
    → ℕ
    → Requested (ClientStream sockets MuxStream)
    → Progress
    → List Action
unfolding forward_stream
handle_stream id uuid (opened pair stream) progress =
    stream_in id uuid pair
    ∷ (forward_stream stream pair.resolved uuid progress ++ (stream_out id uuid ∷ []))
handle_stream id uuid (refused reason) progress = []
handle_stream id uuid crashed progress = []
