-- ===== src/Server/Wispnet.antt =====
-- server/src/handle/wisp/wispnet.rs: clients that serve streams to other clients. `WISPNET_SERVERS`
-- is a list of them by number; a `HashMap` gives its entries in some order, here the list's.
pub mod Probe
use epoxy_tls.Base.{
  ℕ, ◌+◌, ◌%◌, Bool, true, false, not, List, [], ◌∷◌, Option, none, some, length, ltb, ◌==◌,
  if◌then◌else◌, lookup, remove, insert, Outcome, ok, err, panic, ◌>>=◌, packet_too_small,
  invalid_stream_id,
}
use epoxy_tls.Bytes.{Buf, Payload, put_u8, put_u32_le, get_u8, get_u32_le}
use epoxy_tls.Bytes.Utf8.{Text}
use epoxy_tls.Packet.Kinds.{StreamType}
use epoxy_tls.Packet.Codec.{ConnectPacket}
use epoxy_tls.Server.Anyhow.{Anyhow, try}
use epoxy_tls.Server.Resolve.Connect.{Sockets, ClientStream, wispnet_stream, no_resolved_stream}

abbrev pub wispnet_id : ℕ
wispnet_id = 0xf1

-- The number that the server gave, and whether the client asked to stay private.
pub record WispnetServerProtocolExtension : Type 0 where
  pub net_id : ℕ
  pub is_private : Bool

pub record WispnetClient (ClientMux : Type 0) : Type 0 where
  pub mux : ClientMux
  pub id : ℕ
  pub private : Bool

abbrev pub WispnetServers : Type 0 → Type 0
WispnetServers ClientMux = List (ℕ × WispnetClient ClientMux)

module _ ⦃buf : Buf⦄ where
  unfoldable pub wispnet_build_from_bytes : ℕ → Payload → Outcome WispnetServerProtocolExtension
  wispnet_build_from_bytes net_id bytes =
      if ltb (length bytes) 1
      then err packet_too_small
      else (get_u8 bytes >>= λ (flag, rest).
          ok (record { net_id = net_id; is_private = not (flag == 0) }))

  unfoldable pub wispnet_build_to_extension : ℕ → Outcome WispnetServerProtocolExtension
  wispnet_build_to_extension net_id = ok (record { net_id = net_id; is_private = false })

  unfoldable pub wispnet_encode : WispnetServerProtocolExtension → Payload
  wispnet_encode e = put_u32_le [] e.net_id

  module _ {ClientMux : Type 0} where
    -- The loop over the table, behind what was written before.
    unfoldable pub put_public : WispnetServers ClientMux → Payload → Payload
    put_public [] out = out
    put_public ((net_id, client) ∷ clients) out =
        put_public clients (if client.private then out else put_u32_le out net_id)

    unfoldable pub check_probe : WispnetServers ClientMux → ℕ × Payload → Outcome Payload
    unfolding put_public
    check_probe servers (id, rest) =
        if id == 0
        then ok (put_public servers (put_u32_le (put_u8 [] wispnet_id) 0))
        else err (invalid_stream_id id)

    -- The frame that is sent, if one is; `none` where the packet is of another type.
    unfoldable pub wispnet_handle_packet :
        WispnetServers ClientMux → ℕ → Payload → Outcome (Option Payload)
    unfolding check_probe
    wispnet_handle_packet servers packet_type packet =
        if packet_type == wispnet_id
        then if ltb (length packet) 4
          then err packet_too_small
          else (get_u32_le packet >>= λ p. check_probe servers p >>= λ out. ok (some out))
        else ok none

module _ {ClientMux MuxStream : Type 0} (sockets : Sockets)
    (new_stream : ClientMux → StreamType → Text → ℕ → Option MuxStream) where
  abbrev pub through :
      Option (WispnetClient ClientMux) → ConnectPacket → Anyhow (ClientStream sockets MuxStream)
  through none packet = Anyhow.ok no_resolved_stream
  through (some server) packet =
      elim (new_stream server.mux packet.stream_type packet.host packet.port) [
        | none ↦ Anyhow.error
        | some stream ↦ Anyhow.ok (wispnet_stream stream server.id)
      ]

  unfoldable pub route_wispnet :
      WispnetServers ClientMux → ℕ → ConnectPacket → Anyhow (ClientStream sockets MuxStream)
  route_wispnet servers server packet = through (lookup server servers) packet

-- `WISPNET_IDS.fetch_add(1)`: the number, and the counter afterwards.
unfoldable pub fetch_add : ℕ → ℕ × ℕ
fetch_add ids = (ids, (ids + 1) % 4294967296)

-- The table while a client is connected, from the counter and the table before.
unfoldable pub wispnet_connected :
    {ClientMux : Type 0}
    → ClientMux
    → ℕ
    → Bool
    → ℕ × WispnetServers ClientMux
    → ℕ × WispnetServers ClientMux
unfolding fetch_add
wispnet_connected mux id private (ids, servers) =
    let (net_id, ids') = fetch_add ids in
    (ids', insert net_id (record { mux = mux; id = id; private = private }) servers)

unfoldable pub wispnet_gone :
    {ClientMux : Type 0} → ℕ → WispnetServers ClientMux → WispnetServers ClientMux
wispnet_gone net_id servers = remove net_id servers
