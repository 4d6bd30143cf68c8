-- ===== src/Server/Stats/Panic.antt =====
-- The stream types that the statistics can show.
use epoxy_tls.Base.{
  ℕ, ◌≡◌, ◌≢◌, refl, arith, true, false, List, [], ◌∷◌, Option, some, lookup, All, insert,
}
use epoxy_tls.Bytes.Utf8.{Text}
use epoxy_tls.Packet.Kinds.{StreamType, tcp, udp, other}
use epoxy_tls.Packet.Codec.{ConnectPacket}
use epoxy_tls.Server.Anyhow.{ok, panic}
use epoxy_tls.Server.Texts.{ends_with}
use epoxy_tls.Server.Config.{Config, has_wispnet}
use epoxy_tls.Server.Resolve.{
  Regexes, Names, Resolver, ConfigCache, resolve, wispnet_packet, valid_wispnet, wisp_suffix,
  is_other,
}
use epoxy_tls.Server.Resolve.Connect.{Sockets, ClientStream}
use epoxy_tls.Server.Wispnet.{WispnetServers, route_wispnet}
use epoxy_tls.Server.Clients.{StreamPair, Client, Clients, insert_stream}
use epoxy_tls.Server.Streams.{opened, resolve_stream}
use epoxy_tls.Server.Stats.{
  stream_stats, format_stream_type, all_streams, all_clients, generate_stats, ServerStats,
}

abbrev pub IsKnown : ℕ × StreamPair → Type 0
IsKnown (uuid, pair) = is_other pair.requested.stream_type ≡ false

abbrev pub HasKnown : ℕ × Client → Type 0
HasKnown (id, client) = All IsKnown client.streams

format_stream_type-known :
    (ty : StreamType) → is_other ty ≡ false → (t : Text) × (format_stream_type ty ≡ ok t)
unfolding format_stream_type
format_stream_type-known tcp h = (_, refl)
format_stream_type-known udp h = (_, refl)
format_stream_type-known (other b) h = absurd (ground arith)

all_streams_total :
    (streams : List (ℕ × StreamPair)) → All IsKnown streams → all_streams streams ≢ panic
unfolding all_streams stream_stats
all_streams_total [] h e = cc
all_streams_total ((uuid, pair) ∷ streams) (h, hs) e =
    let (t, et) = format_stream_type-known pair.requested.stream_type h in
    ground (arith, all_streams_total streams hs)

all_clients_total : (clients : Clients) → All HasKnown clients → all_clients clients ≢ panic
unfolding all_clients
all_clients_total [] h e = cc
all_clients_total ((id, client) ∷ clients) (h, hs) e =
    ground (arith, all_streams_total client.streams h, all_clients_total clients hs)

module _ {MemoryStats : Type 0} (memory : Option MemoryStats) (config_text : Option Text)
    (pretty : ServerStats MemoryStats → Option Text) where
  -- The statistics do not panic while every listed stream was requested as TCP or UDP.
  pub generate_stats_total :
      (clients : Clients)
      → All HasKnown clients
      → generate_stats memory config_text pretty clients ≢ panic
  unfolding generate_stats
  generate_stats_total clients h e = ground (arith, all_clients_total clients h)

format_stream_type-other : (ty : StreamType) → is_other ty ≡ true → format_stream_type ty ≡ panic
unfolding format_stream_type
format_stream_type-other tcp h = absurd (ground arith)
format_stream_type-other udp h = absurd (ground arith)
format_stream_type-other (other b) h = refl

module _ {LevelFilter ClientMux MuxStream MemoryStats : Type 0} (regexes : Regexes) (names : Names)
    (resolver : Resolver) (config : Config LevelFilter) (cache : ConfigCache regexes)
    (sockets : Sockets) (new_stream : ClientMux → StreamType → Text → ℕ → Option MuxStream)
    (servers : WispnetServers ClientMux) where
  -- With wispnet enabled, a request of an unknown stream type for a host under `.wisp` is connected
  -- if the client that serves the host takes it; the statistics panic as soon as it is listed.
  pub generate_stats-other :
      (memory : MemoryStats) (config_text : Option Text)
      (pretty : ServerStats MemoryStats → Option Text) (packet : ConnectPacket) (server : ℕ)
      (stream : ClientStream sockets MuxStream) (id uuid : ℕ) (clients : Clients) (client : Client)
      → has_wispnet config.wisp ≡ true
      → ends_with packet.host wisp_suffix ≡ true
      → wispnet_packet names packet ≡ ok (valid_wispnet server packet)
      → route_wispnet sockets new_stream servers server packet ≡ ok stream
      → is_other packet.stream_type ≡ true
      → lookup id clients ≡ some client
      → (resolve_stream regexes names resolver config cache sockets new_stream servers packet
          ≡ opened (record { requested = packet; resolved = packet }) stream)
        × (generate_stats
              (some memory)
              config_text
              pretty
              (insert_stream id uuid (record { requested = packet; resolved = packet }) clients)
            ≡ panic)
  unfolding resolve_stream resolve generate_stats all_clients all_streams stream_stats insert_stream
      insert
  generate_stats-other memory config_text pretty packet server stream id uuid clients client w e d r
        o l =
      (rw (w, e, d, r) refl, rw (l, format_stream_type-other packet.stream_type o) refl)
