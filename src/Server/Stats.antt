-- ===== src/Server/Stats.antt =====
-- server/src/stats.rs: the statistics of the connected clients. The memory figures, the text of the
-- configuration and `serde_json` are arguments.
pub mod Panic
use epoxy_tls.Base.{ℕ, List, [], ◌∷◌, ◌++◌, Option, codes}
use epoxy_tls.Bytes.Utf8.{Text}
use epoxy_tls.Packet.Kinds.{StreamType, tcp, udp, other}
use epoxy_tls.Packet.Codec.{ConnectPacket}
use epoxy_tls.Server.Anyhow.{Anyhow, ok, panic, ◌>>=◌, try}
use epoxy_tls.Server.Config.Ports.Decimal.{decimal}
use epoxy_tls.Server.Clients.{StreamPair, Client, Clients}

unfoldable pub format_stream_type : StreamType → Anyhow Text
format_stream_type tcp = ok (codes "tcp")
format_stream_type udp = ok (codes "udp")
format_stream_type (other b) = panic

pub record StreamStats : Type 0 where
  pub stream_type : Text
  pub requested : Text
  pub resolved : Text

-- `format!("{}:{}", host, port)`
abbrev host_port : ConnectPacket → Text
host_port packet = packet.host ++ codes ":" ++ decimal packet.port

unfoldable pub stream_stats : StreamPair → Anyhow StreamStats
unfolding format_stream_type
stream_stats value = do
  stream_type ← format_stream_type value.requested.stream_type
  ok (record {
    stream_type = stream_type;
    requested = host_port value.requested;
    resolved = host_port value.resolved;
  })

pub record ClientStats : Type 0 where
  pub client_type : Text
  pub streams : List (ℕ × StreamStats)

unfoldable pub all_streams : List (ℕ × StreamPair) → Anyhow (List (ℕ × StreamStats))
unfolding stream_stats
all_streams [] = ok []
all_streams ((uuid, pair) ∷ streams) = do
  stats ← stream_stats pair
  rest ← all_streams streams
  ok ((uuid, stats) ∷ rest)

unfoldable pub all_clients : Clients → Anyhow (List (ℕ × ClientStats))
unfolding all_streams
all_clients [] = ok []
all_clients ((id, client) ∷ clients) = do
  streams ← all_streams client.streams
  rest ← all_clients clients
  ok ((id, record { client_type = client.kind; streams = streams }) ∷ rest)

pub record ServerStats (MemoryStats : Type 0) : Type 0 where
  pub config : Text
  pub clients : List (ℕ × ClientStats)
  pub memory : MemoryStats

unfoldable pub generate_stats :
    {MemoryStats : Type 0}
    → Option MemoryStats
    → Option Text
    → (ServerStats MemoryStats → Option Text)
    → Clients
    → Anyhow Text
unfolding all_clients
generate_stats memory config to_string_pretty clients = do
  memory' ← try memory
  clients' ← all_clients clients
  config' ← try config
  try (to_string_pretty (record { config = config'; clients = clients'; memory = memory' }))
