-- ===== src/Server/Config/Override.antt =====
-- server/src/config.rs: the environment's values over a configuration.
use epoxy_tls.Base.{ℕ, Bool, List, Option, none, some}
use epoxy_tls.Bytes.Utf8.{Text}
use epoxy_tls.Server.Config.{RuntimeFlavor, SocketTransport, ProtocolExtension, Config}

pub record EnvironmentConfig (LevelFilter : Type 0) : Type 0 where
  pub server_bind : Option Text
  pub server_runtime : Option RuntimeFlavor
  pub server_transport : Option SocketTransport
  pub server_log_level : Option LevelFilter
  pub autoconfigure_domain : Option Text
  pub protocol_allow_wsproxy : Option Bool
  pub protocol_buffer_size : Option ℕ
  pub protocol_prefix : Option Text
  pub protocol_v2 : Option Bool
  pub protocol_extensions : Option (List ProtocolExtension)
  pub stream_tcp_nodelay : Option Bool
  pub stream_buffer_size : Option ℕ
  pub stream_allow_udp : Option Bool
  pub stream_allow_wsproxy_udp : Option Bool
  pub stream_allow_direct_ip : Option Bool
  pub stream_allow_loopback : Option Bool
  pub stream_allow_multicast : Option Bool
  pub stream_allow_global : Option Bool
  pub stream_allow_non_global : Option Bool
  pub stream_allow_ports : Option (List (List ℕ))

-- `if let Some(value) = o { field = value; }`: the field afterwards.
abbrev pub assign {ℓ} : {A : Type ℓ} → Option A → A → A
assign none field = field
assign (some value) field = value

-- The same for a field that is itself optional, which gets `Some(value)`.
abbrev pub assign_some {ℓ} : {A : Type ℓ} → Option A → Option A → Option A
assign_some none field = field
assign_some (some value) field = some value

unfoldable pub apply_to :
    {LevelFilter : Type 0} → EnvironmentConfig LevelFilter → Config LevelFilter → Config LevelFilter
apply_to e c = record {
  server = record c.server {
    bind = (c.server.bind.0, assign e.server_bind c.server.bind.1);
    runtime = assign e.server_runtime c.server.runtime;
    transport = assign e.server_transport c.server.transport;
    log_level = assign e.server_log_level c.server.log_level;
    autoconfigure_domain = assign_some e.autoconfigure_domain c.server.autoconfigure_domain;
  };
  wisp = record c.wisp {
    allow_wsproxy = assign e.protocol_allow_wsproxy c.wisp.allow_wsproxy;
    buffer_size = assign e.protocol_buffer_size c.wisp.buffer_size;
    prefix = assign e.protocol_prefix c.wisp.prefix;
    wisp_v2 = assign e.protocol_v2 c.wisp.wisp_v2;
    extensions = assign e.protocol_extensions c.wisp.extensions;
  };
  stream = record c.stream {
    tcp_nodelay = assign e.stream_tcp_nodelay c.stream.tcp_nodelay;
    buffer_size = assign e.stream_buffer_size c.stream.buffer_size;
    allow_udp = assign e.stream_allow_udp c.stream.allow_udp;
    allow_wsproxy_udp = assign e.stream_allow_wsproxy_udp c.stream.allow_wsproxy_udp;
    allow_direct_ip = assign e.stream_allow_direct_ip c.stream.allow_direct_ip;
    allow_loopback = assign e.stream_allow_loopback c.stream.allow_loopback;
    allow_multicast = assign e.stream_allow_multicast c.stream.allow_multicast;
    allow_global = assign e.stream_allow_global c.stream.allow_global;
    allow_non_global = assign e.stream_allow_non_global c.stream.allow_non_global;
    allow_ports = assign e.stream_allow_ports c.stream.allow_ports;
  };
}
