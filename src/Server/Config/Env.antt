-- ===== src/Server/Config/Env.antt =====
-- Overrides by the environment, one after the other.
use epoxy_tls.Base.{◌≡◌, refl, Option, none, some}
use epoxy_tls.Server.Config.{Config, Text}
use epoxy_tls.Server.Config.Override.{EnvironmentConfig, assign, assign_some, apply_to}

-- The second environment's values first.
abbrev pub merge :
    {LevelFilter : Type 0}
    → EnvironmentConfig LevelFilter
    → EnvironmentConfig LevelFilter
    → EnvironmentConfig LevelFilter
merge d e = record {
  server_bind = assign_some e.server_bind d.server_bind;
  server_runtime = assign_some e.server_runtime d.server_runtime;
  server_transport = assign_some e.server_transport d.server_transport;
  server_log_level = assign_some e.server_log_level d.server_log_level;
  autoconfigure_domain = assign_some e.autoconfigure_domain d.autoconfigure_domain;
  protocol_allow_wsproxy = assign_some e.protocol_allow_wsproxy d.protocol_allow_wsproxy;
  protocol_buffer_size = assign_some e.protocol_buffer_size d.protocol_buffer_size;
  protocol_prefix = assign_some e.protocol_prefix d.protocol_prefix;
  protocol_v2 = assign_some e.protocol_v2 d.protocol_v2;
  protocol_extensions = assign_some e.protocol_extensions d.protocol_extensions;
  stream_tcp_nodelay = assign_some e.stream_tcp_nodelay d.stream_tcp_nodelay;
  stream_buffer_size = assign_some e.stream_buffer_size d.stream_buffer_size;
  stream_allow_udp = assign_some e.stream_allow_udp d.stream_allow_udp;
  stream_allow_wsproxy_udp = assign_some e.stream_allow_wsproxy_udp d.stream_allow_wsproxy_udp;
  stream_allow_direct_ip = assign_some e.stream_allow_direct_ip d.stream_allow_direct_ip;
  stream_allow_loopback = assign_some e.stream_allow_loopback d.stream_allow_loopback;
  stream_allow_multicast = assign_some e.stream_allow_multicast d.stream_allow_multicast;
  stream_allow_global = assign_some e.stream_allow_global d.stream_allow_global;
  stream_allow_non_global = assign_some e.stream_allow_non_global d.stream_allow_non_global;
  stream_allow_ports = assign_some e.stream_allow_ports d.stream_allow_ports;
}

-- The environment that spells out these fields of a configuration.
abbrev pub env_of : {LevelFilter : Type 0} → Config LevelFilter → EnvironmentConfig LevelFilter
env_of c = record {
  autoconfigure_domain = c.server.autoconfigure_domain;
  server_bind = some c.server.bind.1;
  server_runtime = some c.server.runtime;
  server_transport = some c.server.transport;
  server_log_level = some c.server.log_level;
  protocol_allow_wsproxy = some c.wisp.allow_wsproxy;
  protocol_buffer_size = some c.wisp.buffer_size;
  protocol_prefix = some c.wisp.prefix;
  protocol_v2 = some c.wisp.wisp_v2;
  protocol_extensions = some c.wisp.extensions;
  stream_tcp_nodelay = some c.stream.tcp_nodelay;
  stream_buffer_size = some c.stream.buffer_size;
  stream_allow_udp = some c.stream.allow_udp;
  stream_allow_wsproxy_udp = some c.stream.allow_wsproxy_udp;
  stream_allow_direct_ip = some c.stream.allow_direct_ip;
  stream_allow_loopback = some c.stream.allow_loopback;
  stream_allow_multicast = some c.stream.allow_multicast;
  stream_allow_global = some c.stream.allow_global;
  stream_allow_non_global = some c.stream.allow_non_global;
  stream_allow_ports = some c.stream.allow_ports;
}

assign_twice {ℓ} :
    {A : Type ℓ} (e d : Option A) (a : A) → assign e (assign d a) ≡ assign (assign_some e d) a
assign_twice none d a = refl
assign_twice (some v) d a = refl

assign_some_twice {ℓ} :
    {A : Type ℓ} (e d a : Option A)
    → assign_some e (assign_some d a) ≡ assign_some (assign_some e d) a
assign_some_twice none d a = refl
assign_some_twice (some v) d a = refl

assign-assign_some {ℓ} :
    {A : Type ℓ} (d : Option A) (a : A) → some (assign d a) ≡ assign_some d (some a)
assign-assign_some none a = refl
assign-assign_some (some v) a = refl

-- With the named field that may be absent put back.
abbrev pub with_domain :
    {LevelFilter : Type 0} → Config LevelFilter → Option Text → Config LevelFilter
with_domain c domain = record c { server = record c.server { autoconfigure_domain = domain } }

-- The environment's values go to the fields that they are named for: read by its names, the result
-- has the environment's value where there is one, and what it had before elsewhere. Nothing else is
-- changed: putting the named fields back gives the configuration as it was. And two environments
-- applied in turn leave what their merge leaves, where the later one's values win.
pub apply_to_lem :
    {LevelFilter : Type 0} (d e : EnvironmentConfig LevelFilter) (c : Config LevelFilter)
    → (env_of (apply_to d c) ≡ merge (env_of c) d)
      × (with_domain (apply_to (env_of c) (apply_to d c)) c.server.autoconfigure_domain ≡ c)
      × (apply_to e (apply_to d c) ≡ apply_to (merge d e) c)
unfolding apply_to
apply_to_lem d e c = (simp assign-assign_some, refl, simp (assign_twice, assign_some_twice))
