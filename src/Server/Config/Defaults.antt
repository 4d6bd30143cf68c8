-- ===== src/Server/Config/Defaults.antt =====
-- server/src/config.rs: the default values. The version string in the message of the day is fixed
-- at build time, an argument.
use epoxy_tls.Base.{◌*◌, true, false, [], ◌∷◌, ◌++◌, none, codes}
use epoxy_tls.Bytes.Utf8.{Text}
use epoxy_tls.Server.Config.{
  tcp, web_socket, single_thread, multi_thread, ServerConfig, udp, motd, WispConfig, StreamConfig,
  Config,
}

abbrev pub default_motd : Text → Text
default_motd version = codes "epoxy_server (" ++ version ++ codes ")"

abbrev pub server_config_default : {LevelFilter : Type 0} → LevelFilter → ServerConfig LevelFilter
server_config_default info = record {
  bind = (tcp, codes "127.0.0.1:4000");
  transport = web_socket;
  resolve_ipv6 = false;
  tcp_nodelay = true;
  file_raw_mode = false;
  tls_keypair = none;
  stats_endpoint = none;
  use_real_ip_headers = false;
  non_ws_response = codes ":3";
  autoconfigure_domain = none;
  max_message_size = 64 * 1024;
  log_level = info;
  runtime = multi_thread;
}

abbrev pub wisp_config_default : Text → WispConfig
wisp_config_default version = record {
  buffer_size = 128;
  allow_wsproxy = true;
  prefix = [];
  wisp_v2 = true;
  extensions = udp ∷ motd ∷ [];
  auth_extension = none;
  password_extension_users = λ user. none;
  password_extension_required = true;
  certificate_extension_keys = [];
  certificate_extension_required = true;
  motd_extension = default_motd version;
}

abbrev pub stream_config_default : StreamConfig
stream_config_default = record {
  tcp_nodelay = true;
  buffer_size = 128 * 1024;
  allow_udp = true;
  allow_wsproxy_udp = false;
  dns_servers = [];
  allow_direct_ip = true;
  allow_loopback = true;
  allow_multicast = true;
  allow_global = true;
  allow_non_global = true;
  allow_tcp_hosts = [];
  block_tcp_hosts = [];
  allow_udp_hosts = [];
  block_udp_hosts = [];
  allow_hosts = [];
  block_hosts = [];
  allow_ports = [];
  block_ports = [];
}

abbrev pub config_default : {LevelFilter : Type 0} → LevelFilter → Text → Config LevelFilter
config_default info version = record {
  server = server_config_default info;
  wisp = wisp_config_default version;
  stream = stream_config_default;
}

-- The assignments to the default, section by section.
abbrev pub wasix_defaults : {LevelFilter : Type 0} → LevelFilter → Text → Config LevelFilter
wasix_defaults info version = record {
  server = record (server_config_default info) {
    bind = (tcp, codes "0.0.0.0:4000");
    runtime = single_thread;
    transport = web_socket;
    log_level = info;
  };
  wisp = record (wisp_config_default version) {
    allow_wsproxy = false;
    prefix = [];
    wisp_v2 = true;
    extensions = motd ∷ [];
  };
  stream = record stream_config_default {
    allow_udp = false;
    allow_wsproxy_udp = false;
    allow_direct_ip = false;
    allow_loopback = false;
    allow_multicast = false;
    allow_global = true;
    allow_non_global = false;
    allow_ports = (80 ∷ 80 ∷ []) ∷ (443 ∷ 443 ∷ []) ∷ [];
  };
}
