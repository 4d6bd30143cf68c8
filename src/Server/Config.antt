-- ===== src/Server/Config.antt =====
-- server/src/config.rs: the server's configuration, in a build with the default features (no
-- `twisp`, no `speed-limit`). `LevelFilter` of the log crate is a type parameter; a path is its
-- text; the table of passwords is a function.
pub mod Defaults
pub mod Override
pub mod Env
pub mod Ports
pub mod Opts
use epoxy_tls.Base.{ℕ, Bool, true, false, ◌||◌, List, [], ◌∷◌, Option, none, some}
use epoxy_tls.Bytes.Utf8.{Text}
use epoxy_tls.Extension.Password.{Users}
use epoxy_tls.Server.Address.{IpAddr}

pub data SocketType : Type 0 where
  tcp tls_tcp unix tls_unix file : SocketType

pub data SocketTransport : Type 0 where
  web_socket length_delimited_le : SocketTransport

pub data RuntimeFlavor : Type 0 where
  single_thread multi_thread thread_per_core : RuntimeFlavor

unfoldable pub is_thread_per_core : RuntimeFlavor → Bool
is_thread_per_core thread_per_core = true
is_thread_per_core single_thread = false
is_thread_per_core multi_thread = false

abbrev pub BindAddr : Type 0
BindAddr = SocketType × Text

pub data StatsEndpoint : Type 0 where
  same_server : Text → StatsEndpoint
  separate_server : BindAddr → StatsEndpoint

unfoldable pub get_endpoint : StatsEndpoint → Option Text
get_endpoint (same_server x) = some x
get_endpoint (separate_server x) = none

unfoldable pub get_bindaddr : StatsEndpoint → Option BindAddr
get_bindaddr (same_server x) = none
get_bindaddr (separate_server x) = some x

pub record ServerConfig (LevelFilter : Type 0) : Type 0 where
  pub bind : BindAddr
  pub transport : SocketTransport
  pub resolve_ipv6 : Bool
  pub tcp_nodelay : Bool
  pub file_raw_mode : Bool
  pub tls_keypair : Option (Text × Text)
  pub stats_endpoint : Option StatsEndpoint
  pub use_real_ip_headers : Bool
  pub non_ws_response : Text
  pub autoconfigure_domain : Option Text
  pub max_message_size : ℕ
  pub log_level : LevelFilter
  pub runtime : RuntimeFlavor

pub data ProtocolExtension : Type 0 where
  udp motd wispnet : ProtocolExtension

-- `self.extensions.contains(&x)`
abbrev pub protocol_extension_eq : ProtocolExtension → ProtocolExtension → Bool
protocol_extension_eq udp udp = true
protocol_extension_eq motd motd = true
protocol_extension_eq wispnet wispnet = true
protocol_extension_eq _ _ = false

abbrev pub has_extension : List ProtocolExtension → ProtocolExtension → Bool
has_extension [] x = false
has_extension (y ∷ ys) x = protocol_extension_eq y x || has_extension ys x

pub data ProtocolExtensionAuth : Type 0 where
  password certificate : ProtocolExtensionAuth

pub record WispConfig : Type 0 where
  pub allow_wsproxy : Bool
  pub buffer_size : ℕ
  pub prefix : Text
  pub wisp_v2 : Bool
  pub extensions : List ProtocolExtension
  pub auth_extension : Option ProtocolExtensionAuth
  pub password_extension_users : Users
  pub password_extension_required : Bool
  pub certificate_extension_keys : List Text
  pub certificate_extension_required : Bool
  pub motd_extension : Text

unfoldable pub has_wispnet : WispConfig → Bool
has_wispnet c = has_extension c.extensions wispnet

pub record StreamConfig : Type 0 where
  pub tcp_nodelay : Bool
  pub buffer_size : ℕ
  pub allow_udp : Bool
  pub allow_wsproxy_udp : Bool
  pub dns_servers : List IpAddr
  pub allow_direct_ip : Bool
  pub allow_loopback : Bool
  pub allow_multicast : Bool
  pub allow_global : Bool
  pub allow_non_global : Bool
  pub allow_tcp_hosts : List Text
  pub block_tcp_hosts : List Text
  pub allow_udp_hosts : List Text
  pub block_udp_hosts : List Text
  pub allow_hosts : List Text
  pub block_hosts : List Text
  pub allow_ports : List (List ℕ)
  pub block_ports : List (List ℕ)

pub record Config (LevelFilter : Type 0) : Type 0 where
  pub server : ServerConfig LevelFilter
  pub wisp : WispConfig
  pub stream : StreamConfig
