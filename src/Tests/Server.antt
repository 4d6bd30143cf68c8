-- ===== src/Tests/Server.antt =====
-- The server's configuration and its requests, at concrete values.
use epoxy_tls.Base.{
  ◌/◌, ℕ, ◌≡◌, ◌≢◌, ◌↔◌, refl, arith, Bool, true, false, not, ◌&&◌, List, [], ◌∷◌, ◌++◌, map,
  contains, Option, none, some, ◌==◌, if◌then◌else◌, ltb, WispError, ◌⊎◌,
}
use epoxy_tls.Server.Anyhow.{ok, panic}
use epoxy_tls.Server.Address.{Ipv4Addr, IpAddr, v4, v6, v4_bits, ipv4_is_global, is_global}
use epoxy_tls.Server.Address.Blocks.{is_special, ipv4_is_global-blocks}
use epoxy_tls.Server.Address.Scopes.{local_scopes}
use epoxy_tls.Server.Resolve.Connect.{connect, connect_as, connect_tcp, with_nodelay, tcp_stream}
use epoxy_tls.Server.Resolve.{
  ConfigCache, config_cache, resolve, host_blocked, resolve_host, hickory, resolve_name,
  first_address, check_address, allowed_set, blocked_set, match_addr, valid,
}
use epoxy_tls.Server.Config.Opts.{CertFiles, to_opts, auth_opts, v2_opts}
use epoxy_tls.Server.Resolve.Allowed.{
  IsAdmitted, resolve_total, IsFirst, IsPermitted, resolve-valid, SlipsThrough,
}
use epoxy_tls.Server.Config.Ports.{
  parse_port_range, cached_ports, dash, any_contains, bad_range, invalid_descending_port_range,
  ports,
}
use epoxy_tls.Packet.Codec.{ConnectPacket}
use epoxy_tls.Mux.Handshake.{WispV2Handshake, handshake_new}
use epoxy_tls.Server.Config.{StreamConfig, password, has_wispnet}
use epoxy_tls.Server.Config.Override.{EnvironmentConfig, apply_to}
use epoxy_tls.Server.Config.Ports.Decimal.{decimal, parse_port_range-decimal}
use epoxy_tls.Tests.Programs.{
  web_packet, plain_config, exact_regexes, raw_text, link_local_v6, two_names, empty_cache,
  public_v4, named_sockets, wispnet_config,
}
use epoxy_tls.Extension.Any.{password_builder, AnyProtocolExtension, get_id}
use epoxy_tls.Server.Config.Env.{merge, env_of, with_domain, apply_to_lem}
use epoxy_tls.Server.Resolve.Whitelist.{whitelist_inert}
use epoxy_tls.Extension.Password.{server_before, password_id}
use epoxy_tls.Server.Config.Opts.Required.{offered, auth_id, to_opts-required}
use epoxy_tls.Server.Resolve.Connect.Checked.{Opened}
use epoxy_tls.Mux.Supported.{with_required_extensions}
use epoxy_tls.Server.Resolve.Connect.Checked.{connect-resolve}

-- 192.0.2.1, an address of the documentation.
abbrev test_net : Ipv4Addr
test_net = record { a = 192; b = 0; c = 2; d = 1 }

ipv4_is_global-blocks_example : ipv4_is_global test_net ≡ not (is_special (v4_bits test_net))
ipv4_is_global-blocks_example =
    ipv4_is_global-blocks test_net (omega arith, omega arith, omega arith, omega arith)

local_scopes_example :
    ((link_local_v6.s0 / 512 == 126 && is_global (v6 link_local_v6)) ≡ false)
    × ((link_local_v6.s0 / 64 == 1018 && not (is_global (v6 link_local_v6))) ≡ false)
local_scopes_example = local_scopes link_local_v6 (omega arith)

abbrev no_env : EnvironmentConfig Bool
no_env = record {
  server_bind = none;
  server_runtime = none;
  server_transport = none;
  server_log_level = none;
  autoconfigure_domain = none;
  protocol_allow_wsproxy = none;
  protocol_buffer_size = none;
  protocol_prefix = none;
  protocol_v2 = none;
  protocol_extensions = none;
  stream_tcp_nodelay = none;
  stream_buffer_size = none;
  stream_allow_udp = none;
  stream_allow_wsproxy_udp = none;
  stream_allow_direct_ip = none;
  stream_allow_loopback = none;
  stream_allow_multicast = none;
  stream_allow_global = none;
  stream_allow_non_global = none;
  stream_allow_ports = none;
}

abbrev small_env : EnvironmentConfig Bool
small_env = record no_env { protocol_buffer_size = some 64; stream_allow_udp = some false }

abbrev udp_env : EnvironmentConfig Bool
udp_env = record no_env { stream_allow_udp = some true }

apply_to_lem_example :
    (env_of (apply_to small_env plain_config) ≡ merge (env_of plain_config) small_env)
    × (with_domain
          (apply_to (env_of plain_config) (apply_to small_env plain_config))
          plain_config.server.autoconfigure_domain
        ≡ plain_config)
    × (apply_to udp_env (apply_to small_env plain_config)
        ≡ apply_to (merge small_env udp_env) plain_config)
apply_to_lem_example = apply_to_lem small_env udp_env plain_config

parse_port_range-decimal_example :
    (parse_port_range (decimal 80 ++ (dash ∷ decimal 443))
      ≡ (if ltb 443 80 then bad_range invalid_descending_port_range else ports (80 ∷ 443 ∷ [])))
    × (parse_port_range (decimal 80) ≡ ports (80 ∷ 80 ∷ []))
parse_port_range-decimal_example = parse_port_range-decimal 80 443 (omega arith) (omega arith)

abbrev pub no_files : CertFiles
no_files = record {
  VerifyingKey = ℕ;
  read_to_string = λ path. none;
  from_public_key_pem = λ pem. none;
  to_bytes = λ key. [];
  sha256 = λ bytes. [];
  verify = λ key message signature. false;
}

abbrev password_offer : Option WispV2Handshake
password_offer = some (handshake_new (password_builder (server_before (λ user. none) true) ∷ []))

to_opts-required_example :
    (contains (offered password_offer) (auth_id password) ≡ true)
    × ((supported : List AnyProtocolExtension) (closed future : Option WispError)
        → (with_required_extensions (password_id ∷ []) supported closed future ≡ none)
          ↔ (contains (map get_id supported) (auth_id password) ≡ true))
unfolding to_opts auth_opts v2_opts
to_opts-required_example =
    to_opts-required no_files wispnet_config.wisp password password_offer (password_id ∷ []) 128
      refl refl refl refl

abbrev answered : ConnectPacket
answered = record web_packet { host = raw_text (v4 public_v4) }

resolved :
    resolve exact_regexes two_names hickory plain_config empty_cache web_packet
    ≡ ok (valid answered)
unfolding resolve host_blocked resolve_host first_address check_address resolve_name allowed_set
    blocked_set match_addr is_global ipv4_is_global has_wispnet
resolved = refl

resolve-valid_example :
    IsAdmitted exact_regexes two_names plain_config.stream empty_cache web_packet
    × ((addrs : List IpAddr) × (resolve_name two_names hickory web_packet.host ≡ some addrs)
        × (addr : IpAddr) × IsFirst plain_config.server.resolve_ipv6 addrs addr
        × (IsPermitted plain_config.stream addr ⊎ SlipsThrough plain_config.stream addr)
        × (answered ≡ record web_packet { host = two_names.to_string addr }))
resolve-valid_example =
    resolve-valid exact_regexes two_names hickory plain_config empty_cache web_packet answered
      resolved

resolve_total_example :
    resolve exact_regexes two_names hickory plain_config empty_cache web_packet ≢ panic
resolve_total_example =
    resolve_total exact_regexes two_names hickory plain_config empty_cache web_packet

connect-resolve_example :
    (addr : IpAddr) × (IsPermitted plain_config.stream addr ⊎ SlipsThrough plain_config.stream addr)
    × Opened named_sockets Bool two_names plain_config.stream
        (tcp_stream (v4 public_v4, 443))
        web_packet.stream_type
        (addr, web_packet.port)
unfolding connect connect_as connect_tcp with_nodelay
connect-resolve_example =
    connect-resolve exact_regexes two_names hickory plain_config empty_cache named_sockets Bool
      web_packet answered (tcp_stream (v4 public_v4, 443)) resolved refl

abbrev allow_https : StreamConfig
allow_https = record plain_config.stream { allow_ports = (443 ∷ 443 ∷ []) ∷ [] }

abbrev https_cache : ConfigCache exact_regexes
https_cache = record empty_cache { allowed_ports = (443, 443) ∷ [] }

abbrev ssh_packet : ConnectPacket
ssh_packet = record web_packet { port = 22 }

whitelist_inert_example :
    ((any_contains https_cache.blocked_ports ssh_packet.port
        && not (any_contains https_cache.allowed_ports ssh_packet.port))
      ≡ false)
    × (host_blocked exact_regexes https_cache ssh_packet ≡ ok false)
unfolding config_cache cached_ports
whitelist_inert_example =
    whitelist_inert exact_regexes allow_https https_cache refl
      (record { ports = refl; hosts = refl; tcp_hosts = refl; udp_hosts = refl }) ssh_packet refl
