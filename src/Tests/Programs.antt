-- ===== src/Tests/Programs.antt =====
-- Functions that meet the server's interfaces, and a configuration.
use epoxy_tls.Base.{
  ℕ, ◌≡◌, refl, arith, Bool, true, false, ◌||◌, List, [], ◌∷◌, Option, none, some, list_eq, codes,
}
use epoxy_tls.Bytes.Utf8.{Text}
use epoxy_tls.Packet.Kinds.{tcp}
use epoxy_tls.Packet.Codec.{ConnectPacket}
use epoxy_tls.Server.Address.{Ipv4Addr, Ipv6Addr, IpAddr, v4, v6}
use epoxy_tls.Server.Config.{Config, wispnet, password}
use epoxy_tls.Server.Config.Defaults.{config_default}
use epoxy_tls.Server.Resolve.{Regexes, Names, ConfigCache}
use epoxy_tls.Server.Resolve.Connect.{Sockets}
use epoxy_tls.Server.Http.{HttpDeps, Request}

-- Expressions that match their own text.
abbrev pub same_text : List Text → Text → Bool
same_text [] t = false
same_text (x ∷ xs) t = list_eq x t || same_text xs t

pub same_text_empty : (r : List Text) → some [] ≡ some r → (t : Text) → same_text r t ≡ false
same_text_empty r e t = ground arith

abbrev pub exact_regexes : Regexes
exact_regexes = record {
  RegexSet = List Text;
  new = some;
  is_match = same_text;
  is_match_empty = same_text_empty;
}

-- An address in a text of its own octets or segments.
abbrev pub raw_text : IpAddr → Text
raw_text (v4 x) = x.a ∷ x.b ∷ x.c ∷ x.d ∷ []
raw_text (v6 x) = x.s0 ∷ x.s1 ∷ x.s2 ∷ x.s3 ∷ x.s4 ∷ x.s5 ∷ x.s6 ∷ x.s7 ∷ []

abbrev pub raw_address : Text → Option IpAddr
raw_address (a ∷ b ∷ c ∷ d ∷ []) = some (v4 (record { a = a; b = b; c = c; d = d }))
raw_address (s0 ∷ s1 ∷ s2 ∷ s3 ∷ s4 ∷ s5 ∷ s6 ∷ s7 ∷ []) =
    some (v6 (record { s0 = s0; s1 = s1; s2 = s2; s3 = s3; s4 = s4; s5 = s5; s6 = s6; s7 = s7 }))
raw_address _ = none

pub raw_address-raw_text : (a : IpAddr) → raw_address (raw_text a) ≡ some a
raw_address-raw_text (v4 x) = refl
raw_address-raw_text (v6 x) = refl

abbrev pub public_v4 : Ipv4Addr
public_v4 = record { a = 93; b = 184; c = 215; d = 14 }

abbrev pub link_local_v6 : Ipv6Addr
link_local_v6 = record { s0 = 0xfe80; s1 = 0; s2 = 0; s3 = 0; s4 = 0; s5 = 0; s6 = 0; s7 = 1 }

abbrev pub both_addresses : List IpAddr
both_addresses = v6 link_local_v6 ∷ v4 public_v4 ∷ []

abbrev pub two_names : Names
two_names = record {
  decode = some;
  from_str = raw_address;
  to_string = raw_text;
  lookup_ip = λ host. some both_addresses;
  lookup_host = λ host. none;
  from_str-to_string = raw_address-raw_text;
}

abbrev pub plain_config : Config Bool
plain_config = config_default true (codes "test")

abbrev pub wispnet_config : Config Bool
wispnet_config = record plain_config {
  wisp = record plain_config.wisp {
    extensions = wispnet ∷ [];
    auth_extension = some password;
    prefix = codes "/wisp";
  };
}

abbrev pub empty_cache : ConfigCache exact_regexes
empty_cache = record {
  blocked_ports = [];
  allowed_ports = [];
  allowed_hosts = [];
  blocked_hosts = [];
  allowed_tcp_hosts = [];
  blocked_tcp_hosts = [];
  allowed_udp_hosts = [];
  blocked_udp_hosts = [];
}

-- A socket is the address that it was connected to.
abbrev pub named_sockets : Sockets
named_sockets = record {
  TcpStream = IpAddr × ℕ;
  UdpSocket = IpAddr × ℕ;
  tcp_connect = some;
  set_nodelay = some;
  bind = some;
  udp_connect = λ socket to. some to;
}

abbrev pub web_packet : ConnectPacket
web_packet = record { stream_type = tcp; host = codes "example.org"; port = 443 }

abbrev pub plain_http : HttpDeps
plain_http = record {
  to_str = some;
  trim = λ t. t;
  parse_uri = λ t. none;
  json = some;
  sha1 = λ p. p;
  encode = λ p. p;
  build = some;
}

abbrev pub upgrade_headers : Text → List Text
upgrade_headers name = elim (list_eq name (codes "connection")) [
  | true ↦ codes "keep-alive, upgrade" ∷ []
  | false ↦ elim (list_eq name (codes "upgrade")) [
    | true ↦ codes "WebSocket" ∷ []
    | false ↦ elim (list_eq name (codes "sec-websocket-key")) [
      | true ↦ codes "key" ∷ []
      | false ↦ elim (list_eq name (codes "sec-websocket-version")) [
        | true ↦ codes "13" ∷ []
        | false ↦ []
      ]
    ]
  ]
]

-- A request to upgrade at the path of `wispnet_config`.
abbrev pub upgrade_request : Request
upgrade_request = record { path = codes "/wisp/"; query = none; headers = upgrade_headers }
