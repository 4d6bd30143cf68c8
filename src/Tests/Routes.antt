-- ===== src/Tests/Routes.antt =====
-- The server's pages, routes and clients, at concrete values.
use epoxy_tls.Base.{
  ◌≡◌, refl, arith, Bool, true, false, ◌&&◌, List, [], ◌∷◌, none, some, inl, codes, if◌then◌else◌,
  All, length, lookup, Outcome, ℕ, not, Option, err, ◌⊎◌, packet_too_small, invalid_stream_id, ◌+◌,
  ◌*◌,
}
use epoxy_tls.Bytes.{Payload}
use epoxy_tls.Tests.Instances.{list_buf}
use epoxy_tls.Packet.Kinds.{other, StreamType, tcp}
use epoxy_tls.Packet.Codec.{ConnectPacket}
use epoxy_tls.Server.Anyhow.{ok, panic}
use epoxy_tls.Server.Clients.{
  Action, StreamPair, Clients, run_actions, stream_in, stream_out, insert_stream,
}
use epoxy_tls.Server.Wispnet.{WispnetServers, wispnet_handle_packet, wispnet_id, route_wispnet}
use epoxy_tls.Server.Http.Url.{endpoint_of}
use epoxy_tls.Server.Config.{has_wispnet, web_socket}
use epoxy_tls.Server.Clients.Listed.{entry, run_on, entry-run_actions}
use epoxy_tls.Server.Http.{Response, get_first}
use epoxy_tls.Server.Resolve.{
  wispnet_packet, parse_server_id, hickory, valid_wispnet, resolve, host_blocked, resolve_host,
  first_address, check_address, resolve_name, allowed_set, blocked_set, match_addr,
}
use epoxy_tls.Server.Http.Escape.{IsPlain, html_escape, read_text, html_escape_lem}
use epoxy_tls.Server.Http.Upgrade.{
  trim, upgrade, is_upgrade_request, upgrade_response, header_contains_value, values_contain,
  trim_start, trim_end,
}
use epoxy_tls.Server.Http.Route.{ip_header, route, wisp_route, is_query, wispnet_route}
use epoxy_tls.Tests.Programs.{
  web_packet, upgrade_request, plain_http, wispnet_config, exact_regexes, two_names, named_sockets,
  empty_cache, raw_text, plain_config, public_v4,
}
use epoxy_tls.Server.Streams.{handle_stream, resolve_stream, opened, finished, cancelled}
use epoxy_tls.Bytes.Utf8.{is_utf8, Text}
use epoxy_tls.Server.Config.Ports.{parse_uint, parse_digits}
use epoxy_tls.Server.Wispnet.Probe.{read_ids, public_ids, wispnet_handle_packet_lem}
use epoxy_tls.Server.Http.Route.Served.{route-endpoint}
use epoxy_tls.Server.Resolve.Connect.{
  connect, wispnet_stream, ClientStream, tcp_stream, connect_as, connect_tcp, with_nodelay,
}
use epoxy_tls.Server.Texts.{is_some}
use epoxy_tls.Server.Stats.{generate_stats}
use epoxy_tls.Server.Streams.Leak.{handle_stream-finished, handle_stream-cancelled}
use epoxy_tls.Server.Stats.Panic.{generate_stats-other}
use epoxy_tls.Server.Proxy.{proxy_stream, proxy_request, proxy_packet, proxy_resolved, proxied}
use epoxy_tls.Server.Address.{v4, IpAddr, is_global, ipv4_is_global}
use epoxy_tls.Server.Resolve.Allowed.{IsPermitted, SlipsThrough}
use epoxy_tls.Server.Resolve.Connect.Checked.{Opened}
use epoxy_tls.Server.Proxy.Path
use epoxy_tls.Server.Proxy.Permitted.{proxy_stream-IsPermitted}

html_escape_lem_example :
    All IsPlain (html_escape (codes "<a href='x'>"))
    × (read_text (length (codes "<a href='x'>")) (html_escape (codes "<a href='x'>"))
        ≡ codes "<a href='x'>")
html_escape_lem_example = html_escape_lem (codes "<a href='x'>")

-- The answer to `upgrade_request`.
abbrev accepted : Response
accepted = upgrade_response plain_http (codes "key")

is_upgrade : is_upgrade_request upgrade_request ≡ true
unfolding is_upgrade_request header_contains_value values_contain trim trim_start trim_end
is_upgrade = refl

upgraded_request : upgrade plain_http upgrade_request ≡ ok accepted
unfolding upgrade
upgraded_request = refl

route-endpoint_example :
    route plain_http wispnet_config web_socket (inl []) upgrade_request none
    ≡ some (
      if has_wispnet wispnet_config.wisp && is_query upgrade_request.query (codes "net")
          then wispnet_route
          else wisp_route
              (is_some (get_first (upgrade_request.headers (codes "sec-websocket-protocol")))),
      ip_header plain_http wispnet_config upgrade_request.headers,
    )
unfolding endpoint_of
route-endpoint_example =
    route-endpoint plain_http wispnet_config (inl []) upgrade_request none accepted refl refl
      is_upgrade upgraded_request

abbrev same_pair : StreamPair
same_pair = record { requested = web_packet; resolved = web_packet }

abbrev served : ClientStream named_sockets Bool
served = wispnet_stream true 7

abbrev one_client : Clients
one_client = (7, record { streams = []; kind = codes "Wisp" }) ∷ []

abbrev accesses : List Action
accesses = stream_in 7 1 same_pair ∷ stream_in 7 2 same_pair ∷ stream_out 7 1 ∷ []

entry-run_actions_example :
    entry (run_actions accesses one_client) 7 1 ≡ run_on 7 1 accesses (entry one_client 7 1)
entry-run_actions_example = entry-run_actions accesses one_client 7 1

handle_stream-finished_example :
    entry (run_actions (handle_stream 3 1 (opened same_pair served) finished) one_client) 7 1
    ≡ entry one_client 7 1
unfolding lookup
handle_stream-finished_example =
    handle_stream-finished named_sockets 3 1 (opened same_pair served) one_client 7 refl

handle_stream-cancelled_example :
    (entry
      (run_actions (handle_stream 3 1 (opened same_pair served) cancelled) one_client)
      7
      1).stream
    ≡ some (record { requested = same_pair.resolved; resolved = same_pair.resolved })
unfolding lookup
handle_stream-cancelled_example =
    handle_stream-cancelled named_sockets 3 1 same_pair true 7 one_client (λ e. omega arith) refl

abbrev two_servers : WispnetServers Bool
two_servers =
    (5, record { mux = true; id = 7; private = false })
    ∷ (300, record { mux = true; id = 8; private = true })
    ∷ []

wispnet_handle_packet_lem_example :
    ((body : Payload) × (wispnet_handle_packet two_servers wispnet_id (0 ∷ 0 ∷ 0 ∷ 0 ∷ [])
        ≡ Outcome.ok (some (wispnet_id ∷ 0 ∷ 0 ∷ 0 ∷ 0 ∷ body)))
      × (read_ids body ≡ public_ids two_servers))
    × (wispnet_handle_packet two_servers wispnet_id [] ≡ err packet_too_small)
    × (wispnet_handle_packet two_servers wispnet_id (9 ∷ 0 ∷ 0 ∷ 0 ∷ [])
        ≡ err (invalid_stream_id (9 + 256 * 0 + 65536 * 0 + 16777216 * 0)))
    × (wispnet_handle_packet two_servers 2 (1 ∷ []) ≡ Outcome.ok none)
wispnet_handle_packet_lem_example =
    wispnet_handle_packet_lem two_servers [] [] (1 ∷ []) 9 0 0 0 2 (omega arith, tt) (omega arith)
      (λ e. omega arith) (λ e. omega arith)

-- "5" under `.wisp`; the test's base64 is the text itself.
abbrev odd_packet : ConnectPacket
odd_packet = record { stream_type = other 9; host = codes "5.wisp"; port = 1 }

decoded : wispnet_packet two_names odd_packet ≡ ok (valid_wispnet 5 odd_packet)
unfolding wispnet_packet parse_server_id is_utf8 parse_uint parse_digits
decoded = refl

generate_stats-other_example :
    (resolve_stream exact_regexes two_names hickory wispnet_config empty_cache named_sockets
        (λ mux ty host port. some true)
        two_servers
        odd_packet
      ≡ opened (record { requested = odd_packet; resolved = odd_packet }) served)
    × (generate_stats
          (some true)
          none
          (λ stats. none)
          (insert_stream 7 1 (record { requested = odd_packet; resolved = odd_packet }) one_client)
        ≡ panic)
unfolding has_wispnet route_wispnet lookup
generate_stats-other_example =
    generate_stats-other exact_regexes two_names hickory wispnet_config empty_cache named_sockets
      (λ mux ty host port. some true) two_servers true none (λ stats. none) odd_packet 5 served 7 1
      one_client (record { streams = []; kind = codes "Wisp" }) refl refl decoded refl refl refl

-- A legacy request, for the test's resolver.
abbrev proxy_path : Text
proxy_path = codes "/wisp/example.org:443"

abbrev proxied_socket : ClientStream named_sockets Bool
proxied_socket = tcp_stream (v4 public_v4, 443)

abbrev proxied_pair : StreamPair
proxied_pair = record {
  requested = web_packet;
  resolved = record web_packet { host = raw_text (v4 public_v4) };
}

abbrev no_streams : Bool → StreamType → Text → ℕ → Option Bool
no_streams mux ty host port = none

proxied_request :
    proxy_stream exact_regexes two_names hickory plain_config empty_cache named_sockets no_streams
      [] proxy_path false
    ≡ proxied proxied_pair proxied_socket
unfolding proxy_stream proxy_request proxy_packet proxy_resolved parse_uint parse_digits resolve
    host_blocked resolve_host first_address check_address resolve_name allowed_set blocked_set
    match_addr is_global ipv4_is_global has_wispnet connect connect_as connect_tcp with_nodelay
proxied_request = refl

proxy_stream-IsPermitted_example :
    Path.Names proxy_path false proxied_pair.requested
    × ((false && not plain_config.stream.allow_wsproxy_udp) ≡ false)
    × ((addr : IpAddr) × (IsPermitted plain_config.stream addr
          ⊎ SlipsThrough plain_config.stream addr)
        × Opened named_sockets Bool two_names plain_config.stream proxied_socket tcp
            (addr, proxied_pair.requested.port))
unfolding has_wispnet
proxy_stream-IsPermitted_example =
    proxy_stream-IsPermitted exact_regexes two_names hickory plain_config empty_cache named_sockets
      no_streams [] proxy_path false proxied_pair proxied_socket refl proxied_request
