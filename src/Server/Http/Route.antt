-- ===== src/Server/Http/Route.antt =====
-- server/src/route.rs: which handler a connection goes to.
pub mod Served
use epoxy_tls.Base.{
  ℕ, Bool, true, false, ◌||◌, ◌&&◌, List, [], ◌∷◌, ◌++◌, Option, none, some, ◌==◌, list_eq,
  if◌then◌else◌, codes, ◌⊎◌, inl, inr,
}
use epoxy_tls.Bytes.{Payload}
use epoxy_tls.Bytes.Utf8.{Text}
use epoxy_tls.Server.Anyhow.{Anyhow, ok, error, panic, ◌>>=◌, try, ensure}
use epoxy_tls.Server.Texts.{ends_with, is_some}
use epoxy_tls.Server.Config.{Config, has_wispnet, SocketTransport, web_socket, length_delimited_le}
use epoxy_tls.Server.Http.{HeaderMap, Request, Response, HttpDeps, get_first, get_header, or_else}
use epoxy_tls.Server.Http.Index.{non_ws_resp}
use epoxy_tls.Server.Http.Upgrade.{is_upgrade_request, upgrade}

pub data HttpUpgradeResult : Type 0 where
  wisp_upgrade : Bool → Bool → HttpUpgradeResult
  ws_proxy_upgrade : Text → Bool → HttpUpgradeResult

-- The stream is left to the caller of the callback.
pub data ServerRouteResult : Type 0 where
  wisp_route : Bool → ServerRouteResult
  wispnet_route : ServerRouteResult
  ws_proxy_route : Text → Bool → ServerRouteResult

-- The answer to a request, and the call of the callback that was spawned.
abbrev pub Answer : Type 0
Answer = Anyhow Response × Option (HttpUpgradeResult × Option Text)

abbrev pub is_query : Option Text → Text → Bool
is_query none value = list_eq [] value
is_query (some query) value = list_eq query value

abbrev pub add_protocol : Option Payload → Response → Response
add_protocol none resp = resp
add_protocol (some protocol) resp = record resp {
  headers = resp.headers ++ ((codes "sec-websocket-protocol", protocol) ∷ []);
}

-- `req.uri().path() == stats_endpoint`
abbrev is_stats : Option Text → Text → Bool
is_stats none path = false
is_stats (some stats_endpoint) path = list_eq path stats_endpoint

module _ {LevelFilter : Type 0} (deps : HttpDeps) (config : Config LevelFilter) where
  -- The statistics are text, or the text of an error.
  unfoldable pub send_stats : Text ⊎ Text → Anyhow Response
  send_stats (inl x) = try (deps.build (record { status = 200; headers = []; body = x }))
  send_stats (inr x) = try (deps.build (record { status = 500; headers = []; body = x }))

  unfoldable pub ip_header : HeaderMap → Option Text
  unfolding get_header
  ip_header headers =
      if config.server.use_real_ip_headers
      then or_else (get_header deps headers (codes "x-real-ip"))
          (get_header deps headers (codes "x-forwarded-for"))
      else none

  -- The dispatch on the path of an upgraded request.
  unfoldable pub dispatch : Request → Response → Answer
  unfolding ip_header
  dispatch req resp =
      if ends_with req.path (config.wisp.prefix ++ codes "/")
      then (
        ok (add_protocol (get_first (req.headers (codes "sec-websocket-protocol"))) resp),
        some (
          wisp_upgrade (is_some (get_first (req.headers (codes "sec-websocket-protocol"))))
              (has_wispnet config.wisp && is_query req.query (codes "net")),
          ip_header req.headers,
        ),
      )
      else if config.wisp.allow_wsproxy
      then (
        ok resp,
        some (ws_proxy_upgrade req.path (is_query req.query (codes "udp")), ip_header req.headers),
      )
      else (non_ws_resp deps config req, none)

  -- The upgrade before the dispatch; the body of the answer is empty.
  abbrev dispatch_result : Request → Anyhow Response → Answer
  dispatch_result req (ok resp) = dispatch req (record resp { body = [] })
  dispatch_result req error = (error, none)
  dispatch_result req panic = (panic, none)

  unfoldable pub ws_upgrade : Text ⊎ Text → Request → Option Text → Answer
  unfolding dispatch send_stats
  ws_upgrade stats req stats_endpoint =
      if is_upgrade_request req
      then dispatch_result req (upgrade deps req)
      else if is_stats stats_endpoint req.path
      then (send_stats stats, none)
      else (non_ws_resp deps config req, none)

  -- The callback's argument for an upgraded stream.
  unfoldable pub upgraded : HttpUpgradeResult → ServerRouteResult
  upgraded (wisp_upgrade has_ws_protocol is_wispnet) =
      if is_wispnet then wispnet_route else wisp_route has_ws_protocol
  upgraded (ws_proxy_upgrade path udp) = ws_proxy_route path udp

  abbrev pub call_back :
      Option (HttpUpgradeResult × Option Text) → Option (ServerRouteResult × Option Text)
  unfolding upgraded
  call_back none = none
  call_back (some (res, maybe_ip)) = some (upgraded res, maybe_ip)

  -- What the callback is called with: for a request of a websocket connection, or at once for a
  -- connection of delimited frames.
  unfoldable pub route :
      SocketTransport
      → Text ⊎ Text
      → Request
      → Option Text
      → Option (ServerRouteResult × Option Text)
  unfolding ws_upgrade
  route web_socket stats req stats_endpoint = call_back (ws_upgrade stats req stats_endpoint).1
  route length_delimited_le stats req stats_endpoint = some (wisp_route true, none)
