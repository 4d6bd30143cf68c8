-- ===== src/Server/Http/Route/Served.antt =====
-- Which requests reach a handler.
use epoxy_tls.Base.{
  ◌⊎◌, ◌≡◌, refl, arith, Bool, true, ◌&&◌, [], ◌∷◌, ◌++◌, Option, some, if◌then◌else◌, codes,
  list_eq_refl, ap, ◌∙◌,
}
use epoxy_tls.Bytes.Utf8.{Text}
use epoxy_tls.Server.Anyhow.{ok}
use epoxy_tls.Server.Texts.{ends_with, is_some}
use epoxy_tls.Server.Config.{Config, has_wispnet, web_socket}
use epoxy_tls.Server.Http.{Request, Response, HttpDeps, get_first}
use epoxy_tls.Server.Http.Url.{endpoint_of, trim_end_slashes}
use epoxy_tls.Server.Http.Upgrade.{is_upgrade_request, upgrade}
use epoxy_tls.Server.Http.Route.{
  ws_proxy_route, wisp_route, wispnet_route, route, ip_header, ServerRouteResult, ws_upgrade,
  dispatch, upgraded, is_query,
}

ends_with_append : (s p : Text) → ends_with (s ++ p) p ≡ true
ends_with_append [] [] = refl
ends_with_append [] (c ∷ p) = ground (arith, list_eq_refl (c ∷ p))
ends_with_append (a ∷ s) p = ground (arith, ends_with_append s p)

-- The path that the page shows ends as the dispatch on the path wants it.
endpoint_of-prefix : (prefix : Text) → ends_with (endpoint_of prefix) (prefix ++ codes "/") ≡ true
unfolding endpoint_of
endpoint_of-prefix [] = refl
endpoint_of-prefix (c ∷ s) = ground (
  arith,
  ends_with_append [] ((c ∷ s) ++ codes "/"),
  ends_with_append (codes "/") ((c ∷ s) ++ codes "/"),
)

-- The configuration has the kind of connection that a callback is for.
abbrev pub is_enabled : {LevelFilter : Type 0} → Config LevelFilter → ServerRouteResult → Bool
is_enabled config (wisp_route has_ws_protocol) = true
is_enabled config wispnet_route = has_wispnet config.wisp
is_enabled config (ws_proxy_route path udp) = config.wisp.allow_wsproxy

module _ {LevelFilter : Type 0} (deps : HttpDeps) (config : Config LevelFilter)
    (stats : Text ⊎ Text) (req : Request) (stats_endpoint : Option Text) where
  -- Where the prefix ends without a slash, an upgraded request for the path that the index page
  -- shows is served as a Wisp connection, or as a wispnet one if that is enabled and the query
  -- asks for it.
  pub route-endpoint :
      (resp : Response)
      → trim_end_slashes config.wisp.prefix ≡ config.wisp.prefix
      → req.path ≡ endpoint_of (trim_end_slashes config.wisp.prefix)
      → is_upgrade_request req ≡ true
      → upgrade deps req ≡ ok resp
      → route deps config web_socket stats req stats_endpoint
        ≡ some (
          if has_wispnet config.wisp && is_query req.query (codes "net")
              then wispnet_route
              else wisp_route (is_some (get_first (req.headers (codes "sec-websocket-protocol")))),
          ip_header deps config req.headers,
        )
  unfolding route ws_upgrade dispatch upgraded
  route-endpoint resp e path up done =
      let ends : ends_with req.path (config.wisp.prefix ++ codes "/") ≡ true =
        ap (λ p. ends_with p (config.wisp.prefix ++ codes "/")) (path ∙ ap endpoint_of e)
        ∙ endpoint_of-prefix config.wisp.prefix in
      ground arith
