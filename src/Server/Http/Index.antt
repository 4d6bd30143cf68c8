-- ===== src/Server/Http/Index.antt =====
-- server/src/route.rs, `index_resp` and `non_ws_resp`: the page at the root, and the answer to any
-- other request that is no websocket.
use epoxy_tls.Base.{[], ◌∷◌, ◌++◌, Option, none, some, codes, list_eq, if◌then◌else◌}
use epoxy_tls.Bytes.Utf8.{Text}
use epoxy_tls.Server.Anyhow.{Anyhow, ok, ◌>>=◌, try}
use epoxy_tls.Server.Config.{Config}
use epoxy_tls.Server.Http.{Request, Response, HttpDeps}
use epoxy_tls.Server.Http.Escape.{html_escape}
use epoxy_tls.Server.Http.Url.{websocket_url, autoconfigure_target}
use epoxy_tls.Server.Http.Page.{join_lines, page_start, page_middle, page_copy, page_end}

unfoldable pub autoconfigure_link : Option (Text × Text) → Text
autoconfigure_link none = []
autoconfigure_link (some (bridge_url, label)) =
    codes "<a id=\"autoconfigure\" class=\"autoconfigure\" href=\""
    ++ html_escape bridge_url
    ++ codes "\"><span class=\"pulse\"></span>Automatically connect to "
    ++ html_escape label
    ++ codes "</a>"

abbrev pub script_start : Text
script_start =
    join_lines (codes "<script>" ∷ codes "  (() => {" ∷ codes "    const bridgeUrl = " ∷ [])

abbrev pub script_middle : Text
script_middle = join_lines (codes ";" ∷ codes "    const endpoint = " ∷ [])

abbrev pub script_end : Text
script_end = join_lines (
    codes ";"
    ∷ codes "    const target = new URL(bridgeUrl);"
    ∷ codes "    target.searchParams.set('endpoint', endpoint);"
    ∷ codes "    document.getElementById('autoconfigure').href = target.href;"
    ∷ codes "  })();"
    ∷ codes "</script>"
    ∷ [])

module _ (deps : HttpDeps) where
  unfoldable pub autoconfigure_script : Option (Text × Text) → Text → Anyhow Text
  autoconfigure_script none raw_url = ok []
  autoconfigure_script (some (bridge_url, label)) raw_url = do
    bridge_url' ← try (deps.json bridge_url)
    endpoint ← try (deps.json raw_url)
    ok (script_start ++ bridge_url' ++ script_middle ++ endpoint ++ script_end)

  unfoldable pub index_page : Text → Option (Text × Text) → Anyhow Text
  unfolding autoconfigure_link autoconfigure_script
  index_page raw_url autoconfigure = do
    script ← autoconfigure_script autoconfigure raw_url
    ok (
        page_start
        ++ autoconfigure_link autoconfigure
        ++ page_middle
        ++ html_escape raw_url
        ++ page_copy
        ++ script
        ++ page_end)

  module _ {LevelFilter : Type 0} (config : Config LevelFilter) where
    unfoldable pub index_resp : Request → Anyhow Response
    unfolding index_page
    index_resp req = do
      html ←
          index_page (websocket_url deps config.wisp.prefix req)
            (autoconfigure_target deps config.server.autoconfigure_domain)
      try (
          deps.build (record {
            status = 200;
            headers =
                (codes "content-type", codes "text/html; charset=utf-8")
                ∷ (codes "cache-control", codes "no-store")
                ∷ [];
            body = html;
          }))

    abbrev plain_resp : Anyhow Response
    plain_resp = try (
        deps.build (record {
          status = 200;
          headers = (codes "content-type", codes "text/plain; charset=utf-8") ∷ [];
          body = config.server.non_ws_response;
        }))

    unfoldable pub non_ws_resp : Request → Anyhow Response
    unfolding index_resp
    non_ws_resp req = if list_eq req.path (codes "/") then index_resp req else plain_resp
