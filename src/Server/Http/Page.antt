-- ===== src/Server/Http/Page.antt =====
-- server/src/route.rs, `index_resp`: the fixed parts of the page, line by line.
use epoxy_tls.Base.{List, [], ◌∷◌, ◌++◌, codes}
use epoxy_tls.Bytes.Utf8.{Text}

-- The lines, with a line break between two of them.
abbrev pub join_lines : List Text → Text
join_lines [] = []
join_lines (l ∷ []) = l
join_lines (l ∷ m ∷ ls) = l ++ codes "\n" ++ join_lines (m ∷ ls)

abbrev pub page_start : Text
page_start = join_lines (
    codes "<!doctype html>"
    ∷ codes "<html lang=\"en\">"
    ∷ codes "<head>"
    ∷ codes "  <meta charset=\"utf-8\">"
    ∷ codes "  <meta name=\"viewport\" content=\"width=device-width, initial-scale=1\">"
    ∷ codes "  <title>WISP WebSocket server</title>"
    ∷ codes "  <style>"
    ∷ codes
        "    :root { color-scheme: light; font-family: ui-monospace, SFMono-Regular, \"SF Mono\", Menlo, Consolas, \"Liberation Mono\", monospace; background: #fafafa; color: #111; }"
    ∷ codes "    * { box-sizing: border-box; }"
    ∷ codes
        "    body { min-height: 100vh; margin: 0; background-image: radial-gradient(#d8d8d8 0.7px, transparent 0.7px); background-size: 16px 16px; }"
    ∷ codes
        "    .shell { width: min(72rem, calc(100% - 2rem)); min-height: 100vh; margin: 0 auto; padding: 1.25rem 0; display: flex; flex-direction: column; }"
    ∷ codes
        "    header { display: flex; align-items: center; justify-content: space-between; gap: 1rem; padding: 0.9rem 0 1.25rem; font-size: 0.72rem; letter-spacing: 0.08em; text-transform: uppercase; }"
    ∷ codes "    .brand { display: flex; align-items: center; gap: 0.65rem; font-weight: 700; }"
    ∷ codes
        "    .mark { width: 1.35rem; height: 1.35rem; display: grid; place-items: center; background: #111; color: #fafafa; }"
    ∷ codes "    .header-actions { display: flex; align-items: center; gap: 1.25rem; }"
    ∷ codes
        "    .source-link { display: inline-flex; align-items: center; gap: 0.4rem; color: #414141; text-underline-offset: 0.2rem; }"
    ∷ codes "    .source-link svg { width: 0.9rem; height: 0.9rem; fill: currentColor; }"
    ∷ codes "    .source-link:hover { color: #111; }"
    ∷ codes "    .status { display: flex; align-items: center; gap: 0.45rem; color: #414141; }"
    ∷ codes
        "    .status-dot, .pulse { width: 0.5rem; height: 0.5rem; border-radius: 50%; background: #22a06b; box-shadow: 0 0 0 3px #dff5eb; }"
    ∷ codes "    main { flex: 1; display: grid; place-items: center; padding: 4rem 0; }"
    ∷ codes
        "    .panel { width: min(52rem, 100%); background: #fafafa; border: 1px solid #111; box-shadow: 8px 8px 0 #111; }"
    ∷ codes "    .hero { padding: clamp(2rem, 6vw, 4.5rem); }"
    ∷ codes
        "    .eyebrow { margin: 0 0 1.1rem; color: #666; font-size: 0.72rem; letter-spacing: 0.1em; text-transform: uppercase; }"
    ∷ codes
        "    h1 { max-width: 16ch; margin: 0; font-size: clamp(2rem, 6vw, 4.6rem); line-height: 0.98; letter-spacing: -0.055em; }"
    ∷ codes
        "    .lede { max-width: 40rem; margin: 1.5rem 0 2.25rem; color: #414141; font-size: 0.9rem; line-height: 1.65; }"
    ∷ codes
        "    .endpoint-label { display: block; margin-bottom: 0.55rem; color: #666; font-size: 0.68rem; letter-spacing: 0.09em; text-transform: uppercase; }"
    ∷ codes
        "    .url { display: grid; grid-template-columns: minmax(0, 1fr) auto; border: 1px solid #111; background: #fff; }"
    ∷ codes
        "    code { min-width: 0; overflow-wrap: anywhere; padding: 1rem; color: #111; font: inherit; line-height: 1.4; }"
    ∷ codes
        "    button { border: 0; border-left: 1px solid #111; border-radius: 0; padding: 0 1.25rem; background: #111; color: #fff; font: inherit; font-size: 0.75rem; font-weight: 700; letter-spacing: 0.05em; text-transform: uppercase; cursor: pointer; }"
    ∷ codes "    button:hover { background: #333; }"
    ∷ codes
        "    .autoconfigure { display: inline-flex; align-items: center; gap: 0.55rem; margin-bottom: 1.5rem; padding: 0.85rem 1rem; border: 1px solid #111; background: #fff; box-shadow: 3px 3px 0 #111; color: #111; font-size: 0.68rem; font-weight: 700; letter-spacing: 0.05em; text-decoration: none; transition: transform 120ms ease, box-shadow 120ms ease; }"
    ∷ codes
        "    .autoconfigure:hover { box-shadow: 1px 1px 0 #111; transform: translate(2px, 2px); }"
    ∷ codes "    .autoconfigure:focus-visible { outline: 2px solid #111; outline-offset: 4px; }"
    ∷ codes
        "    .pulse { display: inline-block; width: 0.4rem; height: 0.4rem; background: #5ee6a8; box-shadow: none; animation: blink 1.8s infinite; }"
    ∷ codes "    @keyframes blink { 50% { opacity: 0.35; } }"
    ∷ codes "    @media (max-width: 38rem) {"
    ∷ codes "      .shell { width: min(100% - 1.25rem, 72rem); }"
    ∷ codes "      .panel { box-shadow: 5px 5px 0 #111; }"
    ∷ codes "      .url { grid-template-columns: 1fr; }"
    ∷ codes "      button { min-height: 3rem; border-left: 0; border-top: 1px solid #111; }"
    ∷ codes "    }"
    ∷ codes "  </style>"
    ∷ codes "</head>"
    ∷ codes "<body>"
    ∷ codes "  <div class=\"shell\">"
    ∷ codes "    <header>"
    ∷ codes "      <div class=\"brand\"><span class=\"mark\">W</span> WISP SERVER</div>"
    ∷ codes "      <div class=\"header-actions\">"
    ∷ codes
        "        <a class=\"source-link\" href=\"https://github.com/wasix-org/epoxy-tls\" target=\"_blank\" rel=\"noopener noreferrer\"><svg viewBox=\"0 0 16 16\" aria-hidden=\"true\"><path d=\"M8 0C3.58 0 0 3.58 0 8c0 3.54 2.29 6.53 5.47 7.59.4.07.55-.17.55-.38 0-.19-.01-.82-.01-1.49-2.01.37-2.53-.49-2.69-.94-.09-.23-.48-.94-.82-1.13-.28-.15-.68-.52-.01-.53.63-.01 1.08.58 1.23.82.72 1.21 1.87.87 2.33.66.07-.52.28-.87.51-1.07-1.78-.2-3.64-.89-3.64-3.95 0-.87.31-1.59.82-2.15-.08-.2-.36-1.02.08-2.12 0 0 .67-.21 2.2.82A7.65 7.65 0 0 1 8 3.52c.68 0 1.36.09 2 .27 1.53-1.04 2.2-.82 2.2-.82.44 1.1.16 1.92.08 2.12.51.56.82 1.27.82 2.15 0 3.07-1.87 3.75-3.65 3.95.29.25.54.73.54 1.48 0 1.07-.01 1.93-.01 2.2 0 .21.15.46.55.38A8.01 8.01 0 0 0 16 8c0-4.42-3.58-8-8-8Z\"/></svg>GitHub Source Code</a>"
    ∷ codes "        <div class=\"status\"><span class=\"status-dot\"></span> ONLINE</div>"
    ∷ codes "      </div>"
    ∷ codes "    </header>"
    ∷ codes "    <main>"
    ∷ codes "      <section class=\"panel\">"
    ∷ codes "        <div class=\"hero\">"
    ∷ codes "          <p class=\"eyebrow\">Connection established</p>"
    ∷ codes "          "
    ∷ [])

abbrev pub page_middle : Text
page_middle = join_lines (
    codes ""
    ∷ codes "          <h1>WISP WebSocket server configured!</h1>"
    ∷ codes
        "          <p class=\"lede\">Your proxy is online. Copy and paste this endpoint into your WISP-compatible client to start routing traffic.</p>"
    ∷ codes "          <label class=\"endpoint-label\" for=\"wisp-url\">WebSocket endpoint</label>"
    ∷ codes "          <div class=\"url\">"
    ∷ codes "            <code id=\"wisp-url\">"
    ∷ [])

abbrev pub page_copy : Text
page_copy = join_lines (
    codes "</code>"
    ∷ codes "            <button id=\"copy-url\" type=\"button\">Copy URL</button>"
    ∷ codes "          </div>"
    ∷ codes "        </div>"
    ∷ codes "      </section>"
    ∷ codes "    </main>"
    ∷ codes "  </div>"
    ∷ codes "  <script>"
    ∷ codes "    document.getElementById('copy-url').addEventListener('click', async (event) => {"
    ∷ codes
        "      await navigator.clipboard.writeText(document.getElementById('wisp-url').textContent);"
    ∷ codes "      event.currentTarget.textContent = 'Copied';"
    ∷ codes "    });"
    ∷ codes "  </script>"
    ∷ codes "  "
    ∷ [])

abbrev pub page_end : Text
page_end = join_lines (codes "" ∷ codes "</body>" ∷ codes "</html>" ∷ [])
