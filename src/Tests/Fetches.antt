-- ===== src/Tests/Fetches.antt =====
-- Requests of `fetch`, at concrete values.
use epoxy_tls.Base.{
  ℕ, ◌≡◌, ◌≢◌, ◌↔◌, ◌⊎◌, refl, true, false, List, [], ◌∷◌, Option, none, some, codes, map, ◌++◌,
}
use epoxy_tls.Bytes.{Payload}
use epoxy_tls.Bytes.Utf8.{Text}
use epoxy_tls.Server.Http.{to_lower}
use epoxy_tls.Client.Errors.{Result, ok, err}
use epoxy_tls.Client.Fetch.{Parts, UriDeps, Request, Response, send_req}
use epoxy_tls.Client.Fetch.Redirects.{Done, send_req-Done}
use epoxy_tls.Client.Fetch.Headers.{HeaderDeps, HeaderMap, request_headers}
use epoxy_tls.Client.Fetch.Headers.Given.{request_headers_lem}
use epoxy_tls.Client.Socket.{socket_connect, onmessage, onclose}
use epoxy_tls.Client.Socket.Order.{happens, arrives, closes, payloads, polls, closed_drops}
use epoxy_tls.Client.Websocket
use epoxy_tls.Client.Websocket.{Frame, text, control, onopen, onerror, ws_connect}
use epoxy_tls.Client.Websocket.Calls.{messages, IsUpgrade, end_read, farewell, ws_connect-IsUpgrade}

-- URIs that are their parts; a text is a path.
abbrev path_uris : UriDeps Parts
path_uris = record {
  parse = λ t. some (record { scheme = none; authority = none; path_and_query = some t });
  parts = λ u. u;
  from_parts = λ u. some u;
  to_str = λ v. some v;
}

abbrev uri_of : Text → Parts
uri_of path = record {
  scheme = some (codes "https");
  authority = some (codes "example.org");
  path_and_query = some path;
}

-- A server that redirects the first request, and every request after it.
abbrev redirecting : List (Request Parts ℕ) → Request Parts ℕ → Result (Response ℕ)
redirecting sent req =
    ok (record { status = 302; headers = λ name. codes "/next" ∷ []; content = 0 })

abbrev first_request : Request Parts ℕ
first_request = record { uri = uri_of (codes "/"); head = 1 }

send_req-Done_example :
    Done path_uris redirecting true 3 [] first_request false
      (send_req path_uris redirecting 3 first_request true)
send_req-Done_example = send_req-Done path_uris redirecting true 3 first_request

some_inj : (t n : Text) → ◌≡◌ {A = Option Text} (some t) (some n) → t ≡ n
some_inj t n h = cc

abbrev lower_names : HeaderDeps
lower_names = record {
  header_name = λ t. some (map to_lower t);
  header_value = λ t. some t;
  to_lowercase = map to_lower;
  header_name_lower = λ t n. some_inj (map to_lower t) n;
}

abbrev given_headers : List (Text × Text)
given_headers =
    (codes "Host", codes "other.org")
    ∷ (codes "Accept", codes "a")
    ∷ (codes "ACCEPT", codes "b")
    ∷ []

abbrev sent_headers : HeaderMap
sent_headers n =
    elim (request_headers lower_names (codes "agent") none given_headers (codes "POST") true) [
      | ok m ↦ m n
      | err e ↦ none
    ]

not_the_host : codes "accept" ≢ codes "host"
not_the_host = λ e. cc

request_headers_lem_example :
    (sent_headers (codes "host") ≡ none) × (sent_headers (codes "accept") ≡ some (codes "b"))
unfolding request_headers
request_headers_lem_example =
    request_headers_lem lower_names (codes "agent") none given_headers (codes "POST") true
      sent_headers (codes "accept") not_the_host refl

abbrev cookies : List (Text × Payload)
cookies =
    (codes "set-cookie", codes "a")
    ∷ (codes "server", codes "s")
    ∷ (codes "set-cookie", codes "b")
    ∷ []

closed_drops_example :
    let s = happens socket_connect (arrives (some (codes "late")) ∷ closes ∷ []) in
    (s.arrived ≡ s.given ++ payloads s.queue)
    × ((happens s (polls true ∷ polls true ∷ [])).given ≡ s.given)
unfolding socket_connect onmessage onclose
closed_drops_example =
    closed_drops (arrives (some (codes "late")) ∷ closes ∷ []) (polls true ∷ polls true ∷ []) refl
      refl

abbrev switching : Websocket.Response
switching = record {
  status = 101;
  upgrade = some (codes "WebSocket");
  connection = some (codes "upgrade");
}

-- A text, a ping and a close frame, and a frame that is never read.
abbrev chat : List Frame
chat =
    record { opcode = text; payload = codes "hi" } ∷ record { opcode = control; payload = [] } ∷ []

ws_connect-IsUpgrade_example :
    let (result, calls) =
      ws_connect (ok switching) (ok tt) (map some chat ++ (end_read (some []) ∷ (none ∷ []))) in
    ((result ≡ ok tt) ↔ (IsUpgrade switching × (◌≡◌ {A = Result (Unit {0})} (ok tt) (ok tt))))
    × ((result ≡ ok tt) × (calls ≡ onopen ∷ (messages chat ++ farewell (some [])))
        ⊎ (result ≢ ok tt) × (calls ≡ onerror ∷ []))
ws_connect-IsUpgrade_example =
    ws_connect-IsUpgrade switching (ok tt) chat (some []) (none ∷ []) (tt, (tt, tt))
