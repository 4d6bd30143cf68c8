-- ===== src/Server/Http/Upgrade.antt =====
-- server/src/upgrade.rs: the websocket upgrade of a request.
use epoxy_tls.Base.{
  ℕ, Bool, true, false, ◌||◌, ◌&&◌, List, [], ◌∷◌, ◌++◌, Option, none, some, ◌==◌, list_eq,
  if◌then◌else◌, codes,
}
use epoxy_tls.Bytes.{Payload}
use epoxy_tls.Bytes.Utf8.{Text}
use epoxy_tls.Server.Anyhow.{Anyhow, ◌>>=◌, try, ensure}
use epoxy_tls.Server.Http.{
  HeaderMap, Request, Response, HttpDeps, get_first, eq_ignore_case, split_parts,
}

-- `u8::is_ascii_whitespace`
abbrev pub is_space : ℕ → Bool
is_space b = b == 32 || b == 9 || b == 10 || b == 12 || b == 13

-- `position` of the first byte that is no white space, and what stands from it on.
unfoldable pub trim_start : Payload → Payload
trim_start [] = []
trim_start (c ∷ s) = let rest = trim_start s in if is_space c then rest else c ∷ s

-- `rposition`, and what stands up to it.
unfoldable pub trim_end : Payload → Payload
trim_end [] = []
trim_end (c ∷ s) = elim (trim_end s) [ [] ↦ if is_space c then [] else c ∷ [] | d ∷ t ↦ c ∷ d ∷ t ]

unfoldable pub trim : Payload → Payload
unfolding trim_start trim_end
trim value = trim_end (trim_start value)

abbrev pub any_part : List Payload → Text → Bool
unfolding trim
any_part [] value = false
any_part (x ∷ xs) value = eq_ignore_case (trim x) value || any_part xs value

-- The parts of a header's value between commas.
abbrev pub comma_parts : Payload → List Payload
comma_parts header = let (part, parts) = split_parts b',' header in part ∷ parts

-- The loop over the values of a header.
unfoldable pub values_contain : List Payload → Text → Bool
values_contain [] value = false
values_contain (header ∷ headers) value =
    let rest = values_contain headers value in
    if any_part (comma_parts header) value then true else rest

unfoldable pub header_contains_value : HeaderMap → Text → Text → Bool
unfolding values_contain
header_contains_value headers header value = values_contain (headers header) value

unfoldable pub is_upgrade_request : Request → Bool
unfolding header_contains_value
is_upgrade_request request =
    header_contains_value request.headers (codes "connection") (codes "Upgrade")
    && header_contains_value request.headers (codes "upgrade") (codes "websocket")

abbrev pub magic : Payload
magic = codes "258EAFA5-E914-47DA-95CA-C5AB0DC85B11"

abbrev is_version_13 : Option Payload → Bool
is_version_13 none = false
is_version_13 (some version) = list_eq version (codes "13")

module _ (deps : HttpDeps) where
  -- The accept value of RFC 6455.
  unfoldable pub sec_websocket_protocol : Payload → Payload
  sec_websocket_protocol key = deps.encode (deps.sha1 (key ++ magic))

  abbrev pub upgrade_response : Payload → Response
  unfolding sec_websocket_protocol
  upgrade_response key = record {
    status = 101;
    headers =
        (codes "connection", codes "upgrade")
        ∷ (codes "upgrade", codes "websocket")
        ∷ (codes "sec-websocket-accept", sec_websocket_protocol key)
        ∷ [];
    body = [];
  }

  -- The response; the future of the upgraded stream, which hyper makes of the request, is left
  -- out.
  unfoldable pub upgrade : Request → Anyhow Response
  upgrade request = do
    key ← try (get_first (request.headers (codes "sec-websocket-key")))
    ensure (is_version_13 (get_first (request.headers (codes "sec-websocket-version"))))
        (try (deps.build (upgrade_response key)))
