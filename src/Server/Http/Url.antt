-- ===== src/Server/Http/Url.antt =====
-- server/src/route.rs: the address of the server that its page shows, and the bridge to it.
use epoxy_tls.Base.{
  Bool, ◌||◌, [], ◌∷◌, ◌++◌, Option, none, some, ◌==◌, if◌then◌else◌, codes, list_eq,
}
use epoxy_tls.Bytes.Utf8.{Text}
use epoxy_tls.Server.Texts.{starts_with, is_some_and, contains_text}
use epoxy_tls.Server.Http.{
  Request, HttpDeps, get_header, first_header_value, eq_ignore_case, or_else, and_then,
}

-- `trim_end_matches('/')`
abbrev pub trim_end_slashes : Text → Text
trim_end_slashes [] = []
trim_end_slashes (c ∷ s) = elim (trim_end_slashes s) [
  | [] ↦ if c == b'/' then [] else c ∷ []
  | d ∷ t ↦ c ∷ d ∷ t
]

abbrev slash : Text
slash = codes "/"

-- The path at which the page tells clients to connect.
unfoldable pub endpoint_of : Text → Text
endpoint_of [] = slash
endpoint_of (c ∷ s) =
    if starts_with (c ∷ s) slash then (c ∷ s) ++ slash else slash ++ (c ∷ s) ++ slash

abbrev localhost : Text
localhost = codes "localhost:4000"

abbrev pub unwrap_or {ℓ} : {A : Type ℓ} → Option A → A → A
unwrap_or none b = b
unwrap_or (some a) b = a

module _ (deps : HttpDeps) where
  -- Whether a proxy in front says that it was reached over TLS.
  unfoldable pub is_secure : Request → Bool
  unfolding first_header_value
  is_secure req =
      is_some_and (first_header_value deps req.headers (codes "x-forwarded-proto"))
        (λ value. eq_ignore_case value (codes "https") || eq_ignore_case value (codes "wss"))
      || is_some_and (first_header_value deps req.headers (codes "x-forwarded-ssl"))
          (λ value. eq_ignore_case value (codes "on"))

  unfoldable pub host_of : Request → Text
  unfolding first_header_value get_header
  host_of req =
      unwrap_or
        (or_else (first_header_value deps req.headers (codes "x-forwarded-host"))
          (get_header deps req.headers (codes "host")))
        localhost

  unfoldable pub websocket_url : Text → Request → Text
  unfolding is_secure host_of endpoint_of
  websocket_url prefix req =
      (if is_secure req then codes "wss" else codes "ws")
      ++ codes "://"
      ++ host_of req
      ++ endpoint_of (trim_end_slashes prefix)

  abbrev with_scheme : Text → Text
  with_scheme configured =
      if contains_text configured (codes "://") then configured else codes "https://" ++ configured

  -- The answer for a target whose scheme and authority were read.
  abbrev bridge : Text → Option Text × Option Text → Option (Text × Text)
  bridge target (none, authority) = none
  bridge target (some scheme, none) = none
  bridge target (some scheme, some authority) =
      if list_eq scheme (codes "http") || list_eq scheme (codes "https")
      then some (target, authority)
      else none

  abbrev configured_target : Text → Option (Text × Text)
  configured_target [] = none
  configured_target (c ∷ s) =
      and_then (deps.parse_uri (with_scheme (c ∷ s))) (bridge (with_scheme (c ∷ s)))

  unfoldable pub autoconfigure_target : Option Text → Option (Text × Text)
  autoconfigure_target domain = and_then domain (λ d. configured_target (deps.trim d))
