-- ===== src/Client/Errors.antt =====
-- client/src/lib.rs: the client's error type, without the payloads that other crates and the browser
-- make, and the result of a call.
use epoxy_tls.Base.{ℕ, ◌≡◌, refl, Option, none, some}
use epoxy_tls.Bytes.Utf8.{Text}

pub data EpoxyError : Type 0 where
  invalid_dns_name : EpoxyError
  wisp_error : EpoxyError
  wisp_close_reason : EpoxyError
  io : EpoxyError
  http : EpoxyError
  hyper_client : EpoxyError
  hyper : EpoxyError
  to_str_error : EpoxyError
  rustls : EpoxyError
  pemfile : EpoxyError
  webpki : EpoxyError
  web_socket_connect_failed : EpoxyError
  wisp_transport : EpoxyError
  invalid_wisp_transport : EpoxyError
  invalid_wisp_transport_packet : EpoxyError
  wisp_transport_closed : EpoxyError
  fast_web_sockets : EpoxyError
  ws_invalid_status_code : ℕ → ℕ → EpoxyError
  ws_invalid_upgrade_header : Text → EpoxyError
  ws_invalid_connection_header : Text → EpoxyError
  ws_invalid_payload : EpoxyError
  invalid_url : EpoxyError
  invalid_url_scheme : Option Text → EpoxyError
  no_url_host : EpoxyError
  no_url_port : EpoxyError
  invalid_request_body : EpoxyError
  invalid_request : EpoxyError
  invalid_payload : EpoxyError
  response_headers_from_entries_failed : EpoxyError
  response_new_failed : EpoxyError
  streaming_body_convert_failed : EpoxyError
  streaming_body_tee_failed : EpoxyError
  streaming_body_collect_failed : EpoxyError

pub data Result (A : Type 0) : Type 0 where
  ok : A → Result A
  err : EpoxyError → Result A

infixl 5 ◌>>=◌
abbrev pub ◌>>=◌ : {A B : Type 0} → Result A → (A → Result B) → Result B
ok a >>= f = f a
err e >>= f = err e

-- `Option::ok_or(e)?`
abbrev pub ok_or : {A : Type 0} → Option A → EpoxyError → Result A
ok_or none e = err e
ok_or (some a) e = ok a

-- What a successful call went through.
pub bind-ok :
    {A B : Type 0} (r : Result A) (f : A → Result B) {b : B}
    → (r >>= f) ≡ ok b
    → (a : A) × (r ≡ ok a) × (f a ≡ ok b)
bind-ok (ok a) f h = (a, refl, h)
bind-ok (err e) f h = cc

pub ok_or-bind :
    {A B : Type 0} (o : Option A) (e : EpoxyError) (f : A → Result B) {b : B}
    → (ok_or o e >>= f) ≡ ok b
    → (a : A) × (o ≡ some a) × (f a ≡ ok b)
ok_or-bind none e f h = cc
ok_or-bind (some a) e f h = (a, refl, h)
