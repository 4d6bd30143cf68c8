-- ===== src/Tests/Refused.antt =====
-- A client with a wrong password, at a server that requires one.
use epoxy_tls.Base.{
  ℕ, ◌≡◌, refl, true, false, [], ◌∷◌, ◌++◌, Option, none, some, ok, err, server, if◌then◌else◌,
  list_eq, password_extension_creds_invalid,
}
use epoxy_tls.Bytes.{Payload}
use epoxy_tls.Bytes.Utf8.{is_utf8, from_utf8}
use epoxy_tls.Packet.Kinds.{extensions_password_auth_failed}
use epoxy_tls.Packet.Codec.{packet_encode, new_close}
use epoxy_tls.Packet.Info.{
  Builders, info_encode, encode_extensions, version_encode_into, maybe_info_decode, info_decode,
  read_extensions, read_extension, build_found,
}
use epoxy_tls.Extension.Password.{
  Users, server_before, password_encode, password_build_from_bytes, password_build_to_extension,
  read_creds,
}
use epoxy_tls.Extension.Any.{
  password_builder, get_id, builder_get_id, extension_encode, extension_encode_into,
  build_from_bytes, build_to_extension, build_extensions,
}
use epoxy_tls.Mux.Conn.{Conn}
use epoxy_tls.Mux.Handshake.{WispV2Handshake, send_info_packet}
use epoxy_tls.Mux.Create.{server_create, auth_failed}
use epoxy_tls.Tests.Instances.{list_buf, plain_certs}

-- One user "a" with the password "pw".
abbrev pub users : Users
users name = if list_eq name (0x61 ∷ []) then some (0x70 ∷ 0x77 ∷ []) else none

abbrev builders : Builders
builders = password_builder (server_before users true) ∷ []

abbrev handshake : WispV2Handshake
handshake = record { builders = builders; closure = ok }

abbrev pub greeting : Payload
greeting = 0x05 ∷ 0 ∷ 0 ∷ 0 ∷ 0 ∷ 2 ∷ 0 ∷ 2 ∷ 1 ∷ 0 ∷ 0 ∷ 0 ∷ 1 ∷ []

-- The name "a" with the password "x".
abbrev answer : Payload
answer = 0x05 ∷ 0 ∷ 0 ∷ 0 ∷ 0 ∷ 2 ∷ 0 ∷ 2 ∷ 3 ∷ 0 ∷ 0 ∷ 0 ∷ 1 ∷ 0x61 ∷ 0x78 ∷ []

abbrev pub no_random : ℕ → Option Payload
no_random i = none

abbrev pub start : Conn
start = record {
  rx = ok answer ∷ [];
  answer = λ p. none;
  close_answer = none;
  sent = [];
  locked = false;
  shut = false;
}

abbrev greeted : Conn
greeted = record start { sent = greeting ∷ [] }

greeting_sent : send_info_packet builders server no_random start ≡ (ok builders, greeted)
unfolding send_info_packet build_extensions build_to_extension password_build_to_extension
    info_encode version_encode_into encode_extensions extension_encode_into extension_encode
    password_encode get_id
greeting_sent = refl

answer_refused : maybe_info_decode answer builders server ≡ err password_extension_creds_invalid
unfolding maybe_info_decode info_decode read_extensions read_extension build_found build_from_bytes
    password_build_from_bytes read_creds from_utf8 is_utf8 builder_get_id
answer_refused = refl

auth_failed_example : server_create 128 (some handshake) no_random start ≡ (
  err password_extension_creds_invalid,
  record greeted {
    rx = [];
    sent = (greeting ∷ []) ++ (packet_encode (new_close 0 extensions_password_auth_failed) ∷ []);
    locked = false;
    shut = true;
  },
)
auth_failed_example =
    auth_failed 128 handshake no_random start greeted builders builders answer []
      password_extension_creds_invalid extensions_password_auth_failed greeting_sent refl refl
      answer_refused refl refl refl
