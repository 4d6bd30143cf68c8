-- ===== src/Tests/Handshake.antt =====
-- Handshakes over concrete frames.
use epoxy_tls.Base.{
  ℕ, ◌≡◌, ◌↔◌, ◌&&◌, refl, arith, true, false, List, [], ◌∷◌, ◌++◌, map, contains, Option, none,
  some, Outcome, ok,
}
use epoxy_tls.Bytes.{Payload}
use epoxy_tls.Packet.Codec.{
  packet_encode, new_continue, packet_encode_into, packet_type_encode, get_type,
  continue_encode_into,
}
use epoxy_tls.Packet.Info.{info_encode, encode_extensions, version_encode_into}
use epoxy_tls.Extension.Any.{
  extension_encode_into, extension_encode, get_id, builder_get_id, udp_extension, udp_builder,
  motd_builder,
}
use epoxy_tls.Mux.Conn.{Conn}
use epoxy_tls.Mux.Supported.{
  validate_continue_packet, get_supported_extensions, with_required_extensions,
}
use epoxy_tls.Mux.Intersection.{get_supported_extensions_lem, with_required_extensions_lem}
use epoxy_tls.Extension.Motd.{client_motd}
use epoxy_tls.Mux.Handshake.{v1_result, handshake_new, client_handshake, server_handshake}
use epoxy_tls.Mux.Agreement.{handshake_v1, validate_continue_packet_lem}
use epoxy_tls.Mux.Udp.{udp_only, agreed, handshake_udp}
use epoxy_tls.Tests.Instances.{list_buf, plain_certs}

abbrev no_random : ℕ → Option Payload
no_random i = none

-- CONTINUE on stream 0 with 128.
abbrev grant_bytes : Payload
grant_bytes = 0x03 ∷ 0 ∷ 0 ∷ 0 ∷ 0 ∷ 128 ∷ 0 ∷ 0 ∷ 0 ∷ []

abbrev greeting_bytes : Payload
greeting_bytes = 0x05 ∷ 0 ∷ 0 ∷ 0 ∷ 0 ∷ 2 ∷ 0 ∷ 1 ∷ 0 ∷ 0 ∷ 0 ∷ 0 ∷ []

abbrev conn : List (Outcome Payload) → Conn
conn rx = record {
  rx = rx;
  answer = λ p. none;
  close_answer = none;
  sent = [];
  locked = false;
  shut = false;
}

grant_bytes_encode : packet_encode (new_continue 0 128) ≡ grant_bytes
unfolding packet_encode packet_encode_into new_continue packet_type_encode get_type
    continue_encode_into
grant_bytes_encode = refl

handshake_v1_example :
    ((server_handshake 128 none no_random (conn [])).0
      ≡ ok (record { kind = v1_result none; downgraded = false; buffer_size = 128 }))
    × ((client_handshake (some (handshake_new udp_only)) no_random (conn (ok grant_bytes ∷ []))).0
        ≡ ok (record { kind = v1_result none; downgraded = true; buffer_size = 128 }))
unfolding server_handshake
handshake_v1_example =
    handshake_v1 (conn []) (conn (ok grant_bytes ∷ [])) (some (handshake_new udp_only)) no_random
      no_random 128 (omega arith) refl refl (rw grant_bytes_encode refl)

validate_continue_packet_lem_example :
    (validate_continue_packet (new_continue 0 128) ≡ ok 128)
    ↔ (new_continue 0 128 ≡ new_continue 0 128)
validate_continue_packet_lem_example = validate_continue_packet_lem (new_continue 0 128) 128

abbrev both : List (Outcome Payload)
both = ok greeting_bytes ∷ ok (packet_encode (new_continue 0 128)) ∷ []

handshake_udp_example :
    let (r, c') =
      server_handshake 128
        (some (handshake_new udp_only))
        no_random
        (conn (ok greeting_bytes ∷ [])) in
    let (r', d') = client_handshake (some (handshake_new udp_only)) no_random (conn both) in
    (r ≡ ok (agreed 128))
    × (c'.sent ≡ ([] ++ (greeting_bytes ∷ [])) ++ (packet_encode (new_continue 0 128) ∷ []))
    × (r' ≡ ok (agreed 128))
    × (d'.sent ≡ [] ++ (greeting_bytes ∷ []))
unfolding info_encode encode_extensions version_encode_into extension_encode_into extension_encode
    get_id
handshake_udp_example =
    handshake_udp (conn (ok greeting_bytes ∷ [])) (conn both) no_random no_random 128 greeting_bytes
      (omega arith) refl (λ p. refl) (λ p. refl) refl refl

get_supported_extensions_lem_example :
    contains
      (map get_id (
        get_supported_extensions
          (udp_extension ∷ [])
          (udp_builder ∷ motd_builder client_motd ∷ [])))
      0x04
    ≡ (contains (map get_id (udp_extension ∷ [])) 0x04
        && contains (map builder_get_id (udp_builder ∷ motd_builder client_motd ∷ [])) 0x04)
get_supported_extensions_lem_example =
    get_supported_extensions_lem (udp_extension ∷ []) (udp_builder ∷ motd_builder client_motd ∷ [])
      0x04

with_required_extensions_lem_example :
    (with_required_extensions (0x01 ∷ 0x02 ∷ []) (udp_extension ∷ []) none none ≡ none) ↔ (
      (id : ℕ)
      → contains (0x01 ∷ 0x02 ∷ []) id ≡ true
      → contains (map get_id (udp_extension ∷ [])) id ≡ true)
with_required_extensions_lem_example =
    with_required_extensions_lem (0x01 ∷ 0x02 ∷ []) (udp_extension ∷ []) none none
