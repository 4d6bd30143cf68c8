-- ===== src/Mux/Udp.antt =====
-- The handshake of version 2 between two sides that offer UDP.
use epoxy_tls.Base.{
  ℕ, ◌≡◌, refl, arith, false, [], ◌∷◌, ◌++◌, Option, none, some, ok, Role, server, client,
  wisp_version,
}
use epoxy_tls.Bytes.{Buf, Payload, IsU32}
use epoxy_tls.Packet.Codec.{packet_encode, new_continue}
use epoxy_tls.Packet.RoundTrip.{packet_decode-encode}
use epoxy_tls.Packet.Info.{
  InfoPacket, info, info_encode, maybe_info_decode, Builders, build_found, read_extension,
}
use epoxy_tls.Packet.Info.Frames.{maybe_info_decode-encode}
use epoxy_tls.Extension.Cert.{CertDeps}
use epoxy_tls.Extension.Any.{
  udp_extension, udp_builder, get_id, builder_get_id, extension_encode, build_from_bytes,
  build_to_extension, build_extensions,
}
use epoxy_tls.Mux.Supported.{get_supported_extensions, handle_extensions}
use epoxy_tls.Mux.Conn.{Conn, next_erroring}
use epoxy_tls.Mux.Handshake.{
  WispHandshakeResult, v2_result, handshake_new, client_handshake, server_handshake,
  read_buffer_size, send_info_packet, handle_handshake,
}
use epoxy_tls.Mux.Agreement.{validate_continue_packet_lem, new_continue-IsPacket}

abbrev pub udp_only : Builders
udp_only = udp_builder ∷ []

abbrev pub udp_info : InfoPacket
udp_info = record { version = wisp_version; extensions = udp_extension ∷ [] }

abbrev pub agreed : ℕ → WispHandshakeResult
agreed size = record {
  kind = v2_result (udp_extension ∷ []);
  downgraded = false;
  buffer_size = size;
}

module _ ⦃buf : Buf⦄ ⦃deps : CertDeps⦄ where
  maybe_info_decode-udp :
      (greeting : Payload) (role : Role)
      → info_encode udp_info ≡ ok greeting
      → maybe_info_decode greeting udp_only role ≡ ok (info udp_info, udp_only)
  unfolding get_id extension_encode build_found read_extension build_from_bytes builder_get_id
  maybe_info_decode-udp greeting role e =
      let d =
        maybe_info_decode-encode udp_info ((1, []) ∷ []) udp_only role greeting (refl, refl, tt)
          (omega arith) e in
      rw d refl

  send_info_packet-udp :
      (greeting : Payload) (role : Role) (random : ℕ → Option Payload) (c : Conn)
      → info_encode udp_info ≡ ok greeting
      → c.answer greeting ≡ none
      → send_info_packet udp_only role random c
        ≡ (ok udp_only, record c { sent = c.sent ++ (greeting ∷ []); locked = false })
  unfolding send_info_packet build_extensions build_to_extension
  send_info_packet-udp greeting role random c e a = rw (e, a) refl

  -- Two sides of version 2 that offer UDP and no middleware, over transports that take every frame,
  -- each of which reads what the other sends: both end the handshake with UDP and the server's
  -- buffer size, and send nothing else.
  pub handshake_udp :
      (c d : Conn) (random random' : ℕ → Option Payload) (size : ℕ) (greeting : Payload)
      → IsU32 size
      → info_encode udp_info ≡ ok greeting
      → ((p : Payload) → c.answer p ≡ none)
      → ((p : Payload) → d.answer p ≡ none)
      → c.rx ≡ ok greeting ∷ []
      → d.rx ≡ ok greeting ∷ ok (packet_encode (new_continue 0 size)) ∷ []
      → let (r, c') = server_handshake size (some (handshake_new udp_only)) random c in
        let (r', d') = client_handshake (some (handshake_new udp_only)) random' d in
        (r ≡ ok (agreed size))
        × (c'.sent ≡ (c.sent ++ (greeting ∷ [])) ++ (packet_encode (new_continue 0 size) ∷ []))
        × (r' ≡ ok (agreed size))
        × (d'.sent ≡ d.sent ++ (greeting ∷ []))
  unfolding server_handshake client_handshake handshake_new next_erroring read_buffer_size
      handle_handshake get_supported_extensions handle_extensions get_id builder_get_id
  handshake_udp c d random random' size greeting b e a a' rc rd =
      let k = new_continue 0 size in
      let decoded = packet_decode-encode k (new_continue-IsPacket size b) in
      let grant = (validate_continue_packet_lem k size).1 refl in
      let sc = send_info_packet-udp greeting server random c e (a greeting) in
      let sd =
        send_info_packet-udp greeting client random' (record d { rx = ok (packet_encode k) ∷ [] }) e
          (a' greeting) in
      let ms = maybe_info_decode-udp greeting server e in
      let mc = maybe_info_decode-udp greeting client e in
      (
        rw (sc, rc, ms, a (packet_encode k)) refl,
        rw (sc, rc, ms, a (packet_encode k)) refl,
        rw (rd, mc, sd, decoded, grant) refl,
        rw (rd, mc, sd, decoded, grant) refl,
      )
