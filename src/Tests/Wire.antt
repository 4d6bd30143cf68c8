-- ===== src/Tests/Wire.antt =====
-- Packets at concrete frames.
use epoxy_tls.Base.{
  ℕ, ◌≡◌, ◌≢◌, refl, arith, List, [], ◌∷◌, ◌++◌, length, ok, panic, diverge, ◌>>=◌, server, client,
  wisp_version,
}
use epoxy_tls.Bytes.Utf8.{is_utf8}
use epoxy_tls.Packet.Kinds.{tcp, stream_type_from, stream_type_into, close_reason_from, voluntary}
use epoxy_tls.Packet.Codec.{
  Packet, connect, close, packet_encode, packet_decode, packet_size_hint, close_decode,
  packet_type_decode,
}
use epoxy_tls.Packet.RoundTrip.{packet_decode-encode, length-packet_encode}
use epoxy_tls.Packet.Decode.{packet_decode-ne-panic, packet_encode-decode}
use epoxy_tls.Packet.Info.{
  InfoPacket, info, info_encode, encode_extensions, version_encode_into, maybe_info_decode,
  info_decode, Builders,
}
use epoxy_tls.Packet.Info.Frames.{Chunk, read_chunks, maybe_info_decode-encode}
use epoxy_tls.Packet.Info.Ends.{info_decode-ne-diverge}
use epoxy_tls.Extension.Motd.{motd_encode, client_motd}
use epoxy_tls.Extension.Any.{
  udp_extension, motd_extension, motd_builder, get_id, extension_encode, extension_encode_into,
}
use epoxy_tls.Tests.Instances.{list_buf, plain_certs}

-- CONNECT of stream 7 to "a.b", port 443, and CLOSE of the same stream.
abbrev opening : Packet
opening = record {
  stream_id = 7;
  packet_type = connect (record { stream_type = tcp; host = 0x61 ∷ 0x2e ∷ 0x62 ∷ []; port = 443 });
}

abbrev closing : Packet
closing = record { stream_id = 7; packet_type = close (record { reason = voluntary }) }

-- CLOSE with a byte after the reason, which decoding does not read.
abbrev closing_bytes : List ℕ
closing_bytes = 0x04 ∷ 7 ∷ 0 ∷ 0 ∷ 0 ∷ 0x02 ∷ 0xff ∷ []

packet_decode-encode_example : packet_decode (packet_encode opening) ≡ ok opening
unfolding stream_type_from stream_type_into is_utf8
packet_decode-encode_example =
    packet_decode-encode opening (omega arith, (refl, omega arith, ground arith))

length-packet_encode_example : length (packet_encode opening) ≡ packet_size_hint opening
length-packet_encode_example = length-packet_encode opening

packet_decode-ne-panic_example : packet_decode (0x01 ∷ 7 ∷ 0 ∷ 0 ∷ 0 ∷ 0x01 ∷ 0xbb ∷ []) ≢ panic
packet_decode-ne-panic_example = packet_decode-ne-panic (0x01 ∷ 7 ∷ 0 ∷ 0 ∷ 0 ∷ 0x01 ∷ 0xbb ∷ [])

closing_bytes_decode : packet_decode closing_bytes ≡ ok closing
unfolding packet_decode packet_type_decode close_decode close_reason_from
closing_bytes_decode = refl

packet_encode-decode_example : (rest : List ℕ) × (closing_bytes ≡ packet_encode closing ++ rest)
packet_encode-decode_example =
    packet_encode-decode closing_bytes closing (omega arith) closing_bytes_decode

-- A server with UDP and the message "hi".
abbrev greeting : InfoPacket
greeting = record {
  version = wisp_version;
  extensions =
      udp_extension ∷ motd_extension (record { role = server; motd = 0x68 ∷ 0x69 ∷ [] }) ∷ [];
}

abbrev greeting_chunks : List Chunk
greeting_chunks = (1, []) ∷ (4, 0x68 ∷ 0x69 ∷ []) ∷ []

abbrev greeting_bytes : List ℕ
greeting_bytes =
    0x05 ∷ 0 ∷ 0 ∷ 0 ∷ 0 ∷ 2 ∷ 0 ∷ 1 ∷ 0 ∷ 0 ∷ 0 ∷ 0 ∷ 4 ∷ 2 ∷ 0 ∷ 0 ∷ 0 ∷ 0x68 ∷ 0x69 ∷ []

abbrev motd_only : Builders
motd_only = motd_builder client_motd ∷ []

maybe_info_decode-encode_example : maybe_info_decode greeting_bytes motd_only client ≡ (
    read_chunks motd_only greeting_chunks client >>= λ r.
    ok (info (record { version = wisp_version; extensions = r.0 }), r.1))
unfolding get_id extension_encode motd_encode info_encode encode_extensions extension_encode_into
    version_encode_into
maybe_info_decode-encode_example =
    maybe_info_decode-encode greeting greeting_chunks motd_only client greeting_bytes
      (refl, refl, (refl, refl, tt)) (omega arith) refl

info_decode-ne-diverge_example : info_decode (2 ∷ 0 ∷ 4 ∷ 2 ∷ []) motd_only client ≢ diverge
info_decode-ne-diverge_example = info_decode-ne-diverge (2 ∷ 0 ∷ 4 ∷ 2 ∷ []) motd_only client
