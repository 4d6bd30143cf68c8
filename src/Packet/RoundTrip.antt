-- ===== src/Packet/RoundTrip.antt =====
-- Decoding what was encoded.
use epoxy_tls.Base.{◌%◌, ◌/◌, ℕ, ◌≡◌, refl, List, [], ◌∷◌, ◌++◌, length, arith, append_assoc, ok}
use epoxy_tls.Bytes.{Buf, Payload, u16_le, u32_le, u16_le_digits, u32_le_digits}
use epoxy_tls.Packet.Kinds.{stream_type_into, close_reason_into}
use epoxy_tls.Packet.Codec.{
  PacketType, connect, payload, continue, close, Packet, IsPacketType, IsPacket, get_type,
  packet_type_encode, packet_type_decode, packet_encode, packet_decode, connect_decode,
  continue_decode, close_decode, packet_size_hint, packet_type_size_hint,
}

-- The bytes behind the header of a frame, in plain terms.
abbrev pub body : PacketType → List ℕ
body (connect c) = stream_type_into c.stream_type ∷ (u16_le c.port ++ c.host)
body (payload d) = d
body (continue c) = u32_le c.buffer_remaining
body (close c) = close_reason_into c.reason ∷ []

abbrev pub frame : Packet → List ℕ
frame p = get_type p.packet_type ∷ (u32_le p.stream_id ++ body p.packet_type)

module _ ⦃buf : Buf⦄ where
  pub packet_type_encode-body :
      (t : PacketType) (p : Payload) → packet_type_encode t p ≡ p ++ body t
  unfolding packet_type_encode
  packet_type_encode-body (connect c) p =
      simp (buf.put_u8_lem, buf.put_u16_le_lem, buf.extend_from_slice_lem, append_assoc)
  packet_type_encode-body (payload d) p = buf.extend_from_slice_lem p d
  packet_type_encode-body (continue c) p = buf.put_u32_le_lem p c.buffer_remaining
  packet_type_encode-body (close c) p = buf.put_u8_lem p (close_reason_into c.reason)

  pub packet_encode-frame : (k : Packet) → packet_encode k ≡ frame k
  unfolding packet_encode
  packet_encode-frame k = simp (packet_type_encode-body, buf.put_u8_lem, buf.put_u32_le_lem)

  pub packet_type_decode-body :
      (t : PacketType) → IsPacketType t → packet_type_decode (body t) (get_type t) ≡ ok t
  unfolding packet_type_decode get_type connect_decode continue_decode close_decode
  packet_type_decode-body (connect c) h = ground (
    arith,
    buf.get_u8_lem (stream_type_into c.stream_type) (u16_le c.port ++ c.host),
    buf.get_u16_le_lem (c.port % 256) (c.port / 256 % 256) c.host,
    u16_le_digits c.port,
  )
  packet_type_decode-body (payload d) h = refl
  packet_type_decode-body (continue c) h = ground (
    arith,
    buf.get_u32_le_lem (c.buffer_remaining % 256) (c.buffer_remaining / 256 % 256)
        (c.buffer_remaining / 65536 % 256) (c.buffer_remaining / 16777216 % 256) [],
    u32_le_digits c.buffer_remaining,
  )
  packet_type_decode-body (close c) h =
      ground (arith, buf.get_u8_lem (close_reason_into c.reason) [])

  pub packet_decode-frame : (k : Packet) → IsPacket k → packet_decode (frame k) ≡ ok k
  unfolding packet_decode
  packet_decode-frame k h = ground (
    arith,
    buf.get_u8_lem (get_type k.packet_type) (u32_le k.stream_id ++ body k.packet_type),
    buf.get_u32_le_lem (k.stream_id % 256) (k.stream_id / 256 % 256) (k.stream_id / 65536 % 256)
        (k.stream_id / 16777216 % 256) (body k.packet_type),
    u32_le_digits k.stream_id,
    packet_type_decode-body k.packet_type h.1,
  )

  -- A packet whose fields are in range decodes to itself from its own encoding.
  pub packet_decode-encode : (k : Packet) → IsPacket k → packet_decode (packet_encode k) ≡ ok k
  packet_decode-encode k h = rw (packet_encode-frame k) (packet_decode-frame k h)

  body-size_hint : (t : PacketType) → length (body t) ≡ packet_type_size_hint t
  unfolding packet_type_size_hint
  body-size_hint (connect c) = omega arith
  body-size_hint (payload d) = refl
  body-size_hint (continue c) = refl
  body-size_hint (close c) = refl

  -- The capacity that `encode` reserves is the length of what it writes, for every packet.
  pub length-packet_encode : (k : Packet) → length (packet_encode k) ≡ packet_size_hint k
  unfolding packet_size_hint
  length-packet_encode k = rw (packet_encode-frame k) (omega (arith, body-size_hint k.packet_type))
