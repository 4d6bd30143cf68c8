-- ===== src/Packet/Codec.antt =====
-- wisp/src/packet.rs: the packets on a stream and their codec. `encode_into` appends to the buffer
-- it is given; `decode` returns the value and what is left of the payload.
use epoxy_tls.Base.{
  ℕ, ◌+◌, ◌≡◌, [], length, ltb, ◌==◌, if◌then◌else◌, Outcome, ok, err, ◌>>=◌, packet_too_small,
  invalid_packet_type, true,
}
use epoxy_tls.Bytes.{
  Buf, Payload, IsU16, IsU32, put_u8, put_u16_le, put_u32_le, extend_from_slice, get_u8, get_u16_le,
  get_u32_le,
}
use epoxy_tls.Bytes.Utf8.{Text, from_utf8, is_utf8}
use epoxy_tls.Packet.Kinds.{
  StreamType, CloseReason, stream_type_from, stream_type_into, close_reason_from, close_reason_into,
  IsStreamType, IsCloseReason,
}

pub record ConnectPacket : Type 0 where
  pub stream_type : StreamType
  pub host : Text
  pub port : ℕ

pub record ContinuePacket : Type 0 where
  pub buffer_remaining : ℕ

pub record ClosePacket : Type 0 where
  pub reason : CloseReason

pub data PacketType : Type 0 where
  connect : ConnectPacket → PacketType
  payload : Payload → PacketType
  continue : ContinuePacket → PacketType
  close : ClosePacket → PacketType

pub record Packet : Type 0 where
  pub stream_id : ℕ
  pub packet_type : PacketType

-- `size_of::<u8>()` and its like.
abbrev pub size_of_u8 : ℕ
size_of_u8 = 1

abbrev pub size_of_u16 : ℕ
size_of_u16 = 2

abbrev pub size_of_u32 : ℕ
size_of_u32 = 4

unfoldable pub connect_size_hint : ConnectPacket → ℕ
connect_size_hint c = size_of_u8 + length c.host + size_of_u16

unfoldable pub packet_type_size_hint : PacketType → ℕ
unfolding connect_size_hint
packet_type_size_hint (connect c) = connect_size_hint c
packet_type_size_hint (payload d) = length d
packet_type_size_hint (continue c) = size_of_u32
packet_type_size_hint (close c) = size_of_u8

unfoldable pub packet_size_hint : Packet → ℕ
unfolding packet_type_size_hint
packet_size_hint p = size_of_u8 + size_of_u32 + packet_type_size_hint p.packet_type

unfoldable pub get_type : PacketType → ℕ
get_type (connect c) = 0x01
get_type (payload d) = 0x02
get_type (continue c) = 0x03
get_type (close c) = 0x04

module _ ⦃buf : Buf⦄ where
  unfoldable pub stream_type_encode_into : StreamType → Payload → Payload
  stream_type_encode_into t p = put_u8 p (stream_type_into t)

  unfoldable pub stream_type_decode : Payload → Outcome (StreamType × Payload)
  stream_type_decode p =
      if ltb (length p) size_of_u8
      then err packet_too_small
      else (get_u8 p >>= λ r. ok (stream_type_from r.0, r.1))

  unfoldable pub close_reason_encode_into : CloseReason → Payload → Payload
  close_reason_encode_into r p = put_u8 p (close_reason_into r)

  unfoldable pub close_reason_decode : Payload → Outcome (CloseReason × Payload)
  close_reason_decode p =
      if ltb (length p) size_of_u8
      then err packet_too_small
      else (get_u8 p >>= λ r. ok (close_reason_from r.0, r.1))

  unfoldable pub connect_encode_into : ConnectPacket → Payload → Payload
  unfolding stream_type_encode_into
  connect_encode_into c p =
      extend_from_slice (put_u16_le (stream_type_encode_into c.stream_type p) c.port) c.host

  unfoldable pub connect_decode : Payload → Outcome ConnectPacket
  unfolding stream_type_decode from_utf8
  connect_decode p = if ltb (length p) (size_of_u8 + size_of_u16) then err packet_too_small else (do
    (stream_type, p) ← stream_type_decode p
    (port, p) ← get_u16_le p
    host ← from_utf8 p
    ok (record { stream_type = stream_type; host = host; port = port }))

  unfoldable pub continue_encode_into : ContinuePacket → Payload → Payload
  continue_encode_into c p = put_u32_le p c.buffer_remaining

  unfoldable pub continue_decode : Payload → Outcome ContinuePacket
  continue_decode p =
      if ltb (length p) size_of_u32
      then err packet_too_small
      else (get_u32_le p >>= λ r. ok (record { buffer_remaining = r.0 }))

  unfoldable pub close_encode_into : ClosePacket → Payload → Payload
  unfolding close_reason_encode_into
  close_encode_into c p = close_reason_encode_into c.reason p

  unfoldable pub close_decode : Payload → Outcome ClosePacket
  unfolding close_reason_decode
  close_decode p = close_reason_decode p >>= λ r. ok (record { reason = r.0 })

  unfoldable pub packet_type_encode : PacketType → Payload → Payload
  unfolding connect_encode_into continue_encode_into close_encode_into
  packet_type_encode (connect c) p = connect_encode_into c p
  packet_type_encode (payload d) p = extend_from_slice p d
  packet_type_encode (continue c) p = continue_encode_into c p
  packet_type_encode (close c) p = close_encode_into c p

  unfoldable pub packet_type_decode : Payload → ℕ → Outcome PacketType
  packet_type_decode p ty =
      if ty == 0x01
      then (connect_decode p >>= λ c. ok (connect c))
      else if ty == 0x02
      then ok (payload p)
      else if ty == 0x03
      then (continue_decode p >>= λ c. ok (continue c))
      else if ty == 0x04
      then (close_decode p >>= λ c. ok (close c))
      else err (invalid_packet_type ty)

  unfoldable pub packet_encode_into : Packet → Payload → Payload
  unfolding get_type packet_type_encode
  packet_encode_into k p =
      packet_type_encode k.packet_type (put_u32_le (put_u8 p (get_type k.packet_type)) k.stream_id)

  unfoldable pub packet_encode : Packet → Payload
  unfolding packet_encode_into
  packet_encode k = packet_encode_into k []

  unfoldable pub packet_decode : Payload → Outcome Packet
  packet_decode p = if ltb (length p) (size_of_u8 + size_of_u32) then err packet_too_small else (do
    (ty, p) ← get_u8 p
    (stream_id, p) ← get_u32_le p
    packet_type ← packet_type_decode p ty
    ok (record { stream_id = stream_id; packet_type = packet_type }))

unfoldable pub new_data : ℕ → Payload → Packet
new_data stream_id d = record { stream_id = stream_id; packet_type = payload d }

unfoldable pub new_continue : ℕ → ℕ → Packet
new_continue stream_id n = record {
  stream_id = stream_id;
  packet_type = continue (record { buffer_remaining = n });
}

unfoldable pub new_close : ℕ → CloseReason → Packet
new_close stream_id r = record {
  stream_id = stream_id;
  packet_type = close (record { reason = r });
}

-- The values of the Rust types: numbers in range, text in UTF-8, and enums as decoding makes them.
abbrev pub IsPacketType : PacketType → Type 0
IsPacketType (connect c) = IsStreamType c.stream_type × IsU16 c.port × (is_utf8 c.host ≡ true)
IsPacketType (payload d) = Unit {0}
IsPacketType (continue c) = IsU32 c.buffer_remaining
IsPacketType (close c) = IsCloseReason c.reason

abbrev pub IsPacket : Packet → Type 0
IsPacket p = IsU32 p.stream_id × IsPacketType p.packet_type
