-- ===== src/Mux/Agreement.antt =====
-- What the handshakes of the two sides agree on.
use epoxy_tls.Base.{
  ℕ, ◌/◌, ◌%◌, Role, client, ◌≡◌, ◌↔◌, refl, arith, Bool, true, false, List, [], ◌∷◌, ◌++◌, map,
  Option, none, some, Outcome, ok, ◌==◌, Bool-cases, inl, inr,
}
use epoxy_tls.Bytes.{Buf, Payload, IsU32, u32_le, u32_le_digits}
use epoxy_tls.Packet.Codec.{
  PacketType, connect, payload, continue, close, Packet, packet_encode, new_continue, IsPacket,
  get_type,
}
use epoxy_tls.Packet.RoundTrip.{
  packet_decode-encode, packet_encode-frame, packet_type_decode-body, frame, body,
}
use epoxy_tls.Packet.Info.{packet, maybe_info_decode, Builders}
use epoxy_tls.Extension.Cert.{CertDeps}
use epoxy_tls.Mux.Supported.{validate_continue_packet, granted}
use epoxy_tls.Mux.Conn.{Conn, next_erroring}
use epoxy_tls.Mux.Handshake.{
  v1_result, WispV2Handshake, client_handshake, server_handshake, read_buffer_size,
}

granted-continue :
    (t : PacketType) (n : ℕ) → granted t ≡ ok n → t ≡ continue (record { buffer_remaining = n })
granted-continue (connect p) n h = cc
granted-continue (payload p) n h = cc
granted-continue (continue p) n h = ground arith
granted-continue (close p) n h = cc

-- The handshake takes a packet as the server's grant exactly if it is the CONTINUE packet of
-- stream 0, and then takes the number in it.
pub validate_continue_packet_lem :
    (p : Packet) (n : ℕ) → (validate_continue_packet p ≡ ok n) ↔ (p ≡ new_continue 0 n)
unfolding validate_continue_packet new_continue
validate_continue_packet_lem p n = (
  λ h. elim (Bool-cases (p.stream_id == 0)) [
    | inl zero' ↦ let t = granted-continue p.packet_type n (ground arith) in ground arith
    | inr other ↦ absurd (ground arith)
  ],
  λ e. rw e refl,
)

pub new_continue-IsPacket : (size : ℕ) → IsU32 size → IsPacket (new_continue 0 size)
unfolding new_continue
new_continue-IsPacket size b = (omega arith, omega arith)

abbrev pub is_some {ℓ} : {A : Type ℓ} → Option A → Bool
is_some none = false
is_some (some a) = true

module _ ⦃buf : Buf⦄ ⦃deps : CertDeps⦄ where
  -- A frame of an ordinary packet is not taken for an information packet, whatever the builders.
  maybe_info_decode-frame :
      (k : Packet) (builders : Builders) (role : Role)
      → IsPacket k
      → maybe_info_decode (frame k) builders role ≡ ok (packet k, builders)
  unfolding maybe_info_decode get_type
  maybe_info_decode-frame k builders role h = ground (
    arith,
    buf.get_u8_lem (get_type k.packet_type) (u32_le k.stream_id ++ body k.packet_type),
    buf.get_u32_le_lem (k.stream_id % 256) (k.stream_id / 256 % 256) (k.stream_id / 65536 % 256)
        (k.stream_id / 16777216 % 256) (body k.packet_type),
    u32_le_digits k.stream_id,
    packet_type_decode-body k.packet_type h.1,
  )

  maybe_info_decode-encoded :
      (k : Packet) (builders : Builders) (role : Role)
      → IsPacket k
      → maybe_info_decode (packet_encode k) builders role ≡ ok (packet k, builders)
  maybe_info_decode-encoded k builders role h =
      rw (packet_encode-frame k) (maybe_info_decode-frame k builders role h)

  -- The first frame that a client reads is the grant of `size`.
  client_handshake-granted :
      (d : Conn) (h : Option WispV2Handshake) (random : ℕ → Option Payload) (size : ℕ)
      (rest : List (Outcome Payload))
      → IsU32 size
      → d.rx ≡ ok (packet_encode (new_continue 0 size)) ∷ rest
      → (client_handshake h random d).0
        ≡ ok (record { kind = v1_result none; downgraded = is_some h; buffer_size = size })
  unfolding client_handshake read_buffer_size next_erroring
  client_handshake-granted d none random size rest b e =
      let k = new_continue 0 size in
      let decoded = packet_decode-encode k (new_continue-IsPacket size b) in
      let grant = (validate_continue_packet_lem k size).1 refl in rw (e, decoded, grant) refl
  client_handshake-granted d (some h) random size rest b e =
      let k = new_continue 0 size in
      let decoded = maybe_info_decode-encoded k h.builders client (new_continue-IsPacket size b) in
      let grant = (validate_continue_packet_lem k size).1 refl in rw (e, decoded, grant) refl

  -- Against a server of version 1, with the buffer size `size`: a client of version 1 or 2 ends the
  -- handshake with that size and as version 1, and knows that it was downgraded exactly if it asked
  -- for version 2. The server's transport takes the frame.
  pub handshake_v1 :
      (c d : Conn) (h : Option WispV2Handshake) (random random' : ℕ → Option Payload) (size : ℕ)
      → IsU32 size
      → c.sent ≡ []
      → c.answer (packet_encode (new_continue 0 size)) ≡ none
      → d.rx ≡ map ok (server_handshake size none random c).1.sent
      → ((server_handshake size none random c).0
          ≡ ok (record { kind = v1_result none; downgraded = false; buffer_size = size }))
        × ((client_handshake h random' d).0
            ≡ ok (record { kind = v1_result none; downgraded = is_some h; buffer_size = size }))
  unfolding server_handshake
  handshake_v1 c d h random random' size b e a r =
      (rw a refl, client_handshake-granted d h random' size [] b (ground arith))
