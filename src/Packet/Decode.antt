-- ===== src/Packet/Decode.antt =====
-- `Packet::decode` on any input.
use epoxy_tls.Base.{ℕ, ◌+◌, ◌*◌, ◌≡◌, ◌≢◌, List, [], ◌∷◌, ◌++◌, arith, append-nil, All, ok, panic}
use epoxy_tls.Bytes.{Buf, Payload, u32_le, IsByte}
use epoxy_tls.Packet.Kinds.{stream_type_into, stream_type_from, close_reason_into-from}
use epoxy_tls.Packet.Codec.{
  ConnectPacket, ContinuePacket, ClosePacket, PacketType, connect, payload, continue, close, Packet,
  get_type, packet_type_decode, packet_encode, packet_decode, connect_decode, continue_decode,
  close_decode,
}
use epoxy_tls.Packet.RoundTrip.{body, packet_encode-frame}

module _ ⦃buf : Buf⦄ where
  connect_decode-ne-panic : (p : Payload) → connect_decode p ≢ panic
  unfolding connect_decode
  connect_decode-ne-panic [] = λ e. cc
  connect_decode-ne-panic (a ∷ []) = λ e. cc
  connect_decode-ne-panic (a ∷ b ∷ []) = λ e. cc
  connect_decode-ne-panic (a ∷ b ∷ c ∷ r) =
      ground (arith, buf.get_u8_lem a (b ∷ c ∷ r), buf.get_u16_le_lem b c r)

  continue_decode-ne-panic : (p : Payload) → continue_decode p ≢ panic
  unfolding continue_decode
  continue_decode-ne-panic [] = λ e. cc
  continue_decode-ne-panic (a ∷ []) = λ e. cc
  continue_decode-ne-panic (a ∷ b ∷ []) = λ e. cc
  continue_decode-ne-panic (a ∷ b ∷ c ∷ []) = λ e. cc
  continue_decode-ne-panic (a ∷ b ∷ c ∷ d ∷ r) = ground (arith, buf.get_u32_le_lem a b c d r)

  close_decode-ne-panic : (p : Payload) → close_decode p ≢ panic
  unfolding close_decode
  close_decode-ne-panic [] = λ e. cc
  close_decode-ne-panic (a ∷ r) = ground (arith, buf.get_u8_lem a r)

  pub packet_type_decode-ne-panic : (p : Payload) (ty : ℕ) → packet_type_decode p ty ≢ panic
  unfolding packet_type_decode
  packet_type_decode-ne-panic p ty =
      ground (arith, connect_decode-ne-panic p, continue_decode-ne-panic p, close_decode-ne-panic p)

  -- No input makes `Packet::decode` panic: its length tests cover every read.
  pub packet_decode-ne-panic : (p : Payload) → packet_decode p ≢ panic
  unfolding packet_decode
  packet_decode-ne-panic [] = λ e. cc
  packet_decode-ne-panic (a ∷ []) = λ e. cc
  packet_decode-ne-panic (a ∷ b ∷ []) = λ e. cc
  packet_decode-ne-panic (a ∷ b ∷ c ∷ []) = λ e. cc
  packet_decode-ne-panic (a ∷ b ∷ c ∷ d ∷ []) = λ e. cc
  packet_decode-ne-panic (a ∷ b ∷ c ∷ d ∷ e ∷ r) = ground (
    arith,
    buf.get_u8_lem a (b ∷ c ∷ d ∷ e ∷ r),
    buf.get_u32_le_lem b c d e r,
    packet_type_decode-ne-panic r a,
  )

  -- What `PacketType::decode` leaves unread: it stops after the fields of the type.
  connect_decode-body :
      (p : Payload) (c : ConnectPacket)
      → All IsByte p
      → connect_decode p ≡ ok c
      → p ≡ body (connect c)
  unfolding connect_decode stream_type_from stream_type_into
  connect_decode-body [] c h e = cc
  connect_decode-body (a ∷ []) c h e = cc
  connect_decode-body (a ∷ b ∷ []) c h e = cc
  connect_decode-body (x ∷ y ∷ z ∷ r) c h e =
      ground (arith, buf.get_u8_lem x (y ∷ z ∷ r), buf.get_u16_le_lem y z r)

  continue_decode-body :
      (p : Payload) (c : ContinuePacket)
      → All IsByte p
      → continue_decode p ≡ ok c
      → (rest : List ℕ) × (p ≡ body (continue c) ++ rest)
  unfolding continue_decode
  continue_decode-body [] c h e = cc
  continue_decode-body (x ∷ []) c h e = cc
  continue_decode-body (x ∷ y ∷ []) c h e = cc
  continue_decode-body (x ∷ y ∷ z ∷ []) c h e = cc
  continue_decode-body (x ∷ y ∷ z ∷ w ∷ r) c h e = (r, ground (arith, buf.get_u32_le_lem x y z w r))

  close_decode-body :
      (p : Payload) (c : ClosePacket)
      → close_decode p ≡ ok c
      → (rest : List ℕ) × (p ≡ body (close c) ++ rest)
  unfolding close_decode
  close_decode-body [] c e = cc
  close_decode-body (x ∷ r) c e = (r, ground (arith, buf.get_u8_lem x r, close_reason_into-from x))

  packet_type_decode-body :
      (p : Payload) (ty : ℕ) (t : PacketType)
      → All IsByte p
      → packet_type_decode p ty ≡ ok t
      → (ty ≡ get_type t) × ((rest : List ℕ) × (p ≡ body t ++ rest))
  unfolding packet_type_decode get_type
  packet_type_decode-body p ty (connect c) h e =
      let fits : connect_decode p ≡ ok c = ground arith in
      (ground arith, ([], simp append-nil (connect_decode-body p c h fits)))
  packet_type_decode-body p ty (payload d) h e =
      (ground arith, ([], simp append-nil (ground arith)))
  packet_type_decode-body p ty (continue c) h e =
      let fits : continue_decode p ≡ ok c = ground arith in
      (ground arith, continue_decode-body p c h fits)
  packet_type_decode-body p ty (close c) h e =
      let fits : close_decode p ≡ ok c = ground arith in (ground arith, close_decode-body p c fits)

  u32_le_bytes :
      (b c d e : ℕ)
      → IsByte b
      → IsByte c
      → IsByte d
      → IsByte e
      → u32_le (b + 256 * c + 65536 * d + 16777216 * e) ≡ b ∷ c ∷ d ∷ e ∷ []
  u32_le_bytes b c d e hb hc hd he = ground arith

  -- A packet that decodes is one that encodes to the bytes read: whatever `Packet::decode` accepts
  -- begins with the encoding of its result.
  pub packet_encode-decode :
      (p : Payload) (k : Packet)
      → All IsByte p
      → packet_decode p ≡ ok k
      → (rest : List ℕ) × (p ≡ packet_encode k ++ rest)
  unfolding packet_decode
  packet_encode-decode [] k h e = cc
  packet_encode-decode (x ∷ []) k h e = cc
  packet_encode-decode (x ∷ y ∷ []) k h e = cc
  packet_encode-decode (x ∷ y ∷ z ∷ []) k h e = cc
  packet_encode-decode (x ∷ y ∷ z ∷ w ∷ []) k h e = cc
  packet_encode-decode (x ∷ y ∷ z ∷ w ∷ v ∷ r) k h e =
      let typed : packet_type_decode r x ≡ ok k.packet_type =
        ground (arith, buf.get_u8_lem x (y ∷ z ∷ w ∷ v ∷ r), buf.get_u32_le_lem y z w v r) in
      let id : k.stream_id ≡ y + 256 * z + 65536 * w + 16777216 * v =
        ground (arith, buf.get_u8_lem x (y ∷ z ∷ w ∷ v ∷ r), buf.get_u32_le_lem y z w v r) in
      let (ty, (rest, split)) = packet_type_decode-body r x k.packet_type h.1.1.1.1.1 typed in
      (
        rest,
        rw (packet_encode-frame k)
            (ground (arith, u32_le_bytes y z w v h.1.0 h.1.1.0 h.1.1.1.0 h.1.1.1.1.0)),
      )
