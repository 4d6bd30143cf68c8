-- ===== src/Packet/Extended/Dispatch.antt =====
-- Which packets `MaybeExtensionPacket::decode` leaves to the protocol, and where the others go.
use epoxy_tls.Base.{
  ℕ, ◌+◌, ◌*◌, ◌/◌, ◌%◌, ltb-false, Option, WispError, ◌≡◌, ◌⊎◌, inl, inr, refl, sym, ap, ◌∙◌,
  arith, Bool, true, false, ◌&&◌, List, [], ◌∷◌, ◌++◌, length, ltb, leb, All, Outcome, ok, err,
  panic, diverge, ◌>>=◌, invalid_packet_type, Bool-cases,
}
use epoxy_tls.Bytes.{Buf, Payload, u32_le}
use epoxy_tls.Packet.Codec.{Packet, packet_decode, packet_type_decode}
use epoxy_tls.Packet.Extended.{
  MaybeExtensionPacket, packet, Handler, supports, dispatch, handled, decode_body,
  maybe_extension_decode, extension_frame, ExtensionStream, extension_send,
}

-- The numbers of the protocol's own packets.
abbrev pub is_protocol : ℕ → Bool
is_protocol ty = leb 0x01 ty && leb ty 0x04

abbrev pub kind_of : Payload → ℕ
kind_of [] = 0
kind_of (a ∷ p) = a

module _ {Ext : Type 0} (handler : Handler Ext) where
  abbrev Unsupported : ℕ → Ext → Type 0
  Unsupported ty e = supports handler e ty ≡ false

  dispatch-none :
      (es : List Ext) (ty : ℕ) (p : Payload)
      → All (Unsupported ty) es
      → dispatch handler es ty p ≡ (err (invalid_packet_type ty), es)
  unfolding dispatch
  dispatch-none [] ty p h = refl
  dispatch-none (e ∷ es) ty p (he, h) = rw (he, dispatch-none es ty p h) refl

  dispatch-first :
      (pre post : List Ext) (e : Ext) (ty : ℕ) (p : Payload)
      → All (Unsupported ty) pre
      → supports handler e ty ≡ true
      → dispatch handler (pre ++ (e ∷ post)) ty p ≡ (
        handled (handler.handle_packet e ty p).0,
        pre ++ ((handler.handle_packet e ty p).1 ∷ post),
      )
  unfolding dispatch
  dispatch-first [] post e ty p h s = rw s refl
  dispatch-first (x ∷ pre) post e ty p (hx, h) s = rw (hx, dispatch-first pre post e ty p h s) refl

  module _ ⦃buf : Buf⦄ where
    packet_type_decode-other :
        (p : Payload) (ty : ℕ)
        → is_protocol ty ≡ false
        → packet_type_decode p ty ≡ err (invalid_packet_type ty)
    unfolding packet_type_decode
    packet_type_decode-other p ty h = ground arith

    bind_assoc :
        {A B C : Type 0} (m : Outcome A) (f : A → Outcome B) (g : B → Outcome C)
        → (m >>= λ a. f a >>= g) ≡ ((m >>= f) >>= g)
    bind_assoc (ok a) f g = refl
    bind_assoc (err e) f g = refl
    bind_assoc panic f g = refl
    bind_assoc diverge f g = refl

    -- The rest of `Packet::decode`, after the number of the packet and the stream.
    abbrev plain_body : ℕ → ℕ → Payload → Outcome Packet
    plain_body ty id p =
        packet_type_decode p ty >>= λ t. ok (record { stream_id = id; packet_type = t })

    abbrev as_packet : Outcome Packet → Outcome MaybeExtensionPacket
    as_packet r = r >>= λ k. ok (packet k)

    body-own :
        (es : List Ext) (ty id : ℕ) (p : Payload)
        → is_protocol ty ≡ true
        → decode_body handler es ty id p ≡ (as_packet (plain_body ty id p), es)
    unfolding decode_body packet_type_decode
    body-own es ty id p own = rw own (
        ap (λ r. (r, es))
          (bind_assoc (packet_type_decode p ty)
            (λ t. ok (record { stream_id = id; packet_type = t })) (λ k. ok (packet k))))

    body-other :
        (es : List Ext) (ty id : ℕ) (p : Payload)
        → is_protocol ty ≡ false
        → decode_body handler es ty id p ≡ dispatch handler es ty p
    unfolding decode_body dispatch
    body-other es ty id p other = rw other refl

    body-plain :
        (es : List Ext) (ty id : ℕ) (p : Payload)
        → (is_protocol ty ≡ true) ⊎ All (Unsupported ty) es
        → decode_body handler es ty id p ≡ (as_packet (plain_body ty id p), es)
    body-plain es ty id p (inl own) = body-own es ty id p own
    body-plain es ty id p (inr h) = elim (Bool-cases (is_protocol ty)) [
      | inl own ↦ body-own es ty id p own
      | inr other ↦
          body-other es ty id p other
          ∙ dispatch-none es ty p h
          ∙ sym (
              ap (λ r. (as_packet (r >>= λ t. ok (record { stream_id = id; packet_type = t })), es))
                (packet_type_decode-other p ty other))
    ]

    long : (a b c d e : ℕ) (r : Payload) → ltb (length (a ∷ b ∷ c ∷ d ∷ e ∷ r)) 5 ≡ false
    long a b c d e r = ltb-false (length (a ∷ b ∷ c ∷ d ∷ e ∷ r)) 5 (omega arith)

    abbrev word : ℕ → ℕ → ℕ → ℕ → ℕ
    word b c d e = b + 256 * c + 65536 * d + 16777216 * e

    long_decode :
        (es : List Ext) (a b c d e : ℕ) (r : Payload)
        → maybe_extension_decode handler es (a ∷ b ∷ c ∷ d ∷ e ∷ r)
          ≡ decode_body handler es a (word b c d e) r
    unfolding maybe_extension_decode
    long_decode es a b c d e r =
        rw (long a b c d e r)
          (rw (buf.get_u8_lem a (b ∷ c ∷ d ∷ e ∷ r)) (rw (buf.get_u32_le_lem b c d e r) refl))

    long_plain :
        (a b c d e : ℕ) (r : Payload)
        → packet_decode (a ∷ b ∷ c ∷ d ∷ e ∷ r) ≡ plain_body a (word b c d e) r
    unfolding packet_decode
    long_plain a b c d e r =
        rw (long a b c d e r)
          (rw (buf.get_u8_lem a (b ∷ c ∷ d ∷ e ∷ r)) (rw (buf.get_u32_le_lem b c d e r) refl))

    -- A packet whose number is the protocol's, or one that no extension supports, is decoded as
    -- `Packet::decode` does, whatever its bytes, errors included; the extensions stay as they are.
    pub maybe_extension_decode-packet :
        (es : List Ext) (p : Payload)
        → (is_protocol (kind_of p) ≡ true) ⊎ All (Unsupported (kind_of p)) es
        → maybe_extension_decode handler es p ≡ (as_packet (packet_decode p), es)
    unfolding maybe_extension_decode packet_decode
    maybe_extension_decode-packet es [] h = refl
    maybe_extension_decode-packet es (a ∷ []) h = refl
    maybe_extension_decode-packet es (a ∷ b ∷ []) h = refl
    maybe_extension_decode-packet es (a ∷ b ∷ c ∷ []) h = refl
    maybe_extension_decode-packet es (a ∷ b ∷ c ∷ d ∷ []) h = refl
    maybe_extension_decode-packet es (a ∷ b ∷ c ∷ d ∷ e ∷ r) h =
        long_decode es a b c d e r
        ∙ body-plain es a (word b c d e) r h
        ∙ sym (ap (λ k. (as_packet k, es)) (long_plain a b c d e r))

    extension_frame-bytes :
        (ty id : ℕ) (body : Payload) → extension_frame ty id body ≡ ty ∷ (u32_le id ++ body)
    unfolding extension_frame
    extension_frame-bytes ty id body =
        buf.extend_from_slice_lem (buf.put_u32_le (buf.put_u8 [] ty) id) body
        ∙ ap (λ p. p ++ body) (buf.put_u32_le_lem (buf.put_u8 [] ty) id)
        ∙ ap (λ p. (p ++ u32_le id) ++ body) (buf.put_u8_lem [] ty)

    -- What `MuxProtocolExtensionStream` of an open stream sends reaches the first extension of the
    -- other side that supports its number, with the same bytes; the outcome of the decoding is that of
    -- this extension's handler, and no other extension changes. Nothing else is sent.
    pub extension_send-handled :
        (s : ExtensionStream) (ty : ℕ) (body : Payload) (answer : Payload → Option WispError)
        → (pre post : List Ext) (e : Ext) → s.mux_gone ≡ false
        → is_protocol ty ≡ false
        → All (Unsupported ty) pre
        → supports handler e ty ≡ true
        → (frame : Payload) × ((extension_send s ty body answer).0.sent ≡ s.sent ++ (frame ∷ []))
          × (maybe_extension_decode handler (pre ++ (e ∷ post)) frame ≡ (
            handled (handler.handle_packet e ty body).0,
            pre ++ ((handler.handle_packet e ty body).1 ∷ post),
          ))
    unfolding extension_send
    extension_send-handled s ty body answer pre post e open_stream other h sup = (
      extension_frame ty s.id body,
      rw open_stream refl,
      ap (maybe_extension_decode handler (pre ++ (e ∷ post))) (extension_frame-bytes ty s.id body)
          ∙ long_decode (pre ++ (e ∷ post)) ty (s.id % 256) (s.id / 256 % 256) (s.id / 65536 % 256)
              (s.id / 16777216 % 256) body
          ∙ body-other (pre ++ (e ∷ post)) ty _ body other
          ∙ dispatch-first pre post e ty body h sup,
    )
