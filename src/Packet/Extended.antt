-- ===== src/Packet/Extended.antt =====
-- wisp/src/packet.rs: `MaybeExtensionPacket`, the packets of protocol extensions beside those of the
-- protocol; and wisp/src/stream/handles.rs: `MuxProtocolExtensionStream`, which sends them. Of an
-- extension, which may be foreign, there are the methods that decoding calls; the lock on the
-- transport that it takes for that time is left out.
pub mod Dispatch
use epoxy_tls.Base.{
  ℕ, ◌+◌, Bool, true, false, ◌&&◌, List, [], ◌∷◌, ◌++◌, Option, none, some, length, ltb, leb,
  contains, if◌then◌else◌, Outcome, ok, err, panic, diverge, ◌>>=◌, WispError, packet_too_small,
  invalid_packet_type, stream_already_closed,
}
use epoxy_tls.Bytes.{Buf, Payload, put_u8, put_u32_le, extend_from_slice, get_u8, get_u32_le}
use epoxy_tls.Packet.Codec.{Packet, packet_type_decode}

pub data MaybeExtensionPacket : Type 0 where
  packet : Packet → MaybeExtensionPacket
  extension_handled : MaybeExtensionPacket

-- `get_supported_packets`, and `handle_packet` with the extension after the call.
pub record Handler (Ext : Type 0) : Type 0 where
  pub get_supported_packets : Ext → List ℕ
  pub handle_packet : Ext → ℕ → Payload → Outcome (Unit {0}) × Ext

-- The stream's state that `send` reads, and the frames that it has given to the transport.
pub record ExtensionStream : Type 0 where
  pub id : ℕ
  pub mux_gone : Bool
  pub sent : List Payload

abbrev pub handled : Outcome (Unit {0}) → Outcome MaybeExtensionPacket
handled r = r >>= λ u. ok extension_handled

module _ {Ext : Type 0} (handler : Handler Ext) where
  abbrev pub supports : Ext → ℕ → Bool
  supports e ty = contains (handler.get_supported_packets e) ty

  abbrev pub handled_by :
      List Ext → Outcome (Unit {0}) × Ext → Outcome MaybeExtensionPacket × List Ext
  handled_by es (r, e) = (handled r, e ∷ es)

  abbrev pub passed_by :
      Ext → Outcome MaybeExtensionPacket × List Ext → Outcome MaybeExtensionPacket × List Ext
  passed_by e (r, es) = (r, e ∷ es)

  -- The loop over the extensions.
  unfoldable pub dispatch : List Ext → ℕ → Payload → Outcome MaybeExtensionPacket × List Ext
  dispatch [] ty p = (err (invalid_packet_type ty), [])
  dispatch (e ∷ es) ty p =
      let rest = dispatch es ty p in
      if supports e ty then handled_by es (handler.handle_packet e ty p) else passed_by e rest

  -- A read that fails leaves the extensions as they are.
  abbrev pub reading :
      {A : Type 0}
      → List Ext
      → Outcome A
      → (A → Outcome MaybeExtensionPacket × List Ext)
      → Outcome MaybeExtensionPacket × List Ext
  reading es (ok a) f = f a
  reading es (err e) f = (err e, es)
  reading es panic f = (panic, es)
  reading es diverge f = (diverge, es)

  module _ ⦃buf : Buf⦄ where
    unfoldable pub decode_body :
        List Ext → ℕ → ℕ → Payload → Outcome MaybeExtensionPacket × List Ext
    unfolding dispatch
    decode_body es ty stream_id p =
        if leb 0x01 ty && leb ty 0x04
        then (
          packet_type_decode p ty >>= λ t.
              ok (packet (record { stream_id = stream_id; packet_type = t })),
          es,
        )
        else dispatch es ty p

    unfoldable pub maybe_extension_decode :
        List Ext → Payload → Outcome MaybeExtensionPacket × List Ext
    unfolding decode_body
    maybe_extension_decode es p =
        if ltb (length p) (1 + 4)
        then (err packet_too_small, es)
        else reading es (get_u8 p)
            λ (ty, p1). reading es (get_u32_le p1) λ (stream_id, p2). decode_body es ty stream_id p2

module _ ⦃buf : Buf⦄ where
  unfoldable pub extension_frame : ℕ → ℕ → Payload → Payload
  extension_frame packet_type id body =
      extend_from_slice (put_u32_le (put_u8 [] packet_type) id) body

  -- `send`, with the transport's answer to the frame.
  unfoldable pub extension_send :
      ExtensionStream
      → ℕ
      → Payload
      → (Payload → Option WispError)
      → ExtensionStream × Option WispError
  unfolding extension_frame
  extension_send s packet_type body answer =
      let frame = extension_frame packet_type s.id body in
      if s.mux_gone
      then (s, some stream_already_closed)
      else (record s { sent = s.sent ++ (frame ∷ []) }, answer frame)
