-- ===== src/Mux/Supported.antt =====
-- wisp/src/mux/mod.rs and client.rs: the parts of the handshake that do not touch the transport.
use epoxy_tls.Base.{
  ℕ, ◌==◌, ◌&&◌, not, if◌then◌else◌, Bool, true, false, List, [], ◌∷◌, map, contains, Option, none,
  some, Outcome, ok, err, ◌>>=◌, WispError, invalid_stream_id, invalid_packet_type, mux_task_ended,
  extensions_not_supported, wisp_version,
}
use epoxy_tls.Bytes.{Buf, Payload}
use epoxy_tls.Packet.Kinds.{StreamType, tcp, udp, other}
use epoxy_tls.Packet.Codec.{PacketType, connect, payload, continue, close, Packet, get_type}
use epoxy_tls.Packet.Info.{Builders, info_encode}
use epoxy_tls.Extension.Any.{
  AnyProtocolExtension, udp_id, get_id, builder_get_id, extension_handle_handshake,
}

abbrev pub granted : PacketType → Outcome ℕ
granted (connect p) = err (invalid_packet_type (get_type (connect p)))
granted (payload p) = err (invalid_packet_type (get_type (payload p)))
granted (continue p) = ok p.buffer_remaining
granted (close p) = err (invalid_packet_type (get_type (close p)))

unfoldable pub validate_continue_packet : Packet → Outcome ℕ
validate_continue_packet p =
    if not (p.stream_id == 0) then err (invalid_stream_id p.stream_id) else granted p.packet_type

unfoldable pub get_supported_extensions :
    List AnyProtocolExtension → Builders → List AnyProtocolExtension
get_supported_extensions [] builders = []
get_supported_extensions (e ∷ es) builders =
    let rest = get_supported_extensions es builders in
    if contains (map builder_get_id builders) (get_id e) then e ∷ rest else rest

-- Every extension of the crate keeps the default handler, which does not touch the transport.
unfoldable pub handle_extensions : List AnyProtocolExtension → Outcome (List AnyProtocolExtension)
unfolding extension_handle_handshake
handle_extensions [] = ok []
handle_extensions (e ∷ es) = do
  e' ← extension_handle_handshake e
  es' ← handle_extensions es
  ok (e' ∷ es')

-- The extensions that both sides have agreed on, and what to do with the identifiers required.
unfoldable pub unsupported_extensions : List ℕ → List AnyProtocolExtension → List ℕ
unsupported_extensions [] supported = []
unsupported_extensions (id ∷ ids) supported =
    let rest = unsupported_extensions ids supported in
    if contains (map get_id supported) id then rest else id ∷ rest

abbrev pub unless_failed : Option WispError → Option WispError → WispError → WispError
unless_failed (some e) future e' = e
unless_failed none (some e) e' = e
unless_failed none none e' = e'

abbrev pub unless_missing : List ℕ → Option WispError → Option WispError → Option WispError
unless_missing [] closed future = none
unless_missing (id ∷ ids) closed future =
    some (unless_failed closed future (extensions_not_supported (id ∷ ids)))

-- The error of `with_required_extensions`; `closed` is that of closing the multiplexor, and `future`
-- that of its future.
unfoldable pub with_required_extensions :
    List ℕ → List AnyProtocolExtension → Option WispError → Option WispError → Option WispError
with_required_extensions required supported closed future =
    unless_missing (unsupported_extensions required supported) closed future

abbrev pub is_udp : StreamType → Bool
is_udp tcp = false
is_udp udp = true
is_udp (other b) = false

-- What `new_stream` refuses before it asks the multiplexor.
unfoldable pub new_stream_error : Bool → List AnyProtocolExtension → StreamType → Option WispError
new_stream_error disconnected supported ty =
    if disconnected
    then some mux_task_ended
    else if is_udp ty && not (contains (map get_id supported) udp_id)
    then some (extensions_not_supported (udp_id ∷ []))
    else none

module _ ⦃buf : Buf⦄ where
  -- The frame of `send_info_packet`, beside the builders after the calls.
  abbrev pub encode_info :
      Outcome (List AnyProtocolExtension) × Builders → Outcome (Payload × Builders)
  encode_info (r, builders) = do
    extensions ← r
    frame ← info_encode (record { version = wisp_version; extensions = extensions })
    ok (frame, builders)
