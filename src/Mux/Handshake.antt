-- ===== src/Mux/Handshake.antt =====
-- wisp/src/mux/mod.rs, client.rs and server.rs: the handshake.
use epoxy_tls.Base.{
  ℕ, Bool, true, false, List, [], ◌∷◌, Option, none, some, Outcome, ok, WispError,
  password_extension_creds_invalid, cert_auth_extension_sig_invalid, Role, server, client,
}
use epoxy_tls.Bytes.{Buf, Payload}
use epoxy_tls.Packet.Kinds.{
  CloseReason, extensions_password_auth_failed, extensions_cert_auth_failed,
}
use epoxy_tls.Packet.Codec.{Packet, packet_encode, packet_decode, new_continue, new_close}
use epoxy_tls.Packet.Info.{MaybeInfoPacket, info, packet, Builders, maybe_info_decode}
use epoxy_tls.Extension.Cert.{CertDeps}
use epoxy_tls.Extension.Any.{AnyProtocolExtension, udp_extension, build_extensions}
use epoxy_tls.Mux.Supported.{
  validate_continue_packet, get_supported_extensions, handle_extensions, encode_info,
}
use epoxy_tls.Mux.Conn.{
  Run, pure, lift, ◌>>=◌, next_erroring, lock, unlock, send_frame, close_transport,
}

pub data WispHandshakeResultKind : Type 0 where
  v2_result : List AnyProtocolExtension → WispHandshakeResultKind
  v1_result : Option Packet → WispHandshakeResultKind

pub record WispHandshakeResult : Type 0 where
  pub kind : WispHandshakeResultKind
  pub downgraded : Bool
  pub buffer_size : ℕ

unfoldable pub into_parts : WispHandshakeResultKind → List AnyProtocolExtension × Option Packet
into_parts (v2_result extensions) = (extensions, none)
into_parts (v1_result extra) = (udp_extension ∷ [], extra)

-- The middleware may change the builders, and fail.
pub record WispV2Handshake : Type 0 where
  pub builders : Builders
  pub closure : Builders → Outcome Builders

unfoldable pub handshake_new : Builders → WispV2Handshake
handshake_new builders = record { builders = builders; closure = ok }

-- The handle gives the lock back when it is dropped.
unfoldable pub handle_handshake : List AnyProtocolExtension → Run (List AnyProtocolExtension)
handle_handshake extensions = do _ ← lock; _ ← unlock; lift (handle_extensions extensions)

module _ ⦃buf : Buf⦄ where
  abbrev pub send_and_unlock : Payload → Run (Unit {0})
  send_and_unlock frame = do _ ← lock; _ ← send_frame frame; unlock

  abbrev pub close_with : CloseReason → WispError → Run WispError
  close_with reason e = do
    _ ← lock
    _ ← send_frame (packet_encode (new_close 0 reason))
    _ ← close_transport
    _ ← unlock
    pure e

  -- `handle_error` of the server; the client's returns the error.
  unfoldable pub handle_error : WispError → Run WispError
  handle_error password_extension_creds_invalid =
      close_with extensions_password_auth_failed password_extension_creds_invalid
  handle_error cert_auth_extension_sig_invalid =
      close_with extensions_cert_auth_failed cert_auth_extension_sig_invalid
  handle_error e = pure e

  unfoldable pub read_buffer_size : Run ℕ
  unfolding next_erroring
  read_buffer_size = do
    frame ← next_erroring
    p ← lift (packet_decode frame)
    lift (validate_continue_packet p)

module _ ⦃buf : Buf⦄ ⦃deps : CertDeps⦄ where
  -- The result is that of the send, after the unlock.
  abbrev pub send_kept : Payload → Run (Unit {0})
  send_kept frame c =
      let (r, c') = send_frame frame (record c { locked = true }) in
      (r, record c' { locked = false })

  -- The builders after the calls, beside nothing. `random` is the system's generator.
  unfoldable pub send_info_packet : Builders → Role → (ℕ → Option Payload) → Run Builders
  send_info_packet builders role random = do
    (frame, builders') ← lift (encode_info (build_extensions builders role random))
    _ ← send_kept frame
    pure builders'

  abbrev pub finish_client :
      WispV2Handshake → (ℕ → Option Payload) → MaybeInfoPacket × Builders → Run WispHandshakeResult
  finish_client h random (info i, builders) = do
    builders' ← lift (h.closure builders)
    builders'' ← send_info_packet builders' client random
    supported ← handle_handshake (get_supported_extensions i.extensions builders'')
    size ← read_buffer_size
    pure (record { kind = v2_result supported; downgraded = false; buffer_size = size })
  finish_client h random (packet p, builders) = do
    size ← lift (validate_continue_packet p)
    pure (record { kind = v1_result none; downgraded = true; buffer_size = size })

  unfoldable pub client_handshake :
      Option WispV2Handshake → (ℕ → Option Payload) → Run WispHandshakeResult
  unfolding next_erroring
  client_handshake none random = do
    size ← read_buffer_size
    pure (record { kind = v1_result none; downgraded = false; buffer_size = size })
  client_handshake (some h) random = do
    frame ← next_erroring
    r ← lift (maybe_info_decode frame h.builders client)
    finish_client h random r

  abbrev pub finish_server : ℕ → MaybeInfoPacket × Builders → Run WispHandshakeResult
  finish_server size (info i, builders) = do
    supported ← handle_handshake (get_supported_extensions i.extensions builders)
    _ ← send_and_unlock (packet_encode (new_continue 0 size))
    pure (record { kind = v2_result supported; downgraded = false; buffer_size = size })
  finish_server size (packet p, builders) =
      pure (record { kind = v1_result (some p); downgraded = true; buffer_size = size })

  unfoldable pub server_handshake :
      ℕ → Option WispV2Handshake → (ℕ → Option Payload) → Run WispHandshakeResult
  unfolding next_erroring
  server_handshake size none random = do
    _ ← send_and_unlock (packet_encode (new_continue 0 size))
    pure (record { kind = v1_result none; downgraded = false; buffer_size = size })
  server_handshake size (some h) random = do
    builders ← send_info_packet h.builders server random
    builders' ← lift (h.closure builders)
    frame ← next_erroring
    r ← lift (maybe_info_decode frame builders' server)
    finish_server size r
