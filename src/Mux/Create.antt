-- ===== src/Mux/Create.antt =====
-- wisp/src/mux/mod.rs: `Multiplexor::create`, up to the handles that it returns.
use epoxy_tls.Base.{
  ℕ, ◌≡◌, arith, Bool, true, false, List, [], ◌∷◌, ◌++◌, Option, none, some, Outcome, ok, err,
  panic, diverge, WispError, Role, server, client, password_extension_creds_invalid,
  cert_auth_extension_sig_invalid,
}
use epoxy_tls.Bytes.{Buf, Payload}
use epoxy_tls.Packet.Kinds.{
  extensions_password_auth_failed, extensions_cert_auth_failed, CloseReason,
}
use epoxy_tls.Packet.Codec.{Packet, packet_encode, new_close}
use epoxy_tls.Packet.Info.{Builders, maybe_info_decode}
use epoxy_tls.Extension.Cert.{CertDeps}
use epoxy_tls.Extension.Any.{AnyProtocolExtension}
use epoxy_tls.Mux.State.{Mux, mux_new}
use epoxy_tls.Mux.Conn.{Conn, Run, next_erroring}
use epoxy_tls.Mux.Handshake.{
  WispHandshakeResult, into_parts, WispV2Handshake, client_handshake, server_handshake,
  handle_error, send_info_packet,
}

-- The multiplexor, its supported extensions, the packet that its loop begins with, and whether the
-- version was downgraded.
abbrev pub Created : Type 0
Created = Mux × List AnyProtocolExtension × Option Packet × Bool

unfoldable pub created_from : Role → WispHandshakeResult → Created
unfolding into_parts
created_from role r =
    let (extensions, extra) = into_parts r.kind in
    (mux_new role extensions r.buffer_size, extensions, extra, r.downgraded)

-- `Err(muxer.handle_error(x, &mut tx).await?)`
abbrev pub as_error : Outcome WispError × Conn → Outcome Created × Conn
as_error (ok e, c) = (err e, c)
as_error (err e, c) = (err e, c)
as_error (panic, c) = (panic, c)
as_error (diverge, c) = (diverge, c)

abbrev pub handled :
    Role → (WispError → Run WispError) → Outcome WispHandshakeResult × Conn → Outcome Created × Conn
handled role handler (ok r, c) = (ok (created_from role r), c)
handled role handler (err e, c) = as_error (handler e c)
handled role handler (panic, c) = (panic, c)
handled role handler (diverge, c) = (diverge, c)

-- `handle_error` of the client.
abbrev pub client_handle_error : WispError → Run WispError
client_handle_error e c = (ok e, c)

-- The reason that the peer is given for a failed authentication.
abbrev pub refusal : WispError → Option CloseReason
refusal password_extension_creds_invalid = some extensions_password_auth_failed
refusal cert_auth_extension_sig_invalid = some extensions_cert_auth_failed
refusal e = none

module _ ⦃buf : Buf⦄ ⦃deps : CertDeps⦄ where
  unfoldable pub client_create : Option WispV2Handshake → (ℕ → Option Payload) → Run Created
  client_create v2 random c = handled client client_handle_error (client_handshake v2 random c)

  unfoldable pub server_create : ℕ → Option WispV2Handshake → (ℕ → Option Payload) → Run Created
  server_create size v2 random c = handled server handle_error (server_handshake size v2 random c)

  -- A client that fails to authenticate: once the server's greeting was sent and the client's answer
  -- is refused with the error `e`, the server sends the CLOSE frame of stream 0 with the reason for
  -- that error and nothing else, closes the transport, gives the lock back and reports the error, if
  -- the transport takes that frame and closes.
  pub auth_failed :
      (size : ℕ) (h : WispV2Handshake) (random : ℕ → Option Payload) (c c₁ : Conn)
      (builders builders' : Builders) (answer : Payload) (rest : List (Outcome Payload))
      (e : WispError) (reason : CloseReason)
      → send_info_packet h.builders server random c ≡ (ok builders, c₁)
      → h.closure builders ≡ ok builders'
      → c₁.rx ≡ ok answer ∷ rest
      → maybe_info_decode answer builders' server ≡ err e
      → refusal e ≡ some reason
      → c₁.answer (packet_encode (new_close 0 reason)) ≡ none
      → c₁.close_answer ≡ none
      → server_create size (some h) random c ≡ (
        err e,
        record c₁ {
          rx = rest;
          sent = c₁.sent ++ (packet_encode (new_close 0 reason) ∷ []);
          locked = false;
          shut = true;
        },
      )
  unfolding server_create server_handshake next_erroring handle_error
  auth_failed size h random c c₁ builders builders' answer rest e reason s cl r d k a z =
      rw (s, cl, r, d) (ground arith)
