-- ===== src/Mux/Known.antt =====
-- wisp/src/mux/server.rs: the extensions that a server agrees on.
use epoxy_tls.Base.{
  ℕ, ◌≡◌, refl, Bool, true, false, if◌then◌else◌, List, [], ◌∷◌, contains, map, Option, none, some,
  Outcome, ok, err, panic, diverge, Gives, bind-Gives, then-Gives, All, Role, server, wisp_version,
  WispError, ◌≡◌,
}
use epoxy_tls.Bytes.{Buf, Payload}
use epoxy_tls.Extension.Password.{Users}
use epoxy_tls.Extension.Cert.{CertDeps}
use epoxy_tls.Extension.Any.{
  AnyProtocolExtension, get_id, builder_get_id, extension_handle_handshake, build_extensions,
  udp_extension,
}
use epoxy_tls.Extension.Known.{IsKnown, IsGuarded, build_extensions-IsGuarded}
use epoxy_tls.Packet.Info.{Builders, MaybeInfoPacket, info, packet, maybe_info_decode, info_encode}
use epoxy_tls.Packet.Info.Known.{IsReceived, maybe_info_decode-IsReceived}
use epoxy_tls.Mux.Supported.{get_supported_extensions, handle_extensions, encode_info}
use epoxy_tls.Mux.Conn.{Conn, Run, resume, next_erroring, pure}
use epoxy_tls.Mux.Handshake.{
  WispHandshakeResult, into_parts, handle_handshake, handshake_new, send_info_packet, finish_server,
  server_handshake, send_kept, send_and_unlock, v2_result, handle_error, v1_result,
}
use epoxy_tls.Mux.Create.{Created, server_create, handled, created_from, as_error}
use epoxy_tls.Packet.Codec.{packet_encode, new_continue}

-- The result of a step, if there is one, satisfies `P`.
abbrev pub Yields {ℓ κ} : {A : Type ℓ} → (A → Type κ) → Outcome A × Conn → Type κ
Yields P r = Gives P r.0

resume-Yields {ℓ κ ℓ' κ'} :
    {A : Type ℓ} {B : Type ℓ'} (P : A → Type κ) (Q : B → Type κ') (m : Outcome A × Conn)
    (f : A → Run B)
    → Yields P m
    → ((a : A) (c : Conn) → P a → Yields Q (f a c))
    → Yields Q (resume m f)
resume-Yields P Q (ok a, c) f h k = k a c h
resume-Yields P Q (err e, c) f h k = tt
resume-Yields P Q (panic, c) f h k = tt
resume-Yields P Q (diverge, c) f h k = tt

resume-any {ℓ κ ℓ'} :
    {A : Type ℓ} {B : Type ℓ'} (Q : B → Type κ) (m : Outcome A × Conn) (f : A → Run B)
    → ((a : A) (c : Conn) → Yields Q (f a c))
    → Yields Q (resume m f)
resume-any Q (ok a, c) f k = k a c
resume-any Q (err e, c) f k = tt
resume-any Q (panic, c) f k = tt
resume-any Q (diverge, c) f k = tt

module _ (users : Users) where
  if-All :
      (b : Bool) (e : AnyProtocolExtension) (es : List AnyProtocolExtension)
      → IsKnown users e
      → All (IsKnown users) es
      → All (IsKnown users) (if b then e ∷ es else es)
  if-All true e es h hs = (h, hs)
  if-All false e es h hs = hs

  get_supported_extensions-IsKnown :
      (es : List AnyProtocolExtension) (builders : Builders)
      → All (IsKnown users) es
      → All (IsKnown users) (get_supported_extensions es builders)
  unfolding get_supported_extensions
  get_supported_extensions-IsKnown [] builders h = tt
  get_supported_extensions-IsKnown (e ∷ es) builders (h, hs) =
      if-All (contains (map builder_get_id builders) (get_id e)) e _ h
        (get_supported_extensions-IsKnown es builders hs)

  handle_extensions-IsKnown :
      (es : List AnyProtocolExtension)
      → All (IsKnown users) es
      → Gives (All (IsKnown users)) (handle_extensions es)
  unfolding handle_extensions extension_handle_handshake
  handle_extensions-IsKnown [] h = tt
  handle_extensions-IsKnown (e ∷ es) (h, hs) =
      bind-Gives (All (IsKnown users)) (All (IsKnown users)) (handle_extensions es) _
        (handle_extensions-IsKnown es hs) λ es' k. (h, k)

  -- What the handshake comes to.
  abbrev pub AreAgreed : WispHandshakeResult → Type 0
  AreAgreed r = All (IsKnown users) (into_parts r.kind).0

module _ ⦃buf : Buf⦄ ⦃deps : CertDeps⦄ (users : Users) where
  finish_server-AreAgreed :
      (size : ℕ) (r : MaybeInfoPacket × Builders) (c : Conn)
      → IsReceived users r.0
      → Yields (AreAgreed users) (finish_server size r c)
  unfolding handle_handshake into_parts
  finish_server-AreAgreed size (info i, builders) c h =
      let es = get_supported_extensions i.extensions builders in
      resume-Yields (All (IsKnown users)) (AreAgreed users) (handle_extensions es, _) _
        (handle_extensions-IsKnown users es
          (get_supported_extensions-IsKnown users i.extensions builders h))
        λ es' c' k.
          resume-any (AreAgreed users) (send_and_unlock (packet_encode (new_continue 0 size)) c')
            (λ _. pure (record { kind = v2_result es'; downgraded = false; buffer_size = size }))
            λ a c''. k
  finish_server-AreAgreed size (packet p, builders) c h = (tt, tt)

  encode_info-IsGuarded :
      (r : Outcome (List AnyProtocolExtension)) (builders : Builders)
      → All (IsGuarded users) builders
      → Gives (λ f. All (IsGuarded users) f.1) (encode_info (r, builders))
  encode_info-IsGuarded r builders h =
      let K : Payload × Builders → Type 0 = λ f. All (IsGuarded users) f.1 in
      then-Gives K r _ λ es.
        then-Gives K (info_encode (record { version = wisp_version; extensions = es })) _ λ frame. h

  send_info_packet-IsGuarded :
      (builders : Builders) (role : Role) (random : ℕ → Option Payload) (c : Conn)
      → All (IsGuarded users) builders
      → Yields (All (IsGuarded users)) (send_info_packet builders role random c)
  unfolding send_info_packet
  send_info_packet-IsGuarded builders role random c h =
      let made = build_extensions builders role random in
      resume-Yields (λ f. All (IsGuarded users) f.1) (All (IsGuarded users)) (encode_info made, c) _
        (encode_info-IsGuarded made.0 made.1
          (build_extensions-IsGuarded users builders role random h))
        λ f c' k. resume-any (All (IsGuarded users)) (send_kept f.0 c') (λ _. pure f.1) λ a c''. k

  server_handshake-AreAgreed :
      (size : ℕ) (builders : Builders) (random : ℕ → Option Payload) (c : Conn)
      → All (IsGuarded users) builders
      → Yields (AreAgreed users) (server_handshake size (some (handshake_new builders)) random c)
  unfolding server_handshake handshake_new
  server_handshake-AreAgreed size builders random c h =
      resume-Yields (All (IsGuarded users)) (AreAgreed users)
        (send_info_packet builders server random c) _
        (send_info_packet-IsGuarded builders server random c h)
        λ bs c' k. resume-any (AreAgreed users) (next_erroring c') _ λ frame c''.
          resume-Yields (λ r. IsReceived users r.0) (AreAgreed users)
            (maybe_info_decode frame bs server, c'') _
            (maybe_info_decode-IsReceived users frame bs server k)
            λ r d j. finish_server-AreAgreed size r d j

  as_error-Yields : (Q : Created → Type 0) (x : Outcome WispError × Conn) → Yields Q (as_error x)
  as_error-Yields Q (ok e, c) = tt
  as_error-Yields Q (err e, c) = tt
  as_error-Yields Q (panic, c) = tt
  as_error-Yields Q (diverge, c) = tt

  handled-Yields :
      (P : WispHandshakeResult → Type 0) (Q : Created → Type 0)
      (m : Outcome WispHandshakeResult × Conn)
      → Yields P m
      → ((r : WispHandshakeResult) → P r → Q (created_from server r))
      → Yields Q (handled server handle_error m)
  handled-Yields P Q (ok r, c) h k = k r h
  handled-Yields P Q (err e, c) h k = as_error-Yields Q (handle_error e c)
  handled-Yields P Q (panic, c) h k = tt
  handled-Yields P Q (diverge, c) h k = tt

  -- A server with builders that check passwords against the table agrees only on password extensions
  -- of users that the table knows.
  pub server_create-IsKnown :
      (size : ℕ) (builders : Builders) (random : ℕ → Option Payload) (c : Conn)
      → All (IsGuarded users) builders
      → Yields
          (λ r. All (IsKnown users) r.1)
          (server_create size (some (handshake_new builders)) random c)
  unfolding server_create created_from
  server_create-IsKnown size builders random c h =
      handled-Yields (AreAgreed users) (λ r. All (IsKnown users) r.1)
        (server_handshake size (some (handshake_new builders)) random c)
        (server_handshake-AreAgreed size builders random c h) λ r k. k

  -- Without version 2, a server agrees on the UDP extension and no other.
  pub server_create-v1 :
      (size : ℕ) (random : ℕ → Option Payload) (c : Conn)
      → Yields (λ r. r.1 ≡ udp_extension ∷ []) (server_create size none random c)
  unfolding server_create server_handshake created_from into_parts
  server_create-v1 size random c =
      let K : WispHandshakeResult → Type 0 = λ r. (into_parts r.kind).0 ≡ udp_extension ∷ [] in
      handled-Yields K (λ r. r.1 ≡ udp_extension ∷ []) (server_handshake size none random c)
        (resume-any K (send_and_unlock (packet_encode (new_continue 0 size)) c)
          (λ _. pure (record { kind = v1_result none; downgraded = false; buffer_size = size }))
          λ a d. refl)
        λ r k. k
