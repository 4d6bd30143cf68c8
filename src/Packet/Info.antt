-- ===== src/Packet/Info.antt =====
-- wisp/src/packet.rs: the INFO packet, which lists the extensions of a peer, and the frames of the
-- handshake.
pub mod Frames
pub mod Ends
pub mod Known
use epoxy_tls.Base.{
  ℕ, zero, suc, ◌+◌, ◌==◌, ltb, not, if◌then◌else◌, Bool, true, false, List, [], ◌∷◌, ◌++◌, length,
  Option, none, some, Outcome, ok, err, panic, diverge, ◌>>=◌, packet_too_small,
  incompatible_protocol_version, WispVersion, wisp_version, Role,
}
use epoxy_tls.Bytes.{Buf, Payload, put_u8, put_u32, get_u8, get_u32_le, split_to}
use epoxy_tls.Extension.Cert.{CertDeps}
use epoxy_tls.Extension.Any.{
  AnyProtocolExtension, AnyProtocolExtensionBuilder, builder_get_id, extension_encode_into,
  build_from_bytes,
}
use epoxy_tls.Packet.Codec.{Packet, packet_type_decode, size_of_u8, size_of_u32}

pub record InfoPacket : Type 0 where
  pub version : WispVersion
  pub extensions : List AnyProtocolExtension

pub data MaybeInfoPacket : Type 0 where
  packet : Packet → MaybeInfoPacket
  info : InfoPacket → MaybeInfoPacket

abbrev pub Builders : Type 0
Builders = List AnyProtocolExtensionBuilder

module _ ⦃buf : Buf⦄ where
  unfoldable pub version_encode_into : WispVersion → Payload → Payload
  version_encode_into v p = put_u8 (put_u8 p v.major) v.minor

  unfoldable pub version_decode : Payload → Outcome (WispVersion × Payload)
  version_decode p = if ltb (length p) 2 then err packet_too_small else (do
    (major, p) ← get_u8 p
    (minor, p) ← get_u8 p
    ok (record { major = major; minor = minor }, p))

  unfoldable pub encode_extensions : List AnyProtocolExtension → Payload → Outcome Payload
  encode_extensions [] p = ok p
  encode_extensions (e ∷ es) p = do p ← extension_encode_into e p; encode_extensions es p

  unfoldable pub info_encode : InfoPacket → Outcome Payload
  unfolding version_encode_into
  info_encode i =
      encode_extensions i.extensions (version_encode_into i.version (put_u32 (put_u8 [] 0x05) 0))

abbrev pub behind :
    AnyProtocolExtensionBuilder
    → Option (Outcome AnyProtocolExtension × Builders)
    → Option (Outcome AnyProtocolExtension × Builders)
behind b none = none
behind b (some (r, bs)) = some (r, b ∷ bs)

abbrev pub found :
    Builders
    → Option (Outcome AnyProtocolExtension × Builders)
    → Outcome (List AnyProtocolExtension × Builders)
found builders none = ok ([], builders)
found builders (some (r, builders')) = r >>= λ e. ok (e ∷ [], builders')

module _ ⦃buf : Buf⦄ ⦃deps : CertDeps⦄ where
  -- The first builder with the identifier reads the bytes, and is changed in its place.
  unfoldable pub build_found :
      Builders → ℕ → Payload → Role → Option (Outcome AnyProtocolExtension × Builders)
  build_found [] id bytes role = none
  build_found (b ∷ bs) id bytes role =
      let (r, b') = build_from_bytes b bytes role in
      let later = behind b (build_found bs id bytes role) in
      if builder_get_id b == id then some (r, b' ∷ bs) else later

  -- What one extension of the packet adds to the list, and the builders after it: a builder's
  -- error ends the packet, and bytes with no builder are skipped.
  unfoldable pub read_extension :
      Builders → ℕ → Payload → Role → Outcome (List AnyProtocolExtension × Builders)
  read_extension builders id bytes role = found builders (build_found builders id bytes role)

  -- The `while` loop, which drops a header at least in each round: the fuel is the length of the
  -- packet. `usize::try_from` of a `u32` succeeds where pointers have 32 bits or more.
  unfoldable pub read_extensions :
      ℕ → Builders → Payload → Role → Outcome (List AnyProtocolExtension × Builders)
  read_extensions zero builders p role =
      if ltb (length p) (size_of_u8 + size_of_u32) then ok ([], builders) else diverge
  read_extensions (suc fuel) builders p role =
      let round = (do
        (id, p) ← get_u8 p
        (len, p) ← get_u32_le p
        (bytes, p) ← if ltb (length p) len then err packet_too_small else split_to p len
        (es, builders) ← read_extension builders id bytes role
        (later, builders) ← read_extensions fuel builders p role
        ok (es ++ later, builders)) in
      if ltb (length p) (size_of_u8 + size_of_u32) then ok ([], builders) else round

  unfoldable pub info_decode : Payload → Builders → Role → Outcome (InfoPacket × Builders)
  info_decode p builders role =
      if ltb (length p) (size_of_u8 + size_of_u8) then err packet_too_small else (do
        (major, p) ← get_u8 p
        (minor, p) ← get_u8 p
        let version : WispVersion = record { major = major; minor = minor }
        (extensions, builders) ←
            if not (major == wisp_version.major)
            then err (incompatible_protocol_version version wisp_version)
            else read_extensions (length p) builders p role
        ok (record { version = version; extensions = extensions }, builders))

  unfoldable pub maybe_info_decode :
      Payload → Builders → Role → Outcome (MaybeInfoPacket × Builders)
  maybe_info_decode p builders role =
      if ltb (length p) (size_of_u8 + size_of_u32) then err packet_too_small else (do
        (ty, p) ← get_u8 p
        (stream_id, p) ← get_u32_le p
        if ty == 0x05
            then (info_decode p builders role >>= λ r. ok (info r.0, r.1))
            else (packet_type_decode p ty >>= λ t.
                ok (packet (record { stream_id = stream_id; packet_type = t }), builders)))
