-- ===== src/Extension/Any.antt =====
-- wisp/src/extensions/mod.rs and udp.rs: the extensions of this crate behind one type, as
-- `AnyProtocolExtension` and `AnyProtocolExtensionBuilder` hold them, with the methods of the two
-- traits. Implementations outside the crate are not modelled.
use epoxy_tls.Base.{
  ℕ, suc, ◌%◌, ◌≡◌, refl, arith, List, [], ◌∷◌, length, Option, Outcome, ok, err, panic, diverge,
  ◌>>=◌, Role,
}
use epoxy_tls.Bytes.{Buf, Payload, put_u8, put_u32_le, extend_from_slice}
use epoxy_tls.Extension.Motd.{
  MotdProtocolExtension, MotdBuilder, motd_id, motd_encode, motd_build_from_bytes,
  motd_build_to_extension,
}
use epoxy_tls.Extension.Password.{
  PasswordProtocolExtension, PasswordBuilder, password_id, password_encode,
  password_build_from_bytes, password_build_to_extension,
}
use epoxy_tls.Extension.Cert.{
  CertDeps, CertAuthProtocolExtension, CertBuilder, cert_id, cert_encode, cert_build_from_bytes,
  cert_build_to_extension,
}

abbrev pub udp_id : ℕ
udp_id = 0x01

pub data AnyProtocolExtension : Type 0 where
  udp_extension : AnyProtocolExtension
  motd_extension : MotdProtocolExtension → AnyProtocolExtension
  password_extension : PasswordProtocolExtension → AnyProtocolExtension
  cert_extension : CertAuthProtocolExtension → AnyProtocolExtension

pub data AnyProtocolExtensionBuilder : Type 0 where
  udp_builder : AnyProtocolExtensionBuilder
  motd_builder : MotdBuilder → AnyProtocolExtensionBuilder
  password_builder : PasswordBuilder → AnyProtocolExtensionBuilder
  cert_builder : CertBuilder → AnyProtocolExtensionBuilder

unfoldable pub get_id : AnyProtocolExtension → ℕ
get_id udp_extension = udp_id
get_id (motd_extension e) = motd_id
get_id (password_extension e) = password_id
get_id (cert_extension e) = cert_id

unfoldable pub builder_get_id : AnyProtocolExtensionBuilder → ℕ
builder_get_id udp_builder = udp_id
builder_get_id (motd_builder b) = motd_id
builder_get_id (password_builder b) = password_id
builder_get_id (cert_builder b) = cert_id

-- The defaults of the trait, which no extension of the crate overrides.
unfoldable pub get_supported_packets : AnyProtocolExtension → List ℕ
get_supported_packets e = []

unfoldable pub get_congestion_stream_types : AnyProtocolExtension → List ℕ
get_congestion_stream_types e = []

unfoldable pub extension_handle_handshake : AnyProtocolExtension → Outcome AnyProtocolExtension
extension_handle_handshake e = ok e

-- `.into()` on the extension that a builder made, beside the builder after the call.
abbrev pub into_any {ℓ κ} :
    {A : Type ℓ} {B : Type κ}
    → (A → AnyProtocolExtension)
    → (B → AnyProtocolExtensionBuilder)
    → Outcome A × B
    → Outcome AnyProtocolExtension × AnyProtocolExtensionBuilder
into_any f g (r, b) = (r >>= λ a. ok (f a), g b)

module _ ⦃buf : Buf⦄ where
  unfoldable pub extension_encode : AnyProtocolExtension → Outcome Payload
  extension_encode udp_extension = ok []
  extension_encode (motd_extension e) = ok (motd_encode e)
  extension_encode (password_extension e) = password_encode e
  extension_encode (cert_extension e) = ok (cert_encode e)

  -- `payload.len() as u32` wraps.
  unfoldable pub extension_encode_into : AnyProtocolExtension → Payload → Outcome Payload
  extension_encode_into e p = do
    payload ← extension_encode e
    ok (extend_from_slice (put_u32_le (put_u8 p (get_id e)) (length payload % 4294967296)) payload)

module _ ⦃buf : Buf⦄ ⦃deps : CertDeps⦄ where
  unfoldable pub build_from_bytes :
      AnyProtocolExtensionBuilder
      → Payload
      → Role
      → Outcome AnyProtocolExtension × AnyProtocolExtensionBuilder
  build_from_bytes udp_builder bytes role = (ok udp_extension, udp_builder)
  build_from_bytes (motd_builder b) bytes role =
      (motd_build_from_bytes b bytes role >>= λ e. ok (motd_extension e), motd_builder b)
  build_from_bytes (password_builder b) bytes role =
      into_any password_extension password_builder (password_build_from_bytes b bytes)
  build_from_bytes (cert_builder b) bytes role =
      into_any cert_extension cert_builder (cert_build_from_bytes b bytes)

  -- A builder whose identifier was matched makes an extension with that identifier.
  pub get_id-build_from_bytes :
      (b : AnyProtocolExtensionBuilder) (bytes : Payload) (role : Role) (e : AnyProtocolExtension)
      → (build_from_bytes b bytes role).0 ≡ ok e
      → get_id e ≡ builder_get_id b
  unfolding build_from_bytes get_id builder_get_id
  get_id-build_from_bytes udp_builder bytes role e h = ground arith
  get_id-build_from_bytes (motd_builder b) bytes role e h = ground arith
  get_id-build_from_bytes (password_builder b) bytes role e h = ground arith
  get_id-build_from_bytes (cert_builder b) bytes role e h = ground arith

  pub builder_get_id-build_from_bytes :
      (b : AnyProtocolExtensionBuilder) (bytes : Payload) (role : Role)
      → builder_get_id (build_from_bytes b bytes role).1 ≡ builder_get_id b
  unfolding build_from_bytes builder_get_id
  builder_get_id-build_from_bytes udp_builder bytes role = refl
  builder_get_id-build_from_bytes (motd_builder b) bytes role = refl
  builder_get_id-build_from_bytes (password_builder b) bytes role = refl
  builder_get_id-build_from_bytes (cert_builder b) bytes role = refl

module _ ⦃deps : CertDeps⦄ where
  unfoldable pub build_to_extension :
      AnyProtocolExtensionBuilder
      → Role
      → Option Payload
      → Outcome AnyProtocolExtension × AnyProtocolExtensionBuilder
  build_to_extension udp_builder role random = (ok udp_extension, udp_builder)
  build_to_extension (motd_builder b) role random =
      (motd_build_to_extension b role >>= λ e. ok (motd_extension e), motd_builder b)
  build_to_extension (password_builder b) role random =
      (password_build_to_extension b >>= λ e. ok (password_extension e), password_builder b)
  build_to_extension (cert_builder b) role random =
      into_any cert_extension cert_builder (cert_build_to_extension b random)

  -- The results of `build_to_extension` in order, up to the first error; the builders after the
  -- calls. `random i` is what the system's generator gives the builder at position `i`.
  abbrev pub collect :
      Outcome AnyProtocolExtension
      → AnyProtocolExtensionBuilder
      → List AnyProtocolExtensionBuilder
      → Outcome (List AnyProtocolExtension) × List AnyProtocolExtensionBuilder
      → Outcome (List AnyProtocolExtension) × List AnyProtocolExtensionBuilder
  collect (ok e) b bs (r, bs') = (r >>= λ es. ok (e ∷ es), b ∷ bs')
  collect (err x) b bs rest = (err x, b ∷ bs)
  collect panic b bs rest = (panic, b ∷ bs)
  collect diverge b bs rest = (diverge, b ∷ bs)

  unfoldable pub build_extensions :
      List AnyProtocolExtensionBuilder
      → Role
      → (ℕ → Option Payload)
      → Outcome (List AnyProtocolExtension) × List AnyProtocolExtensionBuilder
  build_extensions [] role random = (ok [], [])
  build_extensions (b ∷ bs) role random =
      let (r, b') = build_to_extension b role (random 0) in
      let rest = build_extensions bs role (λ i. random (suc i)) in collect r b' bs rest
