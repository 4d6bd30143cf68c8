-- ===== src/Server/Config/Opts.antt =====
-- server/src/config.rs and server/src/handle/wisp/utils.rs: what the server offers in a handshake.
-- The file system, the ed25519 key and the SHA-256 hash are arguments.
pub mod Required
use epoxy_tls.Base.{ℕ, Bool, List, [], ◌∷◌, ◌++◌, Option, none, some, if◌then◌else◌}
use epoxy_tls.Bytes.{Payload}
use epoxy_tls.Bytes.Utf8.{Text}
use epoxy_tls.Packet.Info.{Builders}
use epoxy_tls.Extension.Motd.{server_motd}
use epoxy_tls.Extension.Password.{password_id, server_before}
use epoxy_tls.Extension.Cert.{VerifyKey, new_verify_key, cert_id, server_before_challenge}
use epoxy_tls.Extension.Any.{udp_builder, motd_builder, password_builder, cert_builder}
use epoxy_tls.Mux.Handshake.{WispV2Handshake, handshake_new}
use epoxy_tls.Server.Anyhow.{Anyhow, ok, ◌>>=◌, try}
use epoxy_tls.Server.Config.{
  udp, motd, has_extension, ProtocolExtensionAuth, password, certificate, WispConfig,
}

pub record CertFiles : Type 1 where
  pub VerifyingKey : Type 0
  pub read_to_string : Text → Option Text
  pub from_public_key_pem : Text → Option VerifyingKey
  pub to_bytes : VerifyingKey → Payload
  pub sha256 : Payload → List ℕ
  pub verify : VerifyingKey → Payload → Payload → Bool

-- The connection's handshake, the identifiers it has to agree on, and the buffer size.
abbrev pub Opts : Type 0
Opts = Option WispV2Handshake × List ℕ × ℕ

abbrev pub when {ℓ} : {A : Type ℓ} → Bool → A → List A
when b a = if b then a ∷ [] else []

module _ (files : CertFiles) where
  -- The loop from `out` on.
  unfoldable pub read_certificates : List Text → List VerifyKey → Anyhow (List VerifyKey)
  read_certificates [] out = ok out
  read_certificates (path ∷ paths) out = do
    data_ ← try (files.read_to_string path)
    verifier ← try (files.from_public_key_pem data_)
    read_certificates paths (
        out
        ++ (new_verify_key (files.verify verifier) (files.sha256 (files.to_bytes verifier)) ∷ []))

  unfoldable pub get_certificates_from_paths : List Text → Anyhow (List VerifyKey)
  unfolding read_certificates
  get_certificates_from_paths paths = read_certificates paths []

  -- The builder and the identifier that the authentication adds.
  unfoldable pub auth_opts : WispConfig → Option ProtocolExtensionAuth → Anyhow (Builders × List ℕ)
  unfolding get_certificates_from_paths
  auth_opts c (some password) = ok (
    password_builder (server_before c.password_extension_users c.password_extension_required) ∷ [],
    when c.password_extension_required password_id,
  )
  auth_opts c (some certificate) = do
    keys ← get_certificates_from_paths c.certificate_extension_keys
    ok (
      cert_builder (server_before_challenge keys c.certificate_extension_required) ∷ [],
      when c.certificate_extension_required cert_id,
    )
  auth_opts c none = ok ([], [])

  unfoldable pub v2_opts : WispConfig → Anyhow Opts
  unfolding auth_opts
  v2_opts c = do
    (auth, required_extensions) ← auth_opts c c.auth_extension
    ok (
      some (
          handshake_new (
            when (has_extension c.extensions udp) udp_builder
            ++ when (has_extension c.extensions motd) (motd_builder (server_motd c.motd_extension))
            ++ auth)),
      required_extensions,
      c.buffer_size,
    )

  unfoldable pub to_opts : WispConfig → Anyhow Opts
  unfolding v2_opts
  to_opts c = if c.wisp_v2 then v2_opts c else ok (none, [], c.buffer_size)
