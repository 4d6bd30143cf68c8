-- ===== src/Extension/Motd.antt =====
-- wisp/src/extensions/motd.rs: the message of the day.
use epoxy_tls.Base.{
  ℕ, ◌≡◌, true, [], arith, Outcome, ok, err, panic, diverge, ◌>>=◌, Role, server, client,
  extension_impl_error,
}
use epoxy_tls.Bytes.{Payload}
use epoxy_tls.Bytes.Utf8.{Text, is_utf8, from_utf8}

pub record MotdProtocolExtension : Type 0 where
  pub role : Role
  pub motd : Text

abbrev pub motd_id : ℕ
motd_id = 0x04

encode_as : Role → Text → Payload
encode_as server motd = motd
encode_as client motd = []

unfoldable pub motd_encode : MotdProtocolExtension → Payload
unfolding encode_as
motd_encode e = encode_as e.role e.motd

pub data MotdBuilder : Type 0 where
  server_motd : Text → MotdBuilder
  client_motd : MotdBuilder

-- `map_err(|x| WispError::ExtensionImplError(Box::new(x)))`
abbrev as_impl_error : Outcome Text → Outcome Text
as_impl_error (ok t) = ok t
as_impl_error (err e) = err extension_impl_error
as_impl_error panic = panic
as_impl_error diverge = diverge

read_as : Payload → Role → Outcome MotdProtocolExtension
read_as bytes client = do
  motd ← as_impl_error (from_utf8 bytes)
  ok (record { role = client; motd = motd })
read_as bytes server = ok (record { role = server; motd = [] })

-- Neither method changes the builder.
unfoldable pub motd_build_from_bytes : MotdBuilder → Payload → Role → Outcome MotdProtocolExtension
unfolding read_as
motd_build_from_bytes b bytes role = read_as bytes role

unfoldable pub motd_build_to_extension : MotdBuilder → Role → Outcome MotdProtocolExtension
motd_build_to_extension (server_motd motd) role = ok (record { role = role; motd = motd })
motd_build_to_extension client_motd role = ok (record { role = role; motd = [] })

-- The client reads the server's message, and the server reads an empty one, whatever was sent.
pub motd_exchange :
    (motd : Text) (b c : MotdBuilder) (reply : Payload)
    → is_utf8 motd ≡ true
    → b ≡ server_motd motd
    → ((motd_build_to_extension b server >>= λ e. motd_build_from_bytes c (motd_encode e) client)
        ≡ ok (record { role = client; motd = motd }))
      × (motd_build_from_bytes b reply server ≡ ok (record { role = server; motd = [] }))
unfolding motd_build_to_extension motd_build_from_bytes motd_encode from_utf8
motd_exchange motd b c reply h e = ground arith
