-- ===== src/Tests/Sessions.antt =====
-- A client with the right password, at a server that requires one.
use epoxy_tls.Base.{◌≡◌, refl, true, false, [], ◌∷◌, none, ok, server}
use epoxy_tls.Bytes.{Payload}
use epoxy_tls.Bytes.Utf8.{is_utf8, from_utf8}
use epoxy_tls.Packet.Codec.{packet_encode, new_continue}
use epoxy_tls.Packet.Info.{
  info_encode, encode_extensions, version_encode_into, maybe_info_decode, info_decode,
  read_extensions, read_extension, build_found,
}
use epoxy_tls.Extension.Password.{
  server_after_client_info, password_encode, password_build_from_bytes, password_build_to_extension,
  read_creds,
}
use epoxy_tls.Extension.Any.{
  password_extension, get_id, builder_get_id, extension_encode, extension_encode_into,
  extension_handle_handshake, build_from_bytes, build_to_extension, build_extensions,
}
use epoxy_tls.Extension.Known.{HasLogin}
use epoxy_tls.Mux.State.{mux_new}
use epoxy_tls.Mux.Conn.{Conn, next_erroring}
use epoxy_tls.Mux.Supported.{
  get_supported_extensions, handle_extensions, with_required_extensions, unsupported_extensions,
}
use epoxy_tls.Mux.Handshake.{
  handshake_new, into_parts, handle_handshake, send_info_packet, server_handshake,
}
use epoxy_tls.Mux.Create.{Created, created_from, server_create}
use epoxy_tls.Server.Anyhow.{Anyhow}
use epoxy_tls.Server.Config.{WispConfig}
use epoxy_tls.Server.Config.Opts.{to_opts, v2_opts, auth_opts}
use epoxy_tls.Server.Session.{handle_wisp}
use epoxy_tls.Server.Session.Login.{handle_wisp-HasLogin}
use epoxy_tls.Tests.Instances.{list_buf, plain_certs}
use epoxy_tls.Tests.Refused.{users, no_random, greeting, start}
use epoxy_tls.Tests.Server.{no_files}
use epoxy_tls.Tests.Programs.{wispnet_config}

abbrev login_config : WispConfig
login_config = record wispnet_config.wisp { extensions = []; password_extension_users = users }

-- The name "a" with the password "pw".
abbrev login : Payload
login = 0x05 ∷ 0 ∷ 0 ∷ 0 ∷ 0 ∷ 2 ∷ 0 ∷ 2 ∷ 4 ∷ 0 ∷ 0 ∷ 0 ∷ 1 ∷ 0x61 ∷ 0x70 ∷ 0x77 ∷ []

abbrev arriving : Conn
arriving = record start { rx = ok login ∷ [] }

abbrev welcomed : Conn
welcomed = record arriving { rx = []; sent = greeting ∷ packet_encode (new_continue 0 128) ∷ [] }

abbrev session : Created
session = (
  mux_new server (password_extension (server_after_client_info (0x61 ∷ []) (0x70 ∷ 0x77 ∷ [])) ∷ [])
      128,
  password_extension (server_after_client_info (0x61 ∷ []) (0x70 ∷ 0x77 ∷ [])) ∷ [],
  none,
  false,
)

logged_in :
    handle_wisp no_files login_config true no_random none none arriving
    ≡ Anyhow.ok (ok session, welcomed)
unfolding handle_wisp to_opts v2_opts auth_opts server_create server_handshake created_from
    into_parts handle_handshake next_erroring handshake_new get_supported_extensions
    handle_extensions extension_handle_handshake with_required_extensions unsupported_extensions
    send_info_packet build_extensions build_to_extension password_build_to_extension info_encode
    version_encode_into encode_extensions extension_encode_into extension_encode password_encode
    get_id maybe_info_decode info_decode read_extensions read_extension build_found build_from_bytes
    password_build_from_bytes read_creds from_utf8 is_utf8 builder_get_id
logged_in = refl

handle_wisp-HasLogin_example : (true ≡ true) × HasLogin users session.1
handle_wisp-HasLogin_example =
    handle_wisp-HasLogin no_files login_config true no_random none none arriving welcomed session
      refl refl refl logged_in
