-- ===== src/Server/Session.antt =====
-- server/src/handle/wisp/mod.rs: `handle_wisp`, up to the multiplexor whose streams it accepts.
pub mod Login
use epoxy_tls.Base.{
  ℕ, Bool, true, false, if◌then◌else◌, List, Option, none, some, Outcome, ok, err, panic, diverge,
  WispError,
}
use epoxy_tls.Bytes.{Buf, Payload}
use epoxy_tls.Extension.Cert.{CertDeps}
use epoxy_tls.Mux.Conn.{Conn}
use epoxy_tls.Mux.Supported.{with_required_extensions}
use epoxy_tls.Mux.Create.{Created, server_create}
use epoxy_tls.Server.Anyhow.{Anyhow, ◌>>=◌}
use epoxy_tls.Server.Config.{WispConfig}
use epoxy_tls.Server.Config.Opts.{CertFiles, to_opts}

abbrev unless_refused : Created → Option WispError → Outcome Created
unless_refused created none = ok created
unless_refused created (some e) = err e

-- `.with_required_extensions(&required_extensions)`; `closed` and `future` are its arguments.
abbrev pub required_from :
    List ℕ → Option WispError → Option WispError → Outcome Created × Conn → Outcome Created × Conn
required_from required closed future (ok created, c) =
    (unless_refused created (with_required_extensions required created.1 closed future), c)
required_from required closed future (err e, c) = (err e, c)
required_from required closed future (panic, c) = (panic, c)
required_from required closed future (diverge, c) = (diverge, c)

-- The configuration's options may fail before the transport is touched; `is_v2` is that the client
-- asked for version 2 in its HTTP request.
unfoldable pub handle_wisp :
    ⦃buf : Buf⦄ ⦃deps : CertDeps⦄
    → CertFiles
    → WispConfig
    → Bool
    → (ℕ → Option Payload)
    → Option WispError
    → Option WispError
    → Conn
    → Anyhow (Outcome Created × Conn)
handle_wisp files config is_v2 random closed future c = do
  (extensions, required_extensions, buffer_size) ← to_opts files config
  Anyhow.ok (
      required_from required_extensions closed future
        (server_create buffer_size (if is_v2 then extensions else none) random c))
