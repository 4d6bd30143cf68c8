-- ===== src/Server/Session/Login.antt =====
-- server/src/handle/wisp/mod.rs: who gets a multiplexor of a server that requires a password.
use epoxy_tls.Base.{
  ℕ, ◌≡◌, refl, sym, ap, ◌∙◌, Bool, true, false, if◌then◌else◌, List, [], ◌∷◌, ◌++◌, contains, map,
  Option, none, some, Outcome, ok, err, panic, diverge, WispError, Gives-ok, All, All-append,
}
use epoxy_tls.Bytes.{Buf, Payload}
use epoxy_tls.Extension.Cert.{CertDeps}
use epoxy_tls.Extension.Password.{Users, password_id, server_before}
use epoxy_tls.Extension.Any.{
  AnyProtocolExtensionBuilder, udp_builder, motd_builder, password_builder, get_id, udp_extension,
}
use epoxy_tls.Extension.Motd.{server_motd}
use epoxy_tls.Extension.Known.{IsKnown, IsGuarded, HasLogin, get_id-HasLogin}
use epoxy_tls.Packet.Info.{Builders}
use epoxy_tls.Mux.Conn.{Conn}
use epoxy_tls.Mux.Handshake.{handshake_new}
use epoxy_tls.Mux.Create.{Created, server_create}
use epoxy_tls.Mux.Known.{server_create-IsKnown, server_create-v1}
use epoxy_tls.Mux.Supported.{with_required_extensions}
use epoxy_tls.Mux.Intersection.{with_required_extensions_lem}
use epoxy_tls.Server.Anyhow.{Anyhow, ok-injective, ◌>>=◌}
use epoxy_tls.Server.Config.{WispConfig, password, udp, motd, has_extension}
use epoxy_tls.Server.Config.Opts.{CertFiles, Opts, to_opts, v2_opts, auth_opts, when}
use epoxy_tls.Server.Session.{unless_refused, required_from, handle_wisp}

-- The builders that a server with a password offers.
abbrev password_builders : WispConfig → Builders
password_builders c =
    when (has_extension c.extensions udp) udp_builder
    ++ when (has_extension c.extensions motd) (motd_builder (server_motd c.motd_extension))
    ++ (password_builder (server_before c.password_extension_users true) ∷ [])

abbrev password_opts : WispConfig → Opts
password_opts c = (some (handshake_new (password_builders c)), password_id ∷ [], c.buffer_size)

to_opts-password :
    (files : CertFiles) (c : WispConfig)
    → c.wisp_v2 ≡ true
    → c.auth_extension ≡ some password
    → c.password_extension_required ≡ true
    → to_opts files c ≡ Anyhow.ok (password_opts c)
unfolding to_opts v2_opts auth_opts
to_opts-password files c v2 auth r = rw (v2, auth, r) refl

when-IsGuarded :
    (users : Users) (b : Bool) (x : AnyProtocolExtensionBuilder)
    → IsGuarded users x
    → All (IsGuarded users) (when b x)
when-IsGuarded users true x h = (h, tt)
when-IsGuarded users false x h = tt

password_builders-IsGuarded :
    (c : WispConfig) → All (IsGuarded c.password_extension_users) (password_builders c)
password_builders-IsGuarded c =
    let G = IsGuarded c.password_extension_users in
    All-append G _ _
      (All-append G _ _ (when-IsGuarded _ (has_extension c.extensions udp) udp_builder tt) (
        when-IsGuarded _ (has_extension c.extensions motd)
          (motd_builder (server_motd c.motd_extension)) tt))
      (refl, tt)

unless_refused-ok :
    (created r : Created) (o : Option WispError)
    → unless_refused created o ≡ ok r
    → (created ≡ r) × (o ≡ none)
unless_refused-ok created r none h = (cc, refl)
unless_refused-ok created r (some e) h = cc

-- What a multiplexor was created with, if it got past the test of its extensions.
required_from-ok :
    (required : List ℕ) (closed future : Option WispError) (m : Outcome Created × Conn)
    (r : Created)
    → (required_from required closed future m).0 ≡ ok r
    → (m.0 ≡ ok r) × (with_required_extensions required r.1 closed future ≡ none)
required_from-ok required closed future (ok created, c) r h =
    let (same, none') = unless_refused-ok created r _ h in (ap ok same, rw (← same) none')
required_from-ok required closed future (err e, c) r h = cc
required_from-ok required closed future (panic, c) r h = cc
required_from-ok required closed future (diverge, c) r h = cc

contains-password : contains (map get_id (udp_extension ∷ [])) password_id ≡ false
unfolding get_id
contains-password = refl

module _ ⦃buf : Buf⦄ ⦃deps : CertDeps⦄ where
  -- Of the two handshakes, only that of version 2 can agree on passwords.
  created-HasLogin :
      (config : WispConfig) (is_v2 : Bool) (random : ℕ → Option Payload) (c : Conn) (r : Created)
      → (server_create config.buffer_size
          (if is_v2 then some (handshake_new (password_builders config)) else none)
          random
          c).0
        ≡ ok r
      → contains (map get_id r.1) password_id ≡ true
      → (is_v2 ≡ true) × HasLogin config.password_extension_users r.1
  created-HasLogin config true random c r e h =
      let users = config.password_extension_users in
      let known =
        Gives-ok (λ (r : Created). All (IsKnown users) r.1) _
          (server_create-IsKnown users config.buffer_size (password_builders config) random c
            (password_builders-IsGuarded config))
          e in
      (refl, get_id-HasLogin users r.1 known h)
  created-HasLogin config false random c r e h =
      let udp_only =
        Gives-ok (λ (r : Created). r.1 ≡ udp_extension ∷ []) _
          (server_create-v1 config.password_extension_users config.buffer_size random c) e in
      let there = ap (λ es. contains (map get_id es) password_id) udp_only in
      cc (there, h, contains-password)

  -- A server with Wisp version 2, whose authentication is by password and required, accepts a
  -- connection's streams, whatever the client sends and whatever the transport answers, only if the
  -- client asked for version 2 and its extensions hold a user of the server's table with that user's
  -- password.
  pub handle_wisp-HasLogin :
      (files : CertFiles) (config : WispConfig) (is_v2 : Bool) (random : ℕ → Option Payload)
      (closed future : Option WispError) (c c' : Conn) (r : Created)
      → config.wisp_v2 ≡ true
      → config.auth_extension ≡ some password
      → config.password_extension_required ≡ true
      → handle_wisp files config is_v2 random closed future c ≡ Anyhow.ok (ok r, c')
      → (is_v2 ≡ true) × HasLogin config.password_extension_users r.1
  unfolding handle_wisp
  handle_wisp-HasLogin files config is_v2 random closed future c c' r v2 auth required e =
      let run : Opts → Anyhow (Outcome Created × Conn) = λ o. Anyhow.ok (
        required_from o.1 closed future
          (server_create o.2 (if is_v2 then o.0 else none) random c)) in
      let ran =
        ok-injective
          (required_from (password_id ∷ []) closed future (
            server_create config.buffer_size
              (if is_v2 then some (handshake_new (password_builders config)) else none) random c))
          (ok r, c')
          (sym (ap (λ o. o >>= run) (to_opts-password files config v2 auth required)) ∙ e) in
      let (made, has) = required_from-ok (password_id ∷ []) closed future _ r (ap (λ t. t.0) ran) in
      let holds =
        (with_required_extensions_lem (password_id ∷ []) r.1 closed future).0 has password_id
          refl in
      created-HasLogin config is_v2 random c r made holds
