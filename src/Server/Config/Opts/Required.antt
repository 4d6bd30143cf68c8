-- ===== src/Server/Config/Opts/Required.antt =====
-- The authentication that a configuration requires.
use epoxy_tls.Base.{
  ℕ, ◌≡◌, ◌↔◌, arith, Bool, true, List, [], ◌∷◌, ◌++◌, map, contains, Option, none, some, WispError,
  sym, ap, ◌∙◌,
}
use epoxy_tls.Packet.Info.{Builders}
use epoxy_tls.Extension.Password.{password_id}
use epoxy_tls.Extension.Cert.{cert_id}
use epoxy_tls.Extension.Any.{AnyProtocolExtension, get_id, builder_get_id}
use epoxy_tls.Mux.Handshake.{WispV2Handshake, handshake_new}
use epoxy_tls.Mux.Supported.{with_required_extensions}
use epoxy_tls.Mux.Intersection.{with_required_extensions_lem}
use epoxy_tls.Server.Anyhow.{ok}
use epoxy_tls.Server.Config.{ProtocolExtensionAuth, password, certificate, WispConfig}
use epoxy_tls.Server.Config.Opts.{CertFiles, to_opts, v2_opts, auth_opts}

abbrev pub auth_id : ProtocolExtensionAuth → ℕ
auth_id password = password_id
auth_id certificate = cert_id

abbrev pub auth_required : WispConfig → ProtocolExtensionAuth → Bool
auth_required c password = c.password_extension_required
auth_required c certificate = c.certificate_extension_required

abbrev pub offered : Option WispV2Handshake → List ℕ
offered none = []
offered (some h) = map builder_get_id h.builders

contains_later :
    (bs cs : Builders) (id : ℕ)
    → contains (map builder_get_id cs) id ≡ true
    → contains (map builder_get_id (bs ++ cs)) id ≡ true
contains_later [] cs id h = h
contains_later (b ∷ bs) cs id h = ground (arith, contains_later bs cs id h)

contains_single :
    (id : ℕ) (ids : List ℕ)
    → ((i : ℕ) → contains (id ∷ []) i ≡ true → contains ids i ≡ true) ↔ (contains ids id ≡ true)
contains_single id ids =
    (λ f. f id (ground arith), λ h i e. let same : id ≡ i = ground arith in rw (← same) h)

auth_opts-required :
    (files : CertFiles) (c : WispConfig) (a : ProtocolExtensionAuth) (o : Builders × List ℕ)
    → auth_required c a ≡ true
    → auth_opts files c (some a) ≡ ok o
    → (contains (map builder_get_id o.0) (auth_id a) ≡ true) × (o.1 ≡ auth_id a ∷ [])
unfolding auth_opts builder_get_id
auth_opts-required files c password o r e = ground arith
auth_opts-required files c certificate o r e = ground arith

v2_opts-some :
    (files : CertFiles) (c : WispConfig) (h : Option WispV2Handshake) (required : List ℕ) (size : ℕ)
    → v2_opts files c ≡ ok (h, required, size)
    → (bs : Builders) × (o : Builders × List ℕ) × (auth_opts files c c.auth_extension ≡ ok o)
      × (h ≡ some (handshake_new (bs ++ o.0)))
      × (required ≡ o.1)
unfolding v2_opts
v2_opts-some files c h required size e = ground arith

-- A configuration with Wisp version 2 and an authentication that it requires offers that
-- authentication, and a connection is accepted under its options exactly if the peer supports it.
pub to_opts-required :
    (files : CertFiles) (c : WispConfig) (a : ProtocolExtensionAuth) (h : Option WispV2Handshake)
    (required : List ℕ) (size : ℕ)
    → c.wisp_v2 ≡ true
    → c.auth_extension ≡ some a
    → auth_required c a ≡ true
    → to_opts files c ≡ ok (h, required, size)
    → (contains (offered h) (auth_id a) ≡ true)
      × ((supported : List AnyProtocolExtension) (closed future : Option WispError)
          → (with_required_extensions required supported closed future ≡ none)
            ↔ (contains (map get_id supported) (auth_id a) ≡ true))
unfolding to_opts v2_opts auth_opts handshake_new builder_get_id
to_opts-required files c a h required size v2 auth r e =
    let (bs, o, eo, eh, er) = v2_opts-some files c h required size (cc (v2, e)) in
    let (has, ids) = auth_opts-required files c a o r (sym (ap (auth_opts files c) auth) ∙ eo) in
    (
      rw (eh) (contains_later bs o.0 (auth_id a) has),
      λ supported closed future.
          let accept = with_required_extensions_lem (auth_id a ∷ []) supported closed future in
          let one = contains_single (auth_id a) (map get_id supported) in
          rw (er, ids) (λ k. one.0 (accept.0 k), λ k. accept.1 (one.1 k)),
    )
