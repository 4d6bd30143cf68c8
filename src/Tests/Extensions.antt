-- ===== src/Tests/Extensions.antt =====
-- The extensions' exchanges with concrete users and keys.
use epoxy_tls.Base.{
  ℕ, zero, suc, ◌≡◌, ◌↔◌, refl, arith, true, if◌then◌else◌, List, [], ◌∷◌, ◌++◌, list_eq, none,
  some, ok, err, panic, ◌>>=◌, server, client, password_extension_creds_invalid,
  extension_impl_not_supported, cert_auth_extension_sig_invalid, ◌⊎◌, ◌≢◌,
}
use mathlib.Core.List.{Memᴰ}
use epoxy_tls.Bytes.{Payload}
use epoxy_tls.Bytes.Utf8.{Text, is_utf8, from_utf8}
use epoxy_tls.Extension.Motd.{
  server_motd, client_motd, motd_exchange, motd_encode, motd_build_from_bytes,
  motd_build_to_extension,
}
use epoxy_tls.Extension.Password.{
  server_after_client_info, Users, server_before, server_after, password_encode, read_creds,
  password_build_from_bytes,
}
use epoxy_tls.Extension.Password.Login.{password_login}
use epoxy_tls.Extension.Password.Safety.{password_accepts_known, password_panics, IsCutOff}
use epoxy_tls.Extension.Cert.{
  ed25519, VerifyKey, SigningKey, any_verifies, server_challenge, client_answer, client_received,
  server_verified, server_after_challenge, client_before_challenge, client_after_challenge,
  cert_encode, cert_build_to_extension, cert_build_from_bytes, check_answer,
}
use epoxy_tls.Extension.Cert.Challenge.{
  cert_login, cert_accepts_verified, cert_challenge_received, Accepts,
}
use epoxy_tls.Tests.Instances.{list_buf, plain_certs}

abbrev hello : Text
hello = 0x68 ∷ 0x69 ∷ []

motd_exchange_example :
    ((motd_build_to_extension (server_motd hello) server >>= λ e.
    motd_build_from_bytes client_motd (motd_encode e) client)
      ≡ ok (record { role = client; motd = hello }))
    × (motd_build_from_bytes (server_motd hello) (0xff ∷ []) server
        ≡ ok (record { role = server; motd = [] }))
unfolding is_utf8
motd_exchange_example =
    motd_exchange hello (server_motd hello) client_motd (0xff ∷ []) (ground arith) refl

-- One user "a" with the password "pw".
abbrev one_user : Users
one_user name = if list_eq name (0x61 ∷ []) then some (0x70 ∷ 0x77 ∷ []) else none

abbrev creds_bytes : Payload
creds_bytes = 1 ∷ 0x61 ∷ 0x70 ∷ 0x77 ∷ []

password_login_example :
    let (verdict, builder) = password_build_from_bytes (server_before one_user true) creds_bytes in
    ((one_user (0x61 ∷ []) ≡ some (0x70 ∷ 0x77 ∷ []))
        × (verdict ≡ ok (server_after_client_info (0x61 ∷ []) (0x70 ∷ 0x77 ∷ [])))
      ⊎ (one_user (0x61 ∷ []) ≢ some (0x70 ∷ 0x77 ∷ []))
        × (verdict ≡ err password_extension_creds_invalid))
    × ((again : Payload)
        → password_build_from_bytes builder again
          ≡ (err extension_impl_not_supported, server_after one_user true))
unfolding password_encode is_utf8
password_login_example =
    password_login one_user true (0x61 ∷ []) (0x70 ∷ 0x77 ∷ []) (omega arith) (ground arith)
      (ground arith) creds_bytes refl

password_accepts_known_example :
    (user : Text) × (password : Text) × (one_user user ≡ some password)
    × (server_after_client_info (0x61 ∷ []) (0x70 ∷ 0x77 ∷ [])
        ≡ server_after_client_info user password)
unfolding password_build_from_bytes read_creds from_utf8 is_utf8
password_accepts_known_example =
    password_accepts_known one_user true creds_bytes
      (server_after_client_info (0x61 ∷ []) (0x70 ∷ 0x77 ∷ [])) refl

password_panics_example :
    ((password_build_from_bytes (server_before one_user true) (9 ∷ 0x61 ∷ [])).0 ≡ panic)
    ↔ IsCutOff (9 ∷ 0x61 ∷ [])
password_panics_example = password_panics one_user true (9 ∷ 0x61 ∷ [])

abbrev repeat : ℕ → ℕ → List ℕ
repeat zero b = []
repeat (suc n) b = b ∷ repeat n b

-- A key whose signature of anything is 64 bytes 7, and the verifier of such signatures.
abbrev seven : Payload
seven = repeat 64 7

abbrev key_hash : List ℕ
key_hash = repeat 32 5

abbrev key : SigningKey
key = record { cert_type = ed25519; hash = key_hash; try_sign = λ challenge. some seven }

abbrev verifiers : List VerifyKey
verifiers =
    record { cert_type = ed25519; hash = key_hash; verify = λ challenge sig. list_eq sig seven }
    ∷ []

cert_login_example :
    let answer = client_answer ed25519 key_hash seven in
    let r =
      (cert_build_from_bytes
        (server_after_challenge verifiers (1 ∷ 2 ∷ []) true)
        (cert_encode answer)).0 in
    ((cert_build_to_extension (client_after_challenge (some key) ed25519 (1 ∷ 2 ∷ []) true) none).0
      ≡ ok answer)
    × ((Accepts verifiers key_hash (1 ∷ 2 ∷ []) seven × (r ≡ ok server_verified))
        ⊎ (¬ Accepts verifiers key_hash (1 ∷ 2 ∷ []) seven)
          × (r ≡ err cert_auth_extension_sig_invalid))
cert_login_example = cert_login verifiers true (1 ∷ 2 ∷ []) seven key none refl refl refl refl

cert_accepts_verified_example :
    (v : VerifyKey) × (sig : Payload) × Memᴰ v verifiers
    × (v.verify (1 ∷ 2 ∷ []) sig ≡ true)
    × (server_verified ≡ server_verified)
unfolding cert_build_from_bytes check_answer any_verifies
cert_accepts_verified_example =
    cert_accepts_verified verifiers (1 ∷ 2 ∷ []) true (1 ∷ (key_hash ++ seven)) server_verified refl

cert_challenge_received_example :
    cert_build_from_bytes
      (client_before_challenge (some key))
      (cert_encode (server_challenge ed25519 (1 ∷ 2 ∷ []) true))
    ≡ (ok client_received, client_after_challenge (some key) ed25519 (1 ∷ 2 ∷ []) true)
cert_challenge_received_example = cert_challenge_received true (1 ∷ 2 ∷ []) (some key)
