-- ===== src/Extension/Cert.antt =====
-- wisp/src/extensions/cert.rs: authentication by a signature over the server's challenge.
-- The key types of the ed25519 crate are functions in the keys; a challenge drawn by `getrandom`
-- is an argument.
pub mod Challenge
use epoxy_tls.Base.{
  ℕ, ◌≡◌, ◌≤◌, ◌<◌, ◌==◌, not, Bool, true, false, ◌&&◌, ◌||◌, List, [], ◌∷◌, length, list_eq,
  contains, if◌then◌else◌, Option, none, some, Outcome, ok, err, panic, diverge, ok_or, ◌>>=◌,
  cert_auth_extension_cert_type_invalid, cert_auth_extension_sig_invalid,
  cert_auth_extension_no_key, extension_impl_error, extension_impl_not_supported,
}
use epoxy_tls.Bytes.{Buf, Payload, put_u8, extend_from_slice, get_u8, split_to}

-- `SupportedCertificateTypes` is its bits.
abbrev pub ed25519 : ℕ
ed25519 = 1

-- `from_bits` and `iter` of the `bitflags` crate for the one flag, and `Signature::from_slice`.
pub record CertDeps : Type 0 where
  pub from_bits : ℕ → Option ℕ
  pub iter : ℕ → List ℕ
  pub from_slice : Payload → Option Payload
  -- Bits outside the declared flags are refused, and a set's flags are those it contains.
  pub from_bits_known : (b : ℕ) → b ≤ ed25519 → from_bits b ≡ some b
  pub from_bits_unknown : (b : ℕ) → ed25519 < b → from_bits b ≡ none
  pub iter_all : iter ed25519 ≡ ed25519 ∷ []
  pub iter_empty : iter 0 ≡ []
  -- A signature is its 64 bytes.
  pub from_slice_lem : (s : Payload) → length s ≡ 64 → from_slice s ≡ some s

pub record VerifyKey : Type 0 where
  pub cert_type : ℕ
  pub hash : List ℕ
  pub verify : Payload → Payload → Bool

pub record SigningKey : Type 0 where
  pub cert_type : ℕ
  pub hash : List ℕ
  pub try_sign : Payload → Option Payload

unfoldable pub new_verify_key : (Payload → Payload → Bool) → List ℕ → VerifyKey
new_verify_key verifier hash = record { cert_type = ed25519; hash = hash; verify = verifier }

unfoldable pub new_signing_key : (Payload → Option Payload) → List ℕ → SigningKey
new_signing_key signer hash = record { cert_type = ed25519; hash = hash; try_sign = signer }

abbrev pub cert_id : ℕ
cert_id = 0x03

pub data CertAuthProtocolExtension : Type 0 where
  server_challenge : ℕ → Payload → Bool → CertAuthProtocolExtension
  client_answer : ℕ → List ℕ → Payload → CertAuthProtocolExtension
  client_received : CertAuthProtocolExtension
  server_verified : CertAuthProtocolExtension

pub data CertBuilder : Type 0 where
  server_before_challenge : List VerifyKey → Bool → CertBuilder
  server_after_challenge : List VerifyKey → Payload → Bool → CertBuilder
  client_before_challenge : Option SigningKey → CertBuilder
  client_after_challenge : Option SigningKey → ℕ → Payload → Bool → CertBuilder

unfoldable pub cert_is_required : CertBuilder → Option Bool
cert_is_required (server_before_challenge verifiers required) = some required
cert_is_required (server_after_challenge verifiers challenge required) = some required
cert_is_required (client_before_challenge signer) = none
cert_is_required (client_after_challenge signer cert_types challenge required) = some required

unfoldable pub set_signing_key : CertBuilder → SigningKey → CertBuilder
set_signing_key (server_before_challenge verifiers required) key =
    server_before_challenge verifiers required
set_signing_key (server_after_challenge verifiers challenge required) key =
    server_after_challenge verifiers challenge required
set_signing_key (client_before_challenge signer) key = client_before_challenge (some key)
set_signing_key (client_after_challenge signer cert_types challenge required) key =
    client_after_challenge (some key) cert_types challenge required

-- Some verifier of the type and hash accepts the signature.
unfoldable pub any_verifies : List VerifyKey → ℕ → List ℕ → Payload → Payload → Bool
any_verifies [] cert_type hash challenge sig = false
any_verifies (x ∷ xs) cert_type hash challenge sig =
    (x.cert_type == cert_type && list_eq x.hash hash && x.verify challenge sig)
    || any_verifies xs cert_type hash challenge sig

-- The builder after a call, for the branches that change it only on success.
abbrev pub on_ok {ℓ} :
    {A : Type ℓ} → CertBuilder → Outcome (A × CertBuilder) → Outcome A × CertBuilder
on_ok b (ok (a, b')) = (ok a, b')
on_ok b (err e) = (err e, b)
on_ok b panic = (panic, b)
on_ok b diverge = (diverge, b)

abbrev pub u8_of : Bool → ℕ
u8_of true = 1
u8_of false = 0

-- `getrandom::fill` failed on `none`.
unfoldable pub send_challenge :
    List VerifyKey → Bool → Option Payload → Outcome (CertAuthProtocolExtension × CertBuilder)
send_challenge verifiers required random = do
  challenge ← ok_or random extension_impl_error
  ok (
    server_challenge ed25519 challenge required,
    server_after_challenge verifiers challenge required,
  )

module _ ⦃deps : CertDeps⦄ where
  unfoldable pub sign_challenge :
      Option SigningKey → ℕ → Payload → Outcome CertAuthProtocolExtension
  sign_challenge signer cert_types challenge = do
    key ← ok_or signer cert_auth_extension_no_key
    if not (contains (deps.iter cert_types) key.cert_type)
        then err cert_auth_extension_cert_type_invalid
        else (ok_or (key.try_sign challenge) extension_impl_error >>= λ signature.
            ok (client_answer key.cert_type key.hash signature))

  unfoldable pub cert_build_to_extension :
      CertBuilder → Option Payload → Outcome CertAuthProtocolExtension × CertBuilder
  unfolding send_challenge sign_challenge
  cert_build_to_extension (server_before_challenge verifiers required) random =
      on_ok (server_before_challenge verifiers required) (send_challenge verifiers required random)
  cert_build_to_extension (server_after_challenge verifiers challenge required) random =
      (err extension_impl_not_supported, server_after_challenge verifiers challenge required)
  cert_build_to_extension (client_before_challenge signer) random =
      (err extension_impl_not_supported, client_before_challenge signer)
  cert_build_to_extension (client_after_challenge signer cert_types challenge required) random = (
    sign_challenge signer cert_types challenge,
    client_after_challenge signer cert_types challenge required,
  )

module _ ⦃buf : Buf⦄ where
  unfoldable pub cert_encode : CertAuthProtocolExtension → Payload
  cert_encode (server_challenge cert_types challenge required) =
      extend_from_slice (put_u8 (put_u8 [] (u8_of required)) cert_types) challenge
  cert_encode (client_answer cert_type hash signature) =
      extend_from_slice (extend_from_slice (put_u8 [] cert_type) hash) signature
  cert_encode client_received = []
  cert_encode server_verified = []

module _ ⦃buf : Buf⦄ ⦃deps : CertDeps⦄ where
  unfoldable pub check_answer :
      List VerifyKey → Payload → Payload → Outcome CertAuthProtocolExtension
  unfolding any_verifies
  check_answer verifiers challenge bytes = do
    (bits, bytes) ← get_u8 bytes
    cert_type ← ok_or (deps.from_bits bits) cert_auth_extension_sig_invalid
    (hash, bytes) ← split_to bytes 32
    sig ← ok_or (deps.from_slice bytes) extension_impl_error
    if any_verifies verifiers cert_type hash challenge sig
        then ok server_verified
        else err cert_auth_extension_sig_invalid

  unfoldable pub read_challenge :
      Option SigningKey → Payload → Outcome (CertAuthProtocolExtension × CertBuilder)
  read_challenge signer bytes = do
    (flag, bytes) ← get_u8 bytes
    (bits, bytes) ← get_u8 bytes
    cert_types ← ok_or (deps.from_bits bits) cert_auth_extension_cert_type_invalid
    ok (client_received, client_after_challenge signer cert_types bytes (not (flag == 0)))

  unfoldable pub cert_build_from_bytes :
      CertBuilder → Payload → Outcome CertAuthProtocolExtension × CertBuilder
  unfolding check_answer read_challenge
  cert_build_from_bytes (server_after_challenge verifiers challenge required) bytes =
      (check_answer verifiers challenge bytes, server_after_challenge verifiers challenge required)
  cert_build_from_bytes (client_before_challenge signer) bytes =
      on_ok (client_before_challenge signer) (read_challenge signer bytes)
  cert_build_from_bytes (client_after_challenge signer cert_types challenge required) bytes = (
    err extension_impl_not_supported,
    client_after_challenge signer cert_types challenge required,
  )
  cert_build_from_bytes (server_before_challenge verifiers required) bytes =
      (err extension_impl_not_supported, server_before_challenge verifiers required)
