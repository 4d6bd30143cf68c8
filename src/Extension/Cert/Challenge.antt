-- ===== src/Extension/Cert/Challenge.antt =====
-- The exchange of a challenge and its signature.
use mathlib.Core.List.{Memᴰ}
use epoxy_tls.Base.{
  ℕ, refl, ap, sym, ◌∙◌, ◌≡◌, Bool, true, List, [], ◌∷◌, ◌++◌, append_assoc, length, take, drop,
  length-append, take-length_append, drop-length_append, list_eq, list_eq→eq, bind-ok, ok_or,
  if◌then◌else◌, ◌==◌, ◌&&◌, Bool-cases, inl, inr, arith, Option, some, ok, err,
  cert_auth_extension_sig_invalid, Outcome, list_eq_refl, ◌⊎◌,
}
use epoxy_tls.Bytes.{Buf, Payload, get_u8, split_to}
use epoxy_tls.Extension.Cert.{
  CertDeps, ed25519, VerifyKey, SigningKey, CertAuthProtocolExtension, server_challenge,
  client_answer, client_received, server_verified, server_after_challenge, client_before_challenge,
  client_after_challenge, any_verifies, cert_encode, cert_build_to_extension, cert_build_from_bytes,
  check_answer, u8_of,
}

any_verifies→Mem :
    (vs : List VerifyKey) (cert_type : ℕ) (hash : List ℕ) (challenge sig : Payload)
    → any_verifies vs cert_type hash challenge sig ≡ true
    → (v : VerifyKey) × Memᴰ v vs
      × (v.cert_type ≡ cert_type)
      × (v.hash ≡ hash)
      × (v.verify challenge sig ≡ true)
unfolding any_verifies
any_verifies→Mem [] cert_type hash challenge sig h = cc
any_verifies→Mem (x ∷ xs) cert_type hash challenge sig h =
    elim (Bool-cases (x.cert_type == cert_type && list_eq x.hash hash && x.verify challenge sig)) [
      | inl hit ↦
          (x, Memᴰ.head refl, ground arith, list_eq→eq x.hash hash (ground arith), ground arith)
      | inr miss ↦
          let (v, m, t, e, s) = any_verifies→Mem xs cert_type hash challenge sig (ground arith) in
          (v, Memᴰ.tail m, t, e, s)
    ]

-- A verifier for this key hash accepts the signature of the challenge.
abbrev pub Accepts : List VerifyKey → List ℕ → Payload → Payload → Type 0
Accepts vs hash challenge sig =
    (v : VerifyKey) × Memᴰ v vs
    × (v.cert_type ≡ ed25519)
    × (v.hash ≡ hash)
    × (v.verify challenge sig ≡ true)

Accepts→any_verifies :
    (vs : List VerifyKey) (hash : List ℕ) (challenge sig : Payload) (v : VerifyKey)
    → Memᴰ v vs
    → v.cert_type ≡ ed25519
    → v.hash ≡ hash
    → v.verify challenge sig ≡ true
    → any_verifies vs ed25519 hash challenge sig ≡ true
unfolding any_verifies
Accepts→any_verifies [] hash challenge sig v m t h s = elim m [ ]
Accepts→any_verifies (x ∷ xs) hash challenge sig v (Memᴰ.head e) t h s =
    let same : (v.cert_type == ed25519 && list_eq v.hash hash && v.verify challenge sig) ≡ true =
      rw (t, h, s, list_eq_refl hash) refl in
    let hit : (x.cert_type == ed25519 && list_eq x.hash hash && x.verify challenge sig) ≡ true =
      ap
        (λ (y : VerifyKey). y.cert_type == ed25519 && list_eq y.hash hash && y.verify challenge sig)
        (sym e)
      ∙ same in
    rw hit refl
Accepts→any_verifies (x ∷ xs) hash challenge sig v (Memᴰ.tail m) t h s =
    let later = Accepts→any_verifies xs hash challenge sig v m t h s in ground arith

-- The verdict on an answer.
verdict :
    (vs : List VerifyKey) (hash : List ℕ) (challenge sig : Payload)
    → let r : Outcome CertAuthProtocolExtension =
        if any_verifies vs ed25519 hash challenge sig
        then ok server_verified
        else err cert_auth_extension_sig_invalid in
      (Accepts vs hash challenge sig × (r ≡ ok server_verified))
      ⊎ (¬ Accepts vs hash challenge sig) × (r ≡ err cert_auth_extension_sig_invalid)
verdict vs hash challenge sig = elim (Bool-cases (any_verifies vs ed25519 hash challenge sig)) [
  | inl right ↦ inl (any_verifies→Mem vs ed25519 hash challenge sig right, rw right refl)
  | inr wrong ↦ inr (
    λ (v, m, t, h, s).
        let right = Accepts→any_verifies vs hash challenge sig v m t h s in cc (right, wrong),
    rw wrong refl,
  )
]

-- The last step of `check_answer`.
accepted :
    (vs : List VerifyKey) (challenge : Payload) (cert_type : ℕ) (hash : List ℕ) (sig : Payload)
    (e : CertAuthProtocolExtension)
    → (if any_verifies vs cert_type hash challenge sig
        then ok server_verified
        else err cert_auth_extension_sig_invalid)
      ≡ ok e
    → (v : VerifyKey) × (sig' : Payload) × Memᴰ v vs
      × (v.verify challenge sig' ≡ true)
      × (e ≡ server_verified)
accepted vs challenge cert_type hash sig e h =
    let valid : any_verifies vs cert_type hash challenge sig ≡ true = ground arith in
    let (v, m, _, _, s) = any_verifies→Mem vs cert_type hash challenge sig valid in
    (v, sig, m, s, ground arith)

module _ ⦃buf : Buf⦄ ⦃deps : CertDeps⦄ where
  cert_encode-challenge :
      (types : ℕ) (challenge : Payload) (required : Bool)
      → cert_encode (server_challenge types challenge required) ≡ u8_of required ∷ types ∷ challenge
  unfolding cert_encode
  cert_encode-challenge types challenge required = simp (buf.put_u8_lem, buf.extend_from_slice_lem)

  cert_encode-answer :
      (types : ℕ) (hash : List ℕ) (signature : Payload)
      → cert_encode (client_answer types hash signature) ≡ types ∷ (hash ++ signature)
  unfolding cert_encode
  cert_encode-answer types hash signature =
      simp (buf.put_u8_lem, buf.extend_from_slice_lem, append_assoc)

  -- A client that reads the server's challenge learns it, the certificate types and whether
  -- authentication is required, and keeps its key.
  pub cert_challenge_received :
      (required : Bool) (challenge : Payload) (signer : Option SigningKey)
      → cert_build_from_bytes
          (client_before_challenge signer)
          (cert_encode (server_challenge ed25519 challenge required))
        ≡ (ok client_received, client_after_challenge signer ed25519 challenge required)
  unfolding cert_build_from_bytes
  cert_challenge_received required challenge signer =
      rw (cert_encode-challenge ed25519 challenge required) (
        ground (
          arith,
          buf.get_u8_lem (u8_of required) (ed25519 ∷ challenge),
          buf.get_u8_lem ed25519 challenge,
          deps.from_bits_known ed25519,
        ))

  check_answer-encoded :
      (vs : List VerifyKey) (challenge : Payload) (hash : List ℕ) (sig : Payload)
      → length hash ≡ 32
      → length sig ≡ 64
      → check_answer vs challenge (ed25519 ∷ (hash ++ sig)) ≡ (
          if any_verifies vs ed25519 hash challenge sig
          then ok server_verified
          else err cert_auth_extension_sig_invalid)
  unfolding check_answer
  check_answer-encoded vs challenge hash sig hh hs =
      let front : take 32 (hash ++ sig) ≡ hash = rw hh at (take-length_append hash sig) in
      let back : drop 32 (hash ++ sig) ≡ sig = rw hh at (drop-length_append hash sig) in
      ground (
        arith,
        buf.get_u8_lem ed25519 (hash ++ sig),
        deps.from_bits_known ed25519,
        buf.split_to_lem (hash ++ sig) 32,
        length-append hash sig,
        deps.from_slice_lem sig,
      )

  -- A client with a key signs the challenge that it received. If one of the server's verifiers is
  -- for this type and key hash and accepts the signature of the challenge, the server accepts the
  -- answer; if none is, it answers `CertAuthExtensionSigInvalid`.
  pub cert_login :
      (vs : List VerifyKey) (required : Bool) (challenge sig : Payload) (key : SigningKey)
      (random : Option Payload)
      → key.cert_type ≡ ed25519
      → length key.hash ≡ 32
      → length sig ≡ 64
      → key.try_sign challenge ≡ some sig
      → let answer = client_answer ed25519 key.hash sig in
        let r =
          (cert_build_from_bytes
            (server_after_challenge vs challenge required)
            (cert_encode answer)).0 in
        ((cert_build_to_extension
            (client_after_challenge (some key) ed25519 challenge required)
            random).0
          ≡ ok answer)
        × ((Accepts vs key.hash challenge sig × (r ≡ ok server_verified))
            ⊎ (¬ Accepts vs key.hash challenge sig) × (r ≡ err cert_auth_extension_sig_invalid))
  unfolding cert_build_to_extension cert_build_from_bytes
  cert_login vs required challenge sig key random ht hh hs hsign = (
    ground (arith, deps.iter_all),
    rw
        (
          cert_encode-answer ed25519 key.hash sig,
          check_answer-encoded vs challenge key.hash sig hh hs,
        )
        (verdict vs key.hash challenge sig),
  )

  -- Whatever bytes arrive, the server accepts them only if one of its verifiers accepted, for the
  -- challenge that it sent, a signature under that verifier's type and hash.
  pub cert_accepts_verified :
      (vs : List VerifyKey) (challenge : Payload) (required : Bool) (bytes : Payload)
      (e : CertAuthProtocolExtension)
      → (cert_build_from_bytes (server_after_challenge vs challenge required) bytes).0 ≡ ok e
      → (v : VerifyKey) × (sig : Payload) × Memᴰ v vs
        × (v.verify challenge sig ≡ true)
        × (e ≡ server_verified)
  unfolding cert_build_from_bytes check_answer
  cert_accepts_verified vs challenge required bytes e h =
      let (head, _, h₁) = bind-ok (get_u8 bytes) _ h in
      let (cert_type, _, h₂) = bind-ok (ok_or (deps.from_bits head.0) _) _ h₁ in
      let (split, _, h₃) = bind-ok (split_to head.1 32) _ h₂ in
      let (sig, _, h₄) = bind-ok (ok_or (deps.from_slice split.1) _) _ h₃ in
      accepted vs challenge cert_type split.0 sig e h₄
