-- ===== src/Packet/Info/Ends.antt =====
-- The loop over the extensions ends on every input.
use epoxy_tls.Base.{
  ℕ, zero, suc, ◌+◌, ◌≤◌, ◌≡◌, ◌≢◌, refl, arith, [], ◌∷◌, ◌++◌, ◌*◌, length, length-drop, Option,
  none, some, Outcome, ok, err, panic, diverge, ok_or, or_panic, ◌>>=◌, Role, server, client,
  Bool-cases, inl, inr, ltb, not, ◌==◌, wisp_version, incompatible_protocol_version,
  packet_too_small, if◌then◌else◌,
}
use epoxy_tls.Bytes.{Buf, Payload, get_u8, split_to}
use epoxy_tls.Bytes.Utf8.{Text, from_utf8}
use epoxy_tls.Extension.Motd.{MotdBuilder, motd_build_from_bytes}
use epoxy_tls.Extension.Password.{
  PasswordBuilder, server_before, server_after, client_before, client_after, read_creds, Users,
  check_creds, password_build_from_bytes,
}
use epoxy_tls.Extension.Cert.{
  CertDeps, CertBuilder, server_before_challenge, server_after_challenge, client_before_challenge,
  client_after_challenge, check_answer, read_challenge, cert_build_from_bytes,
}
use epoxy_tls.Extension.Any.{
  udp_builder, motd_builder, password_builder, cert_builder, build_from_bytes,
  AnyProtocolExtensionBuilder,
}
use epoxy_tls.Packet.Info.{Builders, build_found, read_extension, read_extensions, info_decode}

-- A step of a chain that diverges is one of its parts.
bind-ne-diverge {ℓ κ} :
    {A : Type ℓ} {B : Type κ} (m : Outcome A) (f : A → Outcome B)
    → m ≢ diverge
    → ((a : A) → m ≡ ok a → f a ≢ diverge)
    → (m >>= f) ≢ diverge
bind-ne-diverge (ok a) f hm hf = hf a refl
bind-ne-diverge (err e) f hm hf = λ h. cc
bind-ne-diverge panic f hm hf = λ h. cc
bind-ne-diverge diverge f hm hf = λ h. hm refl

or_panic-ne-diverge {ℓ} : {A : Type ℓ} (o : Option A) → or_panic o ≢ diverge
or_panic-ne-diverge none = λ h. cc
or_panic-ne-diverge (some a) = λ h. cc

ok_or-ne-diverge {ℓ} : {A : Type ℓ} (o : Option A) (e : _) → ok_or o e ≢ diverge
ok_or-ne-diverge none e = λ h. cc
ok_or-ne-diverge (some a) e = λ h. cc

from_utf8-ne-diverge : (t : Text) → from_utf8 t ≢ diverge
unfolding from_utf8
from_utf8-ne-diverge t = ground arith

motd-ne-diverge :
    (b : MotdBuilder) (p : Payload) (role : Role) → motd_build_from_bytes b p role ≢ diverge
unfolding motd_build_from_bytes
motd-ne-diverge b p server = λ h. cc
motd-ne-diverge b p client = ground (arith, from_utf8-ne-diverge p)

check_creds-ne-diverge :
    (users : Users) (required : _) (creds : Outcome (Text × Text))
    → creds ≢ diverge
    → (check_creds users required creds).0 ≢ diverge
check_creds-ne-diverge users required (ok (user, password)) h = ground arith
check_creds-ne-diverge users required (err e) h = λ x. cc
check_creds-ne-diverge users required panic h = λ x. cc
check_creds-ne-diverge users required diverge h = absurd (h refl)

module _ ⦃buf : Buf⦄ where
  read_creds-ne-diverge : (p : Payload) → read_creds p ≢ diverge
  unfolding read_creds
  read_creds-ne-diverge p = bind-ne-diverge (get_u8 p) _ (or_panic-ne-diverge (buf.get_u8 p)) λ a _.
      bind-ne-diverge (split_to a.1 a.0) _ (or_panic-ne-diverge (buf.split_to a.1 a.0)) λ b _.
        bind-ne-diverge (from_utf8 b.0) _ (from_utf8-ne-diverge b.0)
          λ c _. bind-ne-diverge (from_utf8 b.1) _ (from_utf8-ne-diverge b.1) λ d _ h. cc

  password-ne-diverge :
      (b : PasswordBuilder) (p : Payload) → (password_build_from_bytes b p).0 ≢ diverge
  unfolding password_build_from_bytes
  password-ne-diverge (server_before users required) p =
      check_creds-ne-diverge users required (read_creds p) (read_creds-ne-diverge p)
  password-ne-diverge (server_after users required) p = λ h. cc
  password-ne-diverge (client_before creds) p = ground (arith, or_panic-ne-diverge (buf.get_u8 p))
  password-ne-diverge (client_after creds required) p = λ h. cc

module _ ⦃buf : Buf⦄ ⦃deps : CertDeps⦄ where
  cert-ne-diverge : (b : CertBuilder) (p : Payload) → (cert_build_from_bytes b p).0 ≢ diverge
  unfolding cert_build_from_bytes check_answer read_challenge
  cert-ne-diverge (server_before_challenge verifiers required) p = λ h. cc
  cert-ne-diverge (server_after_challenge verifiers challenge required) p = ground arith
  cert-ne-diverge (client_before_challenge signer) p = ground arith
  cert-ne-diverge (client_after_challenge signer cert_types challenge required) p = λ h. cc

  build_from_bytes-ne-diverge :
      (b : AnyProtocolExtensionBuilder) (p : Payload) (role : Role)
      → (build_from_bytes b p role).0 ≢ diverge
  unfolding build_from_bytes
  build_from_bytes-ne-diverge udp_builder p role = λ h. cc
  build_from_bytes-ne-diverge (motd_builder b) p role = ground (arith, motd-ne-diverge b p role)
  build_from_bytes-ne-diverge (password_builder b) p role = ground (arith, password-ne-diverge b p)
  build_from_bytes-ne-diverge (cert_builder b) p role = ground (arith, cert-ne-diverge b p)

  read_extension-ne-diverge :
      (bs : Builders) (id : ℕ) (p : Payload) (role : Role) → read_extension bs id p role ≢ diverge
  unfolding read_extension build_found
  read_extension-ne-diverge [] id p role = λ h. cc
  read_extension-ne-diverge (b ∷ bs) id p role =
      ground (arith, build_from_bytes-ne-diverge b p role, read_extension-ne-diverge bs id p role)

  -- The bytes of one extension, and what follows them.
  abbrev cut : Payload → ℕ → Outcome (Payload × Payload)
  cut p n = if ltb (length p) n then err packet_too_small else split_to p n

  cut-ne-diverge : (p : Payload) (n : ℕ) → cut p n ≢ diverge
  cut-ne-diverge p n = ground (arith, or_panic-ne-diverge (buf.split_to p n))

  length-cut :
      (p : Payload) (n : ℕ) (s : Payload × Payload) → cut p n ≡ ok s → length s.1 ≤ length p
  length-cut p n s h = ground (arith, buf.split_to_lem p n, length-drop n p)

  -- A round whose header is there.
  read_extensions-header :
      (fuel x y z w v : ℕ) (r : Payload) (builders : Builders) (role : Role)
      → read_extensions (suc fuel) builders (x ∷ y ∷ z ∷ w ∷ v ∷ r) role ≡ (
          cut r (y + 256 * z + 65536 * w + 16777216 * v) >>= λ s.
          read_extension builders x s.0 role >>= λ t.
          read_extensions fuel t.1 s.1 role >>= λ u. ok (t.0 ++ u.0, u.1))
  unfolding read_extensions
  read_extensions-header fuel x y z w v r builders role =
      ground (arith, buf.get_u8_lem x (y ∷ z ∷ w ∷ v ∷ r), buf.get_u32_le_lem y z w v r)

  read_extensions-ne-diverge :
      (fuel : ℕ) (builders : Builders) (p : Payload) (role : Role)
      → length p ≤ fuel
      → read_extensions fuel builders p role ≢ diverge
  read_extensions-ne-diverge zero builders p role h = unfold read_extensions in ground arith
  read_extensions-ne-diverge (suc fuel) builders [] role h = unfold read_extensions in λ e. cc
  read_extensions-ne-diverge (suc fuel) builders (a ∷ []) role h = unfold read_extensions in λ e. cc
  read_extensions-ne-diverge (suc fuel) builders (a ∷ b ∷ []) role h =
      unfold read_extensions in λ e. cc
  read_extensions-ne-diverge (suc fuel) builders (a ∷ b ∷ c ∷ []) role h =
      unfold read_extensions in λ e. cc
  read_extensions-ne-diverge (suc fuel) builders (a ∷ b ∷ c ∷ d ∷ []) role h =
      unfold read_extensions in λ e. cc
  read_extensions-ne-diverge (suc fuel) builders (x ∷ y ∷ z ∷ w ∷ v ∷ r) role h =
      let n = y + 256 * z + 65536 * w + 16777216 * v in
      rw (read_extensions-header fuel x y z w v r builders role) (
        bind-ne-diverge (cut r n) _ (cut-ne-diverge r n) λ s e.
          bind-ne-diverge (read_extension builders x s.0 role) _
            (read_extension-ne-diverge builders x s.0 role)
            λ t _.
              bind-ne-diverge (read_extensions fuel t.1 s.1 role) _
                (read_extensions-ne-diverge fuel t.1 s.1 role (omega (arith, length-cut r n s e)))
                λ u _ q. cc)

  -- Reading an INFO packet ends on every input: the length of the packet bounds its rounds.
  pub info_decode-ne-diverge :
      (p : Payload) (builders : Builders) (role : Role) → info_decode p builders role ≢ diverge
  unfolding info_decode
  info_decode-ne-diverge p builders role = elim (Bool-cases (ltb (length p) 2)) [
    | inl short ↦ rw short (λ h. cc)
    | inr long ↦ rw long (
        bind-ne-diverge (get_u8 p) _ (or_panic-ne-diverge (buf.get_u8 p)) λ a _.
          bind-ne-diverge (get_u8 a.1) _ (or_panic-ne-diverge (buf.get_u8 a.1)) λ b _.
            bind-ne-diverge
              (if not (a.0 == wisp_version.major)
                then err (
                    incompatible_protocol_version (record { major = a.0; minor = b.0 })
                      wisp_version)
                else read_extensions (length b.1) builders b.1 role)
              _
              (ground
                (arith, read_extensions-ne-diverge (length b.1) builders b.1 role (omega arith)))
              λ c _ h. cc)
  ]
