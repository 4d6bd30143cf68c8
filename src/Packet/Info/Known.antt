-- ===== src/Packet/Info/Known.antt =====
-- wisp/src/packet.rs: what the server's builders make of an INFO packet.
use epoxy_tls.Base.{
  ℕ, zero, suc, ◌==◌, if◌then◌else◌, Bool, true, false, List, [], ◌∷◌, length, ltb, Option, none,
  some, Outcome, err, All, All-append, Role, not, wisp_version, packet_too_small,
  incompatible_protocol_version, Gives, if-Gives, bind-Gives, then-Gives,
}
use epoxy_tls.Bytes.{Buf, Payload, get_u8, get_u32_le, split_to}
use epoxy_tls.Extension.Password.{Users}
use epoxy_tls.Extension.Cert.{CertDeps}
use epoxy_tls.Extension.Any.{AnyProtocolExtension, AnyProtocolExtensionBuilder, builder_get_id}
use epoxy_tls.Extension.Known.{
  IsKnown, IsGuarded, build_from_bytes-IsKnown, build_from_bytes-IsGuarded,
}
use epoxy_tls.Packet.Info.{
  Builders, MaybeInfoPacket, info, packet, build_found, behind, found, read_extension,
  read_extensions, info_decode, maybe_info_decode, InfoPacket, packet_type_decode,
}

module _ (users : Users) where
  -- What a step of the reading loop gives.
  abbrev pub AreKnown : List AnyProtocolExtension × Builders → Type 0
  AreKnown r = All (IsKnown users) r.0 × All (IsGuarded users) r.1

  abbrev IsFound : Option (Outcome AnyProtocolExtension × Builders) → Type 0
  IsFound none = Unit
  IsFound (some (r, bs)) = Gives (IsKnown users) r × All (IsGuarded users) bs

  abbrev pub IsReceived : MaybeInfoPacket → Type 0
  IsReceived (info i) = All (IsKnown users) i.extensions
  IsReceived (packet p) = Unit

  behind-IsFound :
      (b : AnyProtocolExtensionBuilder) (o : Option (Outcome AnyProtocolExtension × Builders))
      → IsGuarded users b
      → IsFound o
      → IsFound (behind b o)
  behind-IsFound b none hb h = tt
  behind-IsFound b (some (r, bs)) hb (h, hs) = (h, (hb, hs))

  if-IsFound :
      (c : Bool) (o o' : Option (Outcome AnyProtocolExtension × Builders))
      → IsFound o
      → IsFound o'
      → IsFound (if c then o else o')
  if-IsFound true o o' h h' = h
  if-IsFound false o o' h h' = h'

  found-AreKnown :
      (builders : Builders) (o : Option (Outcome AnyProtocolExtension × Builders))
      → All (IsGuarded users) builders
      → IsFound o
      → Gives AreKnown (found builders o)
  found-AreKnown builders none hb h = (tt, hb)
  found-AreKnown builders (some (m, bs)) hb (h, hs) =
      bind-Gives (IsKnown users) AreKnown m _ h λ e k. ((k, tt), hs)

module _ ⦃buf : Buf⦄ ⦃deps : CertDeps⦄ (users : Users) where
  build_found-IsFound :
      (builders : Builders) (id : ℕ) (bytes : Payload) (role : Role)
      → All (IsGuarded users) builders
      → IsFound users (build_found builders id bytes role)
  unfolding build_found
  build_found-IsFound [] id bytes role h = tt
  build_found-IsFound (b ∷ bs) id bytes role (h, hs) =
      if-IsFound users (builder_get_id b == id) _ _
        (
          build_from_bytes-IsKnown users b bytes role h,
          (build_from_bytes-IsGuarded users b bytes role h, hs),
        )
        (behind-IsFound users b _ h (build_found-IsFound bs id bytes role hs))

  read_extension-AreKnown :
      (builders : Builders) (id : ℕ) (bytes : Payload) (role : Role)
      → All (IsGuarded users) builders
      → Gives (AreKnown users) (read_extension builders id bytes role)
  unfolding read_extension
  read_extension-AreKnown builders id bytes role h =
      found-AreKnown users builders _ h (build_found-IsFound builders id bytes role h)

  read_extensions-AreKnown :
      (fuel : ℕ) (builders : Builders) (p : Payload) (role : Role)
      → All (IsGuarded users) builders
      → Gives (AreKnown users) (read_extensions fuel builders p role)
  unfolding read_extensions
  read_extensions-AreKnown zero builders p role h =
      if-Gives (AreKnown users) (ltb (length p) 5) _ _ (tt, h) tt
  read_extensions-AreKnown (suc fuel) builders p role h =
      let K = AreKnown users in
      if-Gives K (ltb (length p) 5) _ _ (tt, h)
        (then-Gives K (get_u8 p) _ λ a. then-Gives K (get_u32_le a.1) _ λ b.
          then-Gives K (if ltb (length b.1) b.0 then err packet_too_small else split_to b.1 b.0) _
            λ c.
              bind-Gives K K (read_extension builders a.0 c.0 role) _
                (read_extension-AreKnown builders a.0 c.0 role h)
                λ r k.
                  bind-Gives K K (read_extensions fuel r.1 c.1 role) _
                    (read_extensions-AreKnown fuel r.1 c.1 role k.1)
                    λ t l. (All-append (IsKnown users) r.0 t.0 k.0 l.0, l.1))

  info_decode-AreKnown :
      (p : Payload) (builders : Builders) (role : Role)
      → All (IsGuarded users) builders
      → Gives (λ r. AreKnown users (r.0.extensions, r.1)) (info_decode p builders role)
  unfolding info_decode
  info_decode-AreKnown p builders role h =
      let K : InfoPacket × Builders → Type 0 = λ r. AreKnown users (r.0.extensions, r.1) in
      if-Gives K (ltb (length p) 2) _ _ tt (
        then-Gives K (get_u8 p) _ λ a. then-Gives K (get_u8 a.1) _ λ b.
          bind-Gives (AreKnown users) K
            (if not (a.0 == wisp_version.major)
              then err
                  (incompatible_protocol_version (record { major = a.0; minor = b.0 }) wisp_version)
              else read_extensions (length b.1) builders b.1 role)
            _
            (if-Gives (AreKnown users) (not (a.0 == wisp_version.major)) _ _ tt
              (read_extensions-AreKnown (length b.1) builders b.1 role h))
            λ r k. k)

  -- The peer's first frame, read by a server's builders that check passwords against the table,
  -- holds only password extensions of users that the table knows.
  pub maybe_info_decode-IsReceived :
      (p : Payload) (builders : Builders) (role : Role)
      → All (IsGuarded users) builders
      → Gives (λ r. IsReceived users r.0) (maybe_info_decode p builders role)
  unfolding maybe_info_decode
  maybe_info_decode-IsReceived p builders role h =
      let K : MaybeInfoPacket × Builders → Type 0 = λ r. IsReceived users r.0 in
      if-Gives K (ltb (length p) 5) _ _ tt (
        then-Gives K (get_u8 p) _ λ a. then-Gives K (get_u32_le a.1) _ λ b.
          if-Gives K (a.0 == 5) _ _
            (bind-Gives (λ r. AreKnown users (r.0.extensions, r.1)) K
              (info_decode b.1 builders role) _ (info_decode-AreKnown b.1 builders role h)
              λ r k. k.0)
            (then-Gives K (packet_type_decode b.1 a.0) _ λ t. tt))
