-- ===== src/Packet/Info/Frames.antt =====
-- Reading the INFO packet that a peer encoded.
use epoxy_tls.Base.{
  ℕ, zero, suc, ◌%◌, ◌/◌, ◌≤◌, ◌≡◌, refl, ◌∙◌, arith, List, [], ◌∷◌, ◌++◌, append_assoc, append-nil,
  length, length-append, take-length_append, drop-length_append, Outcome, ok, err, ◌>>=◌, All,
  WispVersion, wisp_version, Role, incompatible_protocol_version, if◌then◌else◌, ◌==◌,
}
use epoxy_tls.Bytes.{Buf, Payload, u32_le, u32_be, u32_le_digits, IsU32}
use epoxy_tls.Extension.Cert.{CertDeps}
use epoxy_tls.Extension.Any.{AnyProtocolExtension, get_id, extension_encode, extension_encode_into}
use epoxy_tls.Packet.Info.{
  InfoPacket, info, Builders, encode_extensions, info_encode, read_extension, read_extensions,
  info_decode, maybe_info_decode,
}

-- An extension on the wire: its identifier and its bytes.
abbrev pub Chunk : Type 0
Chunk = ℕ × Payload

abbrev pub frames : List Chunk → List ℕ
frames [] = []
frames ((id, bytes) ∷ cs) = id ∷ (u32_le (length bytes) ++ (bytes ++ frames cs))

abbrev pub IsChunk : Chunk → Type 0
IsChunk c = IsU32 (length c.1)

-- The header of an INFO packet, its version and its chunks.
abbrev pub info_frame : WispVersion → List Chunk → List ℕ
info_frame v cs = 0x05 ∷ (u32_be 0 ++ (v.major ∷ v.minor ∷ frames cs))

module _ ⦃buf : Buf⦄ where
  -- The chunks that a list of extensions is written as.
  abbrev pub Encodes : List AnyProtocolExtension → List Chunk → Type 0
  Encodes [] [] = Unit
  Encodes [] (c ∷ cs) = ⊥
  Encodes (e ∷ es) [] = ⊥
  Encodes (e ∷ es) (c ∷ cs) = (get_id e ≡ c.0) × (extension_encode e ≡ ok c.1) × Encodes es cs

  pub encode_extensions-frames :
      (es : List AnyProtocolExtension) (cs : List Chunk) (p : Payload)
      → Encodes es cs
      → All IsChunk cs
      → encode_extensions es p ≡ ok (p ++ frames cs)
  unfolding encode_extensions extension_encode_into
  encode_extensions-frames [] [] p h f = simp append-nil
  encode_extensions-frames [] (c ∷ cs) p h f = absurd h
  encode_extensions-frames (e ∷ es) [] p h f = absurd h
  encode_extensions-frames (e ∷ es) ((id, bytes) ∷ cs) p (hid, henc, hrest) f =
      let small : length bytes % 4294967296 ≡ length bytes = omega arith in
      rw
        (
          henc,
          hid,
          small,
          buf.put_u8_lem p id,
          buf.put_u32_le_lem (p ++ (id ∷ [])) (length bytes),
          buf.extend_from_slice_lem ((p ++ (id ∷ [])) ++ u32_le (length bytes)) bytes,
        )
        (encode_extensions-frames es cs _ hrest f.1 ∙ simp append_assoc)

module _ ⦃buf : Buf⦄ ⦃deps : CertDeps⦄ where
  -- The extensions of a packet, one after the other.
  abbrev pub read_chunks :
      Builders → List Chunk → Role → Outcome (List AnyProtocolExtension × Builders)
  read_chunks builders [] role = ok ([], builders)
  read_chunks builders ((id, bytes) ∷ cs) role = do
    (es, builders) ← read_extension builders id bytes role
    (later, builders) ← read_chunks builders cs role
    ok (es ++ later, builders)

  -- One round on a chunk that is there in full.
  read_extensions-chunk :
      (fuel id : ℕ) (bytes rest : Payload) (builders : Builders) (role : Role)
      → IsU32 (length bytes)
      → read_extensions (suc fuel) builders (id ∷ (u32_le (length bytes) ++ (bytes ++ rest))) role
        ≡ (read_extension builders id bytes role >>= λ r.
            read_extensions fuel r.1 rest role >>= λ s. ok (r.0 ++ s.0, s.1))
  unfolding read_extensions
  read_extensions-chunk fuel id bytes rest builders role h = ground (
    arith,
    buf.get_u8_lem id (u32_le (length bytes) ++ (bytes ++ rest)),
    buf.get_u32_le_lem (length bytes % 256) (length bytes / 256 % 256) (length bytes / 65536 % 256)
        (length bytes / 16777216 % 256) (bytes ++ rest),
    u32_le_digits (length bytes),
    length-append bytes rest,
    buf.split_to_lem (bytes ++ rest) (length bytes),
    take-length_append bytes rest,
    drop-length_append bytes rest,
  )

  pub read_extensions-frames :
      (cs : List Chunk) (fuel : ℕ) (builders : Builders) (role : Role)
      → All IsChunk cs
      → length (frames cs) ≤ fuel
      → read_extensions fuel builders (frames cs) role ≡ read_chunks builders cs role
  read_extensions-frames [] zero builders role f h = unfold read_extensions in refl
  read_extensions-frames [] (suc fuel) builders role f h = unfold read_extensions in refl
  read_extensions-frames ((id, bytes) ∷ cs) zero builders role f h = absurd (omega arith)
  read_extensions-frames ((id, bytes) ∷ cs) (suc fuel) builders role f h =
      let later : (b : Builders) → read_extensions fuel b (frames cs) role ≡ read_chunks b cs role =
        λ b.
          read_extensions-frames cs fuel b role f.1
            (omega (arith, length-append bytes (frames cs))) in
      rw (read_extensions-chunk fuel id bytes (frames cs) builders role f.0) (simp later)

  info_encode-frame :
      (i : InfoPacket) (cs : List Chunk)
      → Encodes i.extensions cs
      → All IsChunk cs
      → info_encode i ≡ ok (info_frame i.version cs)
  unfolding info_encode
  info_encode-frame i cs h f =
      encode_extensions-frames i.extensions cs _ h f
      ∙ simp (buf.put_u8_lem, buf.put_u32_lem, append_assoc)

  info_decode-frame :
      (v : WispVersion) (cs : List Chunk) (builders : Builders) (role : Role)
      → All IsChunk cs
      → info_decode (v.major ∷ v.minor ∷ frames cs) builders role ≡ (
          if v.major == wisp_version.major
          then (read_chunks builders cs role >>= λ r.
              ok (record { version = v; extensions = r.0 }, r.1))
          else err (incompatible_protocol_version v wisp_version))
  unfolding info_decode
  info_decode-frame v cs builders role f = ground (
    arith,
    buf.get_u8_lem v.major (v.minor ∷ frames cs),
    buf.get_u8_lem v.minor (frames cs),
    read_extensions-frames cs (length (frames cs)) builders role f (omega arith),
  )

  maybe_info_decode-header :
      (p : Payload) (builders : Builders) (role : Role)
      → maybe_info_decode (0x05 ∷ (u32_be 0 ++ p)) builders role
        ≡ (info_decode p builders role >>= λ r. ok (info r.0, r.1))
  unfolding maybe_info_decode
  maybe_info_decode-header p builders role =
      ground (arith, buf.get_u8_lem 0x05 (u32_be 0 ++ p), buf.get_u32_le_lem 0 0 0 0 p)

  -- What a peer that speaks this major version reads from an INFO packet is what its builders make,
  -- in order, of the extensions that were encoded; another major version is an error.
  pub maybe_info_decode-encode :
      (i : InfoPacket) (cs : List Chunk) (builders : Builders) (role : Role) (sent : Payload)
      → Encodes i.extensions cs
      → All IsChunk cs
      → info_encode i ≡ ok sent
      → maybe_info_decode sent builders role ≡ (
          if i.version.major == wisp_version.major
          then (read_chunks builders cs role >>= λ r.
              ok (info (record { version = i.version; extensions = r.0 }), r.1))
          else err (incompatible_protocol_version i.version wisp_version))
  maybe_info_decode-encode i cs builders role sent h f e =
      let layout : info_frame i.version cs ≡ sent = cc (info_encode-frame i cs h f) in
      rw
        (
          ← layout,
          maybe_info_decode-header _ builders role,
          info_decode-frame i.version cs builders role f,
        )
        (ground arith)
