-- ===== src/Server/Wispnet/Probe.antt =====
-- The answer to a client that asks which others there are.
use epoxy_tls.Base.{
  ℕ, ◌+◌, ◌*◌, ◌≡◌, sym, refl, arith, List, [], ◌∷◌, ◌++◌, append-nil, append_assoc, some, All, ok,
  if◌then◌else◌, Bool-cases, inl, inr, length, ◌<◌, ◌≢◌, err, packet_too_small, invalid_stream_id,
  none,
}
use epoxy_tls.Bytes.{Buf, Payload, IsU32, u32_le, u32_le_digits, put_u32_le, put_u8}
use epoxy_tls.Server.Wispnet.{
  WispnetServers, wispnet_id, put_public, check_probe, wispnet_handle_packet,
}

-- The numbers of the clients that are not private.
abbrev pub public_ids : {ClientMux : Type 0} → WispnetServers ClientMux → List ℕ
public_ids [] = []
public_ids ((net_id, client) ∷ clients) =
    if client.private then public_ids clients else net_id ∷ public_ids clients

-- A client's reading of the answer's body: one number after the other.
abbrev pub read_ids : Payload → List ℕ
read_ids (a ∷ b ∷ c ∷ d ∷ r) = (a + 256 * b + 65536 * c + 16777216 * d) ∷ read_ids r
read_ids _ = []

abbrev ids_bytes : List ℕ → Payload
ids_bytes [] = []
ids_bytes (n ∷ ns) = u32_le n ++ ids_bytes ns

read_ids-ids_bytes : (ns : List ℕ) → All IsU32 ns → read_ids (ids_bytes ns) ≡ ns
read_ids-ids_bytes [] h = refl
read_ids-ids_bytes (n ∷ ns) (h, hs) = rw (u32_le_digits n h, read_ids-ids_bytes ns hs) refl

module _ ⦃buf : Buf⦄ {ClientMux : Type 0} where
  put_public-ids_bytes :
      (servers : WispnetServers ClientMux) (out : Payload)
      → put_public servers out ≡ out ++ ids_bytes (public_ids servers)
  unfolding put_public
  put_public-ids_bytes [] out = sym (append-nil out)
  put_public-ids_bytes ((net_id, client) ∷ clients) out = elim (Bool-cases client.private) [
    | inl e ↦ rw (e, put_public-ids_bytes clients out) refl
    | inr e ↦
        rw
          (
            e,
            put_public-ids_bytes clients (put_u32_le out net_id),
            buf.put_u32_le_lem out net_id,
            append_assoc,
          )
          refl
  ]

  -- A probe whose body begins with the stream 0 is answered with one frame of the same type on
  -- stream 0, whose body lists the numbers of exactly the clients that are not private, each in four
  -- bytes. A body of fewer than four bytes, the empty one of a probe without a body included, gives
  -- `PacketTooSmall` and no answer; one that begins with another stream gives `InvalidStreamId`; and a
  -- packet of another type is not handled.
  pub wispnet_handle_packet_lem :
      (servers : WispnetServers ClientMux) (short rest other : Payload) (a b c d ty : ℕ)
      → All IsU32 (public_ids servers)
      → length short < 4
      → a + 256 * b + 65536 * c + 16777216 * d ≢ 0
      → ty ≢ wispnet_id
      → ((body : Payload) × (wispnet_handle_packet servers wispnet_id (0 ∷ 0 ∷ 0 ∷ 0 ∷ rest)
            ≡ ok (some (wispnet_id ∷ 0 ∷ 0 ∷ 0 ∷ 0 ∷ body)))
          × (read_ids body ≡ public_ids servers))
        × (wispnet_handle_packet servers wispnet_id short ≡ err packet_too_small)
        × (wispnet_handle_packet servers wispnet_id (a ∷ b ∷ c ∷ d ∷ rest)
            ≡ err (invalid_stream_id (a + 256 * b + 65536 * c + 16777216 * d)))
        × (wispnet_handle_packet servers ty other ≡ ok none)
  unfolding wispnet_handle_packet check_probe
  wispnet_handle_packet_lem servers short rest other a b c d ty h hs hn ht = (
    (
      ids_bytes (public_ids servers),
      rw
          (
            buf.get_u32_le_lem 0 0 0 0 rest,
            put_public-ids_bytes servers (put_u32_le (put_u8 [] wispnet_id) 0),
            buf.put_u8_lem [] wispnet_id,
            buf.put_u32_le_lem (wispnet_id ∷ []) 0,
          )
          (ground arith),
      read_ids-ids_bytes (public_ids servers) h,
    ),
    ground arith,
    ground (arith, buf.get_u32_le_lem a b c d rest),
    ground arith,
  )
