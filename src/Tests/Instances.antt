-- ===== src/Tests/Instances.antt =====
-- Functions that meet the interfaces of the crates that the program uses.
use epoxy_tls.Base.{
  ℕ, ◌+◌, ◌*◌, ◌≤◌, ◌<◌, ◌≡◌, refl, arith, ◌&&◌, leb, ◌==◌, if◌then◌else◌, List, [], ◌∷◌, ◌++◌,
  length, take, drop, Option, none, some,
}
use epoxy_tls.Bytes.{Payload, Buf, u16_le, u32_le, u32_be}
use epoxy_tls.Extension.Cert.{CertDeps}
use epoxy_tls.Stream.Channel.{Channel, Flume, has_room, taken}

abbrev pub read_u8 : Payload → Option (ℕ × Payload)
read_u8 [] = none
read_u8 (a ∷ r) = some (a, r)

abbrev pub read_u16_le : Payload → Option (ℕ × Payload)
read_u16_le (a ∷ b ∷ r) = some (a + 256 * b, r)
read_u16_le _ = none

abbrev pub read_u32_le : Payload → Option (ℕ × Payload)
read_u32_le (a ∷ b ∷ c ∷ d ∷ r) = some (a + 256 * b + 65536 * c + 16777216 * d, r)
read_u32_le _ = none

abbrev pub split_at : Payload → ℕ → Option (Payload × Payload)
split_at p n = if leb n (length p) then some (take n p, drop n p) else none

pub split_at-le : (p : Payload) (n : ℕ) → n ≤ length p → split_at p n ≡ some (take n p, drop n p)
split_at-le p n h = ground arith

pub split_at-lt : (p : Payload) (n : ℕ) → length p < n → split_at p n ≡ none
split_at-lt p n h = ground arith

instance abbrev pub list_buf : Buf
list_buf = record {
  put_u8 = λ p n. p ++ (n ∷ []);
  put_u16_le = λ p n. p ++ u16_le n;
  put_u32_le = λ p n. p ++ u32_le n;
  put_u32 = λ p n. p ++ u32_be n;
  extend_from_slice = λ p s. p ++ s;
  get_u8 = read_u8;
  get_u16_le = read_u16_le;
  get_u32_le = read_u32_le;
  split_to = split_at;
  put_u8_lem = λ p n. refl;
  put_u16_le_lem = λ p n. refl;
  put_u32_le_lem = λ p n. refl;
  put_u32_lem = λ p n. refl;
  extend_from_slice_lem = λ p s. refl;
  get_u8_lem = λ a r. refl;
  get_u8_empty = refl;
  get_u16_le_lem = λ a b r. refl;
  get_u32_le_lem = λ a b c d r. refl;
  split_to_lem = split_at-le;
  split_to_past_end = split_at-lt;
}

abbrev pub flag_bits : ℕ → Option ℕ
flag_bits b = if leb b 1 then some b else none

abbrev pub flags_of : ℕ → List ℕ
flags_of b = if b == 1 then 1 ∷ [] else []

abbrev pub signature_of : Payload → Option Payload
signature_of s = if length s == 64 then some s else none

pub flag_bits-known : (b : ℕ) → b ≤ 1 → flag_bits b ≡ some b
flag_bits-known b h = ground arith

pub flag_bits-unknown : (b : ℕ) → 1 < b → flag_bits b ≡ none
flag_bits-unknown b h = ground arith

pub signature_of-length : (s : Payload) → length s ≡ 64 → signature_of s ≡ some s
signature_of-length s h = ground arith

instance abbrev pub plain_certs : CertDeps
plain_certs = record {
  from_bits = flag_bits;
  iter = flags_of;
  from_slice = signature_of;
  from_bits_known = flag_bits-known;
  from_bits_unknown = flag_bits-unknown;
  iter_all = refl;
  iter_empty = refl;
  from_slice_lem = signature_of-length;
}

abbrev pub queue_send : Channel → Payload → Option Channel
queue_send c p =
    if c.has_receiver && has_room c.bound (length c.queue)
    then some (record c { queue = c.queue ++ (p ∷ []) })
    else none

pub queue_send-keeps :
    (c c' : Channel) (p : Payload) → queue_send c p ≡ some c' → c'.has_sender ≡ c.has_sender
queue_send-keeps c c' p h = ground arith

instance abbrev pub list_flume : Flume
list_flume = record {
  try_send = queue_send;
  try_send_lem = λ c p h. refl;
  try_send_keeps_sender = queue_send-keeps;
  recv = λ c. taken c c.queue;
  recv_lem = λ c. refl;
}
