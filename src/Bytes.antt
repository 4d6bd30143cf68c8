-- ===== src/Bytes.antt =====
-- The calls of the `bytes` crate that wisp/src makes, as an interface. A `Payload` (`Bytes`) and a
-- `PayloadMut` (`BytesMut`) are the list of their bytes; `freeze`, `into` and `to_vec` keep it.
-- `none` is a panic of the crate: a read or a split past the end.
pub mod Utf8
use epoxy_tls.Base.{
  arith, ℕ, ◌+◌, ◌*◌, ◌/◌, ◌%◌, ◌≤◌, ◌<◌, ◌≡◌, List, [], ◌∷◌, ◌++◌, Option, none, some, length,
  take, drop, Outcome, or_panic,
}

abbrev pub Payload : Type 0
Payload = List ℕ

abbrev pub IsByte : ℕ → Type 0
IsByte b = b < 256

abbrev pub IsU16 : ℕ → Type 0
IsU16 n = n < 65536

abbrev pub IsU32 : ℕ → Type 0
IsU32 n = n < 4294967296

abbrev pub u16_le : ℕ → List ℕ
u16_le n = (n % 256) ∷ (n / 256 % 256) ∷ []

abbrev pub u32_le : ℕ → List ℕ
u32_le n = (n % 256) ∷ (n / 256 % 256) ∷ (n / 65536 % 256) ∷ (n / 16777216 % 256) ∷ []

abbrev pub u32_be : ℕ → List ℕ
u32_be n = (n / 16777216 % 256) ∷ (n / 65536 % 256) ∷ (n / 256 % 256) ∷ (n % 256) ∷ []

pub record Buf : Type 0 where
  pub put_u8 : Payload → ℕ → Payload
  pub put_u16_le : Payload → ℕ → Payload
  pub put_u32_le : Payload → ℕ → Payload
  pub put_u32 : Payload → ℕ → Payload
  pub extend_from_slice : Payload → List ℕ → Payload
  pub get_u8 : Payload → Option (ℕ × Payload)
  pub get_u16_le : Payload → Option (ℕ × Payload)
  pub get_u32_le : Payload → Option (ℕ × Payload)
  pub split_to : Payload → ℕ → Option (Payload × Payload)
  -- What the crate documents: writes append, numbers are laid out as their names say, reads take
  -- from the front.
  pub put_u8_lem : (p : Payload) (n : ℕ) → put_u8 p n ≡ p ++ (n ∷ [])
  pub put_u16_le_lem : (p : Payload) (n : ℕ) → put_u16_le p n ≡ p ++ u16_le n
  pub put_u32_le_lem : (p : Payload) (n : ℕ) → put_u32_le p n ≡ p ++ u32_le n
  pub put_u32_lem : (p : Payload) (n : ℕ) → put_u32 p n ≡ p ++ u32_be n
  pub extend_from_slice_lem : (p : Payload) (s : List ℕ) → extend_from_slice p s ≡ p ++ s
  pub get_u8_lem : (a : ℕ) (r : Payload) → get_u8 (a ∷ r) ≡ some (a, r)
  pub get_u8_empty : get_u8 [] ≡ none
  pub get_u16_le_lem : (a b : ℕ) (r : Payload) → get_u16_le (a ∷ b ∷ r) ≡ some (a + 256 * b, r)
  pub get_u32_le_lem :
      (a b c d : ℕ) (r : Payload)
      → get_u32_le (a ∷ b ∷ c ∷ d ∷ r) ≡ some (a + 256 * b + 65536 * c + 16777216 * d, r)
  pub split_to_lem : (p : Payload) (n : ℕ) → n ≤ length p → split_to p n ≡ some (take n p, drop n p)
  pub split_to_past_end : (p : Payload) (n : ℕ) → length p < n → split_to p n ≡ none

-- The bytes of a number, put together again.
pub u16_le_digits : (n : ℕ) → IsU16 n → n % 256 + 256 * (n / 256 % 256) ≡ n
u16_le_digits n h = omega arith

pub u32_le_digits :
    (n : ℕ)
    → IsU32 n
    → n % 256 + 256 * (n / 256 % 256) + 65536 * (n / 65536 % 256) + 16777216 * (n / 16777216 % 256)
      ≡ n
u32_le_digits n h = omega arith

module _ ⦃buf : Buf⦄ where
  abbrev pub put_u8 : Payload → ℕ → Payload
  put_u8 = buf.put_u8

  abbrev pub put_u16_le : Payload → ℕ → Payload
  put_u16_le = buf.put_u16_le

  abbrev pub put_u32_le : Payload → ℕ → Payload
  put_u32_le = buf.put_u32_le

  abbrev pub put_u32 : Payload → ℕ → Payload
  put_u32 = buf.put_u32

  abbrev pub extend_from_slice : Payload → List ℕ → Payload
  extend_from_slice = buf.extend_from_slice

  abbrev pub get_u8 : Payload → Outcome (ℕ × Payload)
  get_u8 p = or_panic (buf.get_u8 p)

  abbrev pub get_u16_le : Payload → Outcome (ℕ × Payload)
  get_u16_le p = or_panic (buf.get_u16_le p)

  abbrev pub get_u32_le : Payload → Outcome (ℕ × Payload)
  get_u32_le p = or_panic (buf.get_u32_le p)

  abbrev pub split_to : Payload → ℕ → Outcome (Payload × Payload)
  split_to p n = or_panic (buf.split_to p n)
