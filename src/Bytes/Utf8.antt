-- ===== src/Bytes/Utf8.antt =====
-- `String::from_utf8` of the standard library: which byte sequences are well-formed UTF-8. A Rust
-- `String` is the list of its bytes.
use epoxy_tls.Base.{
  arith, ℕ, zero, suc, ◌≡◌, Bool, true, false, ◌&&◌, List, [], ◌∷◌, Option, none, some, leb, ltb,
  if◌then◌else◌, Outcome, ok, err, utf8,
}

abbrev pub Text : Type 0
Text = List ℕ

-- Between two characters, or inside one: the next byte lies in a range, and so many follow it.
pub data Decoder : Type 0 where
  boundary : Decoder
  inside : ℕ → ℕ → ℕ → Decoder

within : ℕ → ℕ → ℕ → Bool
within lo hi b = leb lo b && leb b hi

first_byte : ℕ → Option Decoder
unfolding within
first_byte b =
    if ltb b 0x80
    then some boundary
    else if within 0xc2 0xdf b
    then some (inside 0x80 0xbf 0)
    else if within 0xe0 0xe0 b
    then some (inside 0xa0 0xbf 1)
    else if within 0xed 0xed b
    then some (inside 0x80 0x9f 1)
    else if within 0xe1 0xef b
    then some (inside 0x80 0xbf 1)
    else if within 0xf0 0xf0 b
    then some (inside 0x90 0xbf 2)
    else if within 0xf1 0xf3 b
    then some (inside 0x80 0xbf 2)
    else if within 0xf4 0xf4 b
    then some (inside 0x80 0x8f 2)
    else none

next_byte : Decoder → ℕ → Option Decoder
unfolding within first_byte
next_byte boundary b = first_byte b
next_byte (inside lo hi zero) b = if within lo hi b then some boundary else none
next_byte (inside lo hi (suc n)) b = if within lo hi b then some (inside 0x80 0xbf n) else none

run : Decoder → List ℕ → Bool
unfolding next_byte
run boundary [] = true
run (inside lo hi n) [] = false
run d (b ∷ bs) = elim (next_byte d b) [ none ↦ false | some d' ↦ run d' bs ]

unfoldable pub is_utf8 : List ℕ → Bool
unfolding run
is_utf8 bs = run boundary bs

unfoldable pub from_utf8 : List ℕ → Outcome Text
from_utf8 bs = if is_utf8 bs then ok bs else err utf8

-- "aé€" followed by a cut-off character.
accepts : is_utf8 (0x61 ∷ 0xc3 ∷ 0xa9 ∷ 0xe2 ∷ 0x82 ∷ 0xac ∷ []) ≡ true
unfolding is_utf8
accepts = ground arith

rejects : is_utf8 (0x61 ∷ 0xe2 ∷ 0x82 ∷ []) ≡ false
unfolding is_utf8
rejects = ground arith
