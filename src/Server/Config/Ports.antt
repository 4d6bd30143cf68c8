-- ===== src/Server/Config/Ports.antt =====
-- server/src/config.rs: ranges of ports, from the environment and in the cache.
pub mod Decimal
use epoxy_tls.Base.{
  ℕ, ◌+◌, ◌*◌, ◌-◌, ◌≤◌, ◌<◌, ◌≡◌, arith, Bool, true, false, ◌&&◌, ◌||◌, List, [], ◌∷◌, Option,
  none, some, ltb, leb, ◌==◌, if◌then◌else◌,
}
use epoxy_tls.Bytes.Utf8.{Text}

abbrev pub dash : ℕ
dash = b'-'

-- `value.split_once('-')`
abbrev pub split_once : ℕ → Text → Option (Text × Text)
split_once sep [] = none
split_once sep (c ∷ s) =
    if c == sep
    then some ([], s)
    else elim (split_once sep s) [ none ↦ none | some (a, b) ↦ some (c ∷ a, b) ]

-- `char::to_digit(10)`
abbrev pub to_digit : ℕ → Option ℕ
to_digit c = if leb b'0' c && leb c b'9' then some (c - b'0') else none

-- The digits after those that made n; a value that does not fit the type is an error at once.
unfoldable pub parse_digits : ℕ → ℕ → Text → Option ℕ
parse_digits limit n [] = some n
parse_digits limit n (c ∷ s) = elim (to_digit c) [
  | none ↦ none
  | some d ↦ if ltb (n * 10 + d) limit then parse_digits limit (n * 10 + d) s else none
]

-- `str::parse` for an unsigned type of `limit` values: a sign `+` may stand in front, and at least
-- one digit has to follow.
unfoldable pub parse_uint : ℕ → Text → Option ℕ
parse_uint limit [] = none
parse_uint limit (c ∷ []) = parse_digits limit 0 (c ∷ [])
parse_uint limit (c ∷ d ∷ s) =
    if c == b'+' then parse_digits limit 0 (d ∷ s) else parse_digits limit 0 (c ∷ d ∷ s)

abbrev pub parse_u16 : Text → Option ℕ
parse_u16 = parse_uint 65536

-- The two error texts.
pub data PortRangeError : Type 0 where
  invalid_port_range invalid_descending_port_range : PortRangeError

pub data PortRange : Type 0 where
  ports : List ℕ → PortRange
  bad_range : PortRangeError → PortRange

abbrev pub bounds : Text → Text × Text
bounds value = elim (split_once dash value) [ none ↦ (value, value) | some p ↦ p ]

abbrev pub checked : Option ℕ → Option ℕ → PortRange
checked (some start) (some end) =
    if ltb end start then bad_range invalid_descending_port_range else ports (start ∷ end ∷ [])
checked _ _ = bad_range invalid_port_range

unfoldable pub parse_port_range : Text → PortRange
parse_port_range value =
    let (start, end) = bounds value in checked (parse_u16 start) (parse_u16 end)

-- `x[0]..=x[1]` of every range; the index panics on a range of fewer than two numbers.
unfoldable pub cached_ports : List (List ℕ) → Option (List (ℕ × ℕ))
cached_ports [] = some []
cached_ports ((lo ∷ hi ∷ more) ∷ xs) = elim (cached_ports xs) [
  | none ↦ none
  | some rs ↦ some ((lo, hi) ∷ rs)
]
cached_ports (_ ∷ xs) = none

-- `ranges.iter().any(|x| x.contains(&port))`
abbrev pub any_contains : List (ℕ × ℕ) → ℕ → Bool
any_contains [] port = false
any_contains ((lo, hi) ∷ rs) port = (leb lo port && leb port hi) || any_contains rs port
