-- ===== src/Server/Config/Ports/Decimal.antt =====
-- Printed ranges of ports, read again.
use epoxy_tls.Base.{
  ℕ, ◌-◌, ◌+◌, ◌*◌, ◌/◌, ◌%◌, ◌≤◌, ◌<◌, ◌≡◌, ◌≢◌, refl, arith, List, [], ◌∷◌, ◌++◌, Option, none,
  some, ltb, if◌then◌else◌, All, ◌∙◌, sym, ltb-true, ltb-false,
}
use native.Mathlib.Decide.{dec_lt}
use epoxy_tls.Bytes.Utf8.{Text}
use epoxy_tls.Server.Config.Ports.{
  dash, split_once, parse_digits, parse_u16, parse_uint, invalid_descending_port_range, ports,
  bad_range, parse_port_range, cached_ports, checked, bounds,
}

abbrev pub digit : ℕ → ℕ
digit n = b'0' + n % 10

-- A number below 65536 in decimal.
abbrev pub decimal : ℕ → Text
decimal n =
    if ltb n 10
    then digit n ∷ []
    else if ltb n 100
    then digit (n / 10) ∷ digit n ∷ []
    else if ltb n 1000
    then digit (n / 100) ∷ digit (n / 10) ∷ digit n ∷ []
    else if ltb n 10000
    then digit (n / 1000) ∷ digit (n / 100) ∷ digit (n / 10) ∷ digit n ∷ []
    else digit (n / 10000) ∷ digit (n / 1000) ∷ digit (n / 100) ∷ digit (n / 10) ∷ digit n ∷ []

-- One more digit of a number, behind those before it.
next_digit :
    (m n : ℕ) (s : Text)
    → m ≡ n / 10
    → n < 65536
    → parse_digits 65536 m (digit n ∷ s) ≡ parse_digits 65536 n s
unfolding parse_digits
next_digit m n s e h = ground arith

unsigned :
    (n d : ℕ) (s : Text) → parse_u16 (digit n ∷ d ∷ s) ≡ parse_digits 65536 0 (digit n ∷ d ∷ s)
unfolding parse_uint
unsigned n d s = ground arith

digits_1 : (n : ℕ) → n < 10 → parse_u16 (digit n ∷ []) ≡ some n
unfolding parse_uint parse_digits
digits_1 n h = ground arith

digits_2 : (n : ℕ) → n < 100 → parse_u16 (digit (n / 10) ∷ digit n ∷ []) ≡ some n
unfolding parse_uint parse_digits
digits_2 n h = ground arith

digits_3 : (n : ℕ) → n < 1000 → parse_u16 (digit (n / 100) ∷ digit (n / 10) ∷ digit n ∷ []) ≡ some n
unfolding parse_uint parse_digits
digits_3 n h = ground arith

digits_4 :
    (n : ℕ)
    → n < 10000
    → parse_u16 (digit (n / 1000) ∷ digit (n / 100) ∷ digit (n / 10) ∷ digit n ∷ []) ≡ some n
unfolding parse_uint parse_digits
digits_4 n h = ground arith

all_digits :
    (n : ℕ)
    → n < 65536
    → parse_digits 65536 0
        (digit (n / 10000) ∷ digit (n / 1000) ∷ digit (n / 100) ∷ digit (n / 10) ∷ digit n ∷ [])
      ≡ some n
unfolding parse_digits
all_digits n h =
    next_digit 0 (n / 10000) (digit (n / 1000) ∷ digit (n / 100) ∷ digit (n / 10) ∷ digit n ∷ [])
      (omega arith) (omega arith)
    ∙ next_digit (n / 10000) (n / 1000) (digit (n / 100) ∷ digit (n / 10) ∷ digit n ∷ [])
        (omega arith) (omega arith)
    ∙ next_digit (n / 1000) (n / 100) (digit (n / 10) ∷ digit n ∷ []) (omega arith) (omega arith)
    ∙ next_digit (n / 100) (n / 10) (digit n ∷ []) (omega arith) (omega arith)
    ∙ next_digit (n / 10) n [] (omega arith) (omega arith)

parse_u16-decimal : (n : ℕ) → n < 65536 → parse_u16 (decimal n) ≡ some n
parse_u16-decimal n h = elim (dec_lt n 10) [
  | yes k ↦ rw (ltb-true n 10 k) (digits_1 n k)
  | no k1 ↦ elim (dec_lt n 100) [
    | yes k ↦ rw (ltb-false n 10 (omega arith), ltb-true n 100 k) (digits_2 n k)
    | no k2 ↦ elim (dec_lt n 1000) [
      | yes k ↦
          rw (ltb-false n 10 (omega arith), ltb-false n 100 (omega arith), ltb-true n 1000 k)
            (digits_3 n k)
      | no k3 ↦ elim (dec_lt n 10000) [
        | yes k ↦
            rw
              (
                ltb-false n 10 (omega arith),
                ltb-false n 100 (omega arith),
                ltb-false n 1000 (omega arith),
                ltb-true n 10000 k,
              )
              (digits_4 n k)
        | no k4 ↦
            rw
              (
                ltb-false n 10 (omega arith),
                ltb-false n 100 (omega arith),
                ltb-false n 1000 (omega arith),
                ltb-false n 10000 (omega arith),
              )
              (unsigned (n / 10000) (digit (n / 1000))
                  (digit (n / 100) ∷ digit (n / 10) ∷ digit n ∷ [])
                ∙ all_digits n h)
      ]
    ]
  ]
]

split_once-digits :
    (p s : Text) → All (λ c. c ≢ dash) p → split_once dash (p ++ (dash ∷ s)) ≡ some (p, s)
split_once-digits [] s h = refl
split_once-digits (c ∷ p) s (hc, hp) = ground (arith, split_once-digits p s hp)

no_dash : (p : Text) → All (λ c. c ≢ dash) p → split_once dash p ≡ none
no_dash [] h = refl
no_dash (c ∷ p) (hc, hp) = ground (arith, no_dash p hp)

decimal_digits : (n : ℕ) → All (λ c. c ≢ dash) (decimal n)
decimal_digits n = ground arith

-- The range that a text stands for, from its two bounds.
parse_port_range-bounds :
    (value start end : Text)
    → bounds value ≡ (start, end)
    → parse_port_range value ≡ checked (parse_u16 start) (parse_u16 end)
unfolding parse_port_range
parse_port_range-bounds value start end h = ground arith

parse_digits_bound :
    (m : ℕ) (s : Text) (n : ℕ) → m < 65536 → parse_digits 65536 m s ≡ some n → n < 65536
unfolding parse_digits
parse_digits_bound m [] n h e = ground arith
parse_digits_bound m (c ∷ s) n h e = ground (arith, parse_digits_bound (m * 10 + (c - b'0')) s n)

parse_u16_bound : (s : Text) (n : ℕ) → parse_u16 s ≡ some n → n < 65536
unfolding parse_uint
parse_u16_bound [] n e = absurd (ground arith)
parse_u16_bound (c ∷ []) n e = parse_digits_bound 0 (c ∷ []) n (omega arith) e
parse_u16_bound (c ∷ d ∷ s) n e = ground (
  arith,
  parse_digits_bound 0 (d ∷ s) n (omega arith),
  parse_digits_bound 0 (c ∷ d ∷ s) n (omega arith),
)

-- A printed range is read as its two bounds, and refused when they descend; a single number is
-- the range from it to itself.
pub parse_port_range-decimal :
    (a b : ℕ)
    → a < 65536
    → b < 65536
    → (parse_port_range (decimal a ++ (dash ∷ decimal b))
        ≡ (if ltb b a then bad_range invalid_descending_port_range else ports (a ∷ b ∷ [])))
      × (parse_port_range (decimal a) ≡ ports (a ∷ a ∷ []))
parse_port_range-decimal a b ha hb = (
  rw
      (
        parse_port_range-bounds (decimal a ++ (dash ∷ decimal b)) (decimal a) (decimal b)
            (rw (bounds, split_once-digits (decimal a) (decimal b) (decimal_digits a)) refl),
        parse_u16-decimal a ha,
        parse_u16-decimal b hb,
      )
      refl,
  rw
      (
        parse_port_range-bounds (decimal a) (decimal a) (decimal a)
            (rw (bounds, no_dash (decimal a) (decimal_digits a)) refl),
        parse_u16-decimal a ha,
      )
      (ground arith),
)

-- Numbers that pass the check.
checked-ports :
    (a b : Option ℕ) (r : List ℕ)
    → checked a b ≡ ports r
    → (lo : ℕ) × (hi : ℕ) × (a ≡ some lo) × (b ≡ some hi) × (lo ≤ hi) × (r ≡ lo ∷ hi ∷ [])
checked-ports none b r h = absurd (ground arith)
checked-ports (some lo) none r h = absurd (ground arith)
checked-ports (some lo) (some hi) r h = (lo, hi, refl, refl, ground arith, ground arith)

-- Whatever text is read as a range gives an ascending pair of 16-bit ports, which the cache turns
-- into a range without a panic.
pub parse_port_range-ports :
    (value : Text) (r : List ℕ) (xs : List (List ℕ)) (cache : List (ℕ × ℕ))
    → parse_port_range value ≡ ports r
    → cached_ports xs ≡ some cache
    → (lo : ℕ) × (hi : ℕ) × (r ≡ lo ∷ hi ∷ [])
      × (lo ≤ hi)
      × (hi < 65536)
      × (cached_ports (r ∷ xs) ≡ some ((lo, hi) ∷ cache))
unfolding cached_ports
parse_port_range-ports value r xs cache h hc =
    let (lo, hi, ea, eb, le, er) =
      checked-ports (parse_u16 (bounds value).0) (parse_u16 (bounds value).1) r
        (sym (parse_port_range-bounds value (bounds value).0 (bounds value).1 refl) ∙ h) in
    (lo, hi, er, le, parse_u16_bound (bounds value).1 hi eb, ground arith)
