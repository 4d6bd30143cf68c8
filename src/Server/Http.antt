-- ===== src/Server/Http.antt =====
-- server/src/route.rs and upgrade.rs: requests over HTTP. Header values are bytes; hyper, the
-- hashes and serde_json are arguments.
pub mod Escape
pub mod Url
pub mod Upgrade
pub mod Page
pub mod Index
pub mod Route
use epoxy_tls.Base.{
  Bool, List, [], ◌∷◌, Option, none, some, if◌then◌else◌, list_eq, ◌==◌, ◌||◌, ◌&&◌, leb, true,
  false, ◌+◌, ◌-◌, ℕ,
}
use epoxy_tls.Bytes.{Payload}
use epoxy_tls.Bytes.Utf8.{Text}

-- The values of a header, in order.
abbrev pub HeaderMap : Type 0
HeaderMap = Text → List Payload

-- `uri().path()`, `uri().query()` and `headers()`.
pub record Request : Type 0 where
  pub path : Text
  pub query : Option Text
  pub headers : HeaderMap

pub record Response : Type 0 where
  pub status : ℕ
  pub headers : List (Text × Payload)
  pub body : Text

pub record HttpDeps : Type 0 where
  -- `HeaderValue::to_str`
  pub to_str : Payload → Option Text
  -- `str::trim`
  pub trim : Text → Text
  -- The scheme and the authority of `target.parse::<Uri>()`.
  pub parse_uri : Text → Option (Option Text × Option Text)
  -- `serde_json::to_string`
  pub json : Text → Option Text
  -- `Sha1` and `BASE64_STANDARD.encode`
  pub sha1 : Payload → Payload
  pub encode : Payload → Payload
  -- `Response::builder()…body(…)`
  pub build : Response → Option Response

-- `HeaderMap::get`
abbrev pub get_first : List Payload → Option Payload
get_first [] = none
get_first (v ∷ vs) = some v

-- `u8::to_ascii_lowercase` and `eq_ignore_ascii_case`
abbrev pub to_lower : ℕ → ℕ
to_lower b = if leb b'A' b && leb b b'Z' then b + 32 else b

abbrev pub eq_ignore_case : Text → Text → Bool
eq_ignore_case [] [] = true
eq_ignore_case (a ∷ s) (b ∷ t) = to_lower a == to_lower b && eq_ignore_case s t
eq_ignore_case _ _ = false

-- `slice.split(|c| c == sep)`: what stands before the first separator, and the later parts.
abbrev pub split_parts : ℕ → Payload → Payload × List Payload
split_parts sep [] = ([], [])
split_parts sep (c ∷ s) =
    let (part, parts) = split_parts sep s in
    if c == sep then ([], part ∷ parts) else (c ∷ part, parts)

-- `Option::and_then`
abbrev pub and_then {ℓ κ} : {A : Type ℓ} {B : Type κ} → Option A → (A → Option B) → Option B
and_then none f = none
and_then (some a) f = f a

-- `Option::or_else`
abbrev pub or_else {ℓ} : {A : Type ℓ} → Option A → Option A → Option A
or_else none b = b
or_else (some a) b = some a

abbrev pub non_empty : Text → Option Text
non_empty [] = none
non_empty (c ∷ s) = some (c ∷ s)

module _ (deps : HttpDeps) where
  unfoldable pub get_header : HeaderMap → Text → Option Text
  get_header headers header = and_then (get_first (headers header)) deps.to_str

  unfoldable pub first_header_value : HeaderMap → Text → Option Text
  unfolding get_header
  first_header_value headers name =
      and_then (get_header headers name) (λ value. non_empty (deps.trim (split_parts b',' value).0))
