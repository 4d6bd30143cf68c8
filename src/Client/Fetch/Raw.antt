-- ===== src/Client/Fetch/Raw.antt =====
-- client/src/lib.rs, `fetch`: the headers of the response as the script sees them.
use epoxy_tls.Base.{
  ◌≡◌, Bool, true, false, List, [], ◌∷◌, ◌++◌, Option, none, some, list_eq, if◌then◌else◌, ◌&&◌,
}
use epoxy_tls.Bytes.{Payload}
use epoxy_tls.Bytes.Utf8.{Text}
use epoxy_tls.Client.Errors.{Result, ok, err, ◌>>=◌, ok_or, to_str_error}

-- A property of a JavaScript object, as far as `fetch` puts one there.
pub data JsValue : Type 0 where
  undefined : JsValue
  string : Text → JsValue
  array : List Text → JsValue

-- `Array::of2` if there is a value that is no empty string, `push` if there is an array.
abbrev pub put : JsValue → Text → JsValue
put undefined v = string v
put (string []) v = string v
put (string (c ∷ s)) v = array ((c ∷ s) ∷ v ∷ [])
put (array vs) v = array (vs ++ (v ∷ []))

abbrev pub JsObject : Type 0
JsObject = Text → JsValue

abbrev pub object_set : JsObject → Text → JsValue → JsObject
object_set o k v n = if list_eq k n then v else o n

module _ (to_str : Payload → Option Text) where
  -- The loop that fills `rawHeaders`.
  unfoldable pub raw_headers : List (Text × Payload) → JsObject → Result JsObject
  raw_headers [] o = ok o
  raw_headers ((k, v) ∷ headers) o =
      ok_or (to_str v) to_str_error >>= λ s. raw_headers headers (object_set o k (put (o k) s))

  -- `filter_map`: the headers of the response object.
  unfoldable pub readable_headers : List (Text × Payload) → List (Text × Text)
  readable_headers [] = []
  readable_headers ((k, v) ∷ headers) = elim (to_str v) [
    | none ↦ readable_headers headers
    | some s ↦ (k, s) ∷ readable_headers headers
  ]

  -- The values of a name.
  abbrev pub values_of : Text → List (Text × Text) → List Text
  values_of n [] = []
  values_of n ((k, s) ∷ headers) =
      if list_eq k n then s ∷ values_of n headers else values_of n headers

  -- One value as it is, and several as an array; an empty value is dropped when another follows it and
  -- nothing but empty values stands before it.
  abbrev pub collapse : List Text → JsValue
  collapse [] = undefined
  collapse (v ∷ []) = string v
  collapse ([] ∷ w ∷ vs) = collapse (w ∷ vs)
  collapse ((c ∷ s) ∷ w ∷ vs) = array ((c ∷ s) ∷ w ∷ vs)

  abbrev is_readable : Option Text → Bool
  is_readable none = false
  is_readable (some s) = true

  abbrev pub all_readable : List (Text × Payload) → Bool
  all_readable [] = true
  all_readable ((k, v) ∷ headers) = is_readable (to_str v) && all_readable headers

  -- What the result says of a name.
  abbrev pub Shows : Text → List (Text × Payload) → Result JsObject → Type 0
  Shows n headers (ok o) =
      (all_readable headers ≡ true) × (o n ≡ collapse (values_of n (readable_headers headers)))
  Shows n headers (err e) = (all_readable headers ≡ false) × (e ≡ to_str_error)

  -- The same, with the values that are there already.
  abbrev ShowsAfter : List Text → Text → List (Text × Payload) → Result JsObject → Type 0
  ShowsAfter seen n headers (ok o) =
      (all_readable headers ≡ true)
      × (o n ≡ collapse (seen ++ values_of n (readable_headers headers)))
  ShowsAfter seen n headers (err e) = (all_readable headers ≡ false) × (e ≡ to_str_error)

  -- The values of a name, after one more.
  abbrev seen_after : Text → List Text → Text → Text → List Text
  seen_after n seen k s = if list_eq k n then seen ++ (s ∷ []) else seen
