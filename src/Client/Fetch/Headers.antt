-- ===== src/Client/Fetch/Headers.antt =====
-- client/src/lib.rs, `fetch`: the headers of the request, in the build with the feature `full`.
pub mod Given
use epoxy_tls.Base.{
  ◌≡◌, Bool, ◌||◌, ◌&&◌, List, [], ◌∷◌, Option, none, some, list_eq, codes, if◌then◌else◌,
}
use epoxy_tls.Bytes.{Payload}
use epoxy_tls.Bytes.Utf8.{Text}
use epoxy_tls.Client.Errors.{Result, ok, ◌>>=◌, ok_or, http}

-- The `http` crate's names and values of headers, and `str::to_lowercase`. A name is kept in lower
-- case.
pub record HeaderDeps : Type 0 where
  pub header_name : Text → Option Text
  pub header_value : Text → Option Payload
  pub to_lowercase : Text → Text
  pub header_name_lower : (t n : Text) → header_name t ≡ some n → to_lowercase t ≡ n

abbrev pub HeaderMap : Type 0
HeaderMap = Text → Option Payload

-- `HeaderMap::insert`
abbrev pub insert : Text → Payload → HeaderMap → HeaderMap
insert name value m n = if list_eq name n then some value else m n

abbrev pub is_upload : Text → Bool
is_upload method =
    list_eq method (codes "POST") || list_eq method (codes "PUT") || list_eq method (codes "PATCH")

module _ (deps : HeaderDeps) where
  -- The loop over the caller's headers.
  unfoldable pub insert_given : List (Text × Text) → HeaderMap → Result HeaderMap
  insert_given [] m = ok m
  insert_given ((name, value) ∷ headers) m =
      let rest = ok_or (deps.header_name name) http >>= λ n.
      ok_or (deps.header_value value) http >>= λ v. insert_given headers (insert n v m) in
      let skipped = insert_given headers m in
      if list_eq (deps.to_lowercase name) (codes "host") then skipped else rest

  abbrev pub with_content_type : Option Text → HeaderMap → Result HeaderMap
  with_content_type none m = ok m
  with_content_type (some content_type) m =
      ok_or (deps.header_value content_type) http >>= λ v. ok (insert (codes "content-type") v m)

  unfoldable pub request_headers :
      Text → Option Text → List (Text × Text) → Text → Bool → Result HeaderMap
  unfolding insert_given
  request_headers user_agent content_type headers method body_empty =
      let base =
        insert (codes "connection") (codes "keep-alive")
          (insert (codes "accept-encoding") (codes "gzip, br") (λ n. none)) in
      ok_or (deps.header_value user_agent) http >>= λ agent.
      with_content_type content_type (insert (codes "user-agent") agent base) >>= λ m.
      insert_given headers m >>= λ m'. ok (
        if is_upload method && body_empty
        then insert (codes "content-length") (codes "0") m'
        else m')
