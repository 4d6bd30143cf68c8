-- ===== src/Client/Fetch.antt =====
-- client/src/lib.rs, `send_req`, and client/src/utils/mod.rs: a request of `fetch` with the redirects
-- that it follows. The connection is the answer to each request, given those that were sent before.
pub mod Redirects
pub mod Headers
pub mod Raw
use epoxy_tls.Base.{
  ℕ, zero, suc, Bool, true, false, List, [], ◌∷◌, ◌++◌, Option, none, some, contains, codes,
  if◌then◌else◌,
}
use epoxy_tls.Bytes.{Payload}
use epoxy_tls.Bytes.Utf8.{Text}
use epoxy_tls.Client.Errors.{Result, ok, err, ◌>>=◌, ok_or, http, to_str_error}

unfoldable pub is_redirect : ℕ → Bool
is_redirect code = contains (301 ∷ 302 ∷ 303 ∷ 307 ∷ 308 ∷ []) code

unfoldable pub is_null_body : ℕ → Bool
is_null_body code = contains (101 ∷ 204 ∷ 205 ∷ 304 ∷ []) code

-- `http::uri::Parts`
pub record Parts : Type 0 where
  pub scheme : Option Text
  pub authority : Option Text
  pub path_and_query : Option Text

-- The `http` crate's URIs, and `HeaderValue::to_str`.
pub record UriDeps (Uri : Type 0) : Type 0 where
  pub parse : Text → Option Uri
  pub parts : Uri → Parts
  pub from_parts : Parts → Option Uri
  pub to_str : Payload → Option Text

-- `if part.is_none() { part = self.part().cloned() }`
abbrev pub or_own {ℓ} : {A : Type ℓ} → Option A → Option A → Option A
or_own none own = own
or_own (some a) own = some a

abbrev pub filled : Parts → Parts → Parts
filled new own = record new {
  scheme = or_own new.scheme own.scheme;
  authority = or_own new.authority own.authority;
}

unfoldable pub get_redirect : {Uri : Type 0} → UriDeps Uri → Uri → Payload → Result Uri
get_redirect deps uri location = ok_or (deps.to_str location) to_str_error >>= λ text.
    ok_or (deps.parse text) http >>= λ new_uri.
    ok_or (deps.from_parts (filled (deps.parts new_uri) (deps.parts uri))) http

-- `head` is all of a request but its URI: the method, the headers, the body.
pub record Request (Uri Head : Type 0) : Type 0 where
  pub uri : Uri
  pub head : Head

-- The values of each header, in order; `content` is the rest.
pub record Response (Content : Type 0) : Type 0 where
  pub status : ℕ
  pub headers : Text → List Payload
  pub content : Content

-- `HeaderMap::get`
abbrev pub get_first {ℓ} : {A : Type ℓ} → List A → Option A
get_first [] = none
get_first (v ∷ vs) = some v

pub data EpoxyResponse (Uri Head Content : Type 0) : Type 0 where
  success : Response Content → EpoxyResponse Uri Head Content
  redirect : Response Content → Request Uri Head → EpoxyResponse Uri Head Content

-- The response, the URL that it came from and whether that is another one.
abbrev pub Answer : Type 0 → Type 0 → Type 0
Answer Uri Content = Response Content × Uri × Bool

abbrev pub response_of :
    {Uri Head Content : Type 0} → EpoxyResponse Uri Head Content → Response Content
response_of (success resp) = resp
response_of (redirect resp req) = resp

module _ {Uri Head Content : Type 0} (deps : UriDeps Uri) where
  abbrev pub redirect_to :
      Response Content → Request Uri Head → Result Uri → EpoxyResponse Uri Head Content
  redirect_to resp new_req (ok url) = redirect resp (record new_req { uri = url })
  redirect_to resp new_req (err e) = success resp

  abbrev pub redirect_at :
      Response Content → Request Uri Head → Option Payload → EpoxyResponse Uri Head Content
  unfolding get_redirect
  redirect_at resp new_req none = success resp
  redirect_at resp new_req (some location) =
      redirect_to resp new_req (get_redirect deps new_req.uri location)

  abbrev pub answered :
      Option (Request Uri Head)
      → Result (Response Content)
      → Result (EpoxyResponse Uri Head Content)
  unfolding is_redirect
  answered new_req (err e) = err e
  answered none (ok resp) = ok (success resp)
  answered (some new_req) (ok resp) = ok (
      if is_redirect resp.status
      then redirect_at resp new_req (get_first (resp.headers (codes "location")))
      else success resp)

  module _ (request : List (Request Uri Head) → Request Uri Head → Result (Response Content)) where
    -- Each call gives the requests that were sent, beside its result.
    unfoldable pub send_req_inner :
        List (Request Uri Head)
        → Request Uri Head
        → Bool
        → Result (EpoxyResponse Uri Head Content) × List (Request Uri Head)
    send_req_inner sent req should_redirect = (
      answered (if should_redirect then some req else none) (request sent req),
      sent ++ (req ∷ []),
    )

    abbrev pub resume :
        (EpoxyResponse Uri Head Content
          → List (Request Uri Head)
          → Result (Answer Uri Content) × List (Request Uri Head))
        → Result (EpoxyResponse Uri Head Content) × List (Request Uri Head)
        → Result (Answer Uri Content) × List (Request Uri Head)
    resume rest (err e, sent) = (err e, sent)
    resume rest (ok current, sent) = rest current sent

    -- The loop, for so many rounds, and what follows it.
    unfoldable pub follow :
        Bool
        → ℕ
        → Uri
        → Bool
        → EpoxyResponse Uri Head Content
        → List (Request Uri Head)
        → Result (Answer Uri Content) × List (Request Uri Head)
    unfolding send_req_inner
    follow should zero url redirected current sent =
        (ok (response_of current, url, redirected), sent)
    follow should (suc n) url redirected (success resp) sent = (ok (resp, url, redirected), sent)
    follow should (suc n) url redirected (redirect resp req) sent =
        resume (follow should n req.uri true) (send_req_inner sent req should)

    unfoldable pub send_req :
        ℕ → Request Uri Head → Bool → Result (Answer Uri Content) × List (Request Uri Head)
    unfolding send_req_inner follow
    send_req redirect_limit req should_redirect =
        resume (follow should_redirect redirect_limit req.uri false)
          (send_req_inner [] req should_redirect)
