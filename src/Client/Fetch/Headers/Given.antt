-- ===== src/Client/Fetch/Headers/Given.antt =====
-- Which headers the request of `fetch` has.
use epoxy_tls.Base.{
  ◌≡◌, ◌≢◌, refl, sym, ap, ◌∙◌, Bool, true, false, ◌&&◌, List, [], ◌∷◌, Option, none, some, list_eq,
  list_eq→eq, codes, if◌then◌else◌, Bool-cases, inl, inr,
}
use epoxy_tls.Bytes.{Payload}
use epoxy_tls.Bytes.Utf8.{Text}
use epoxy_tls.Client.Errors.{Result, ok, ◌>>=◌, ok_or, ok_or-bind, bind-ok, http}
use epoxy_tls.Client.Fetch.Headers.{
  HeaderDeps, HeaderMap, insert, insert_given, with_content_type, is_upload, request_headers,
}

module _ (deps : HeaderDeps) where
  abbrev value_if : Text → Option Text → Text → Option Payload
  value_if n none value = none
  value_if n (some m) value = if list_eq m n then deps.header_value value else none

  abbrev later : Option Payload → Option Payload → Option Payload
  later none earlier = earlier
  later (some v) earlier = some v

  -- The last value that the caller gives for a name.
  abbrev pub last_given : Text → List (Text × Text) → Option Payload
  last_given n [] = none
  last_given n ((name, value) ∷ headers) =
      later (last_given n headers) (value_if n (deps.header_name name) value)

  later_assoc : (a b c : Option Payload) → later (later a b) c ≡ later a (later b c)
  later_assoc none b c = refl
  later_assoc (some v) b c = refl

  -- A header whose name is read as `host` is skipped.
  value_if-skipped :
      (name n : Text) (value : Text) (o : Option Text)
      → deps.header_name name ≡ o
      → list_eq (deps.to_lowercase name) (codes "host") ≡ true
      → n ≢ codes "host"
      → value_if n o value ≡ none
  value_if-skipped name n value none e h ne = refl
  value_if-skipped name n value (some m) e h ne = elim (Bool-cases (list_eq m n)) [
    | inl same ↦ absurd (
        ne (
          sym (list_eq→eq m n same)
          ∙ sym (deps.header_name_lower name m e)
          ∙ list_eq→eq (deps.to_lowercase name) (codes "host") h))
    | inr other ↦ rw other
  ]

  later-insert :
      (k n : Text) (v : Payload) (m : HeaderMap) (value : Text)
      → deps.header_value value ≡ some v
      → insert k v m n ≡ later (value_if n (some k) value) (m n)
  later-insert k n v m value h = elim (Bool-cases (list_eq k n)) [
    | inl same ↦ rw (same, h)
    | inr other ↦ rw other
  ]

  -- A header that is not skipped is put into the map, and the rest follow.
  kept_last :
      (headers : List (Text × Text)) (name value : Text) (m m' : HeaderMap) (n : Text)
      → n ≢ codes "host"
      → (ok_or (deps.header_name name) http >>= λ k.
          ok_or (deps.header_value value) http >>= λ v. insert_given deps headers (insert k v m))
        ≡ ok m'
      → ((k : Text) (v : Payload)
          → insert_given deps headers (insert k v m) ≡ ok m'
          → m' n ≡ later (last_given n headers) (insert k v m n))
      → m' n ≡ later (last_given n ((name, value) ∷ headers)) (m n)
  kept_last headers name value m m' n ne h rest =
      let (k, ek, hk) = ok_or-bind (deps.header_name name) http _ h in
      let (v, ev, hv) = ok_or-bind (deps.header_value value) http _ hk in
      rw ek (
        rest k v hv
        ∙ ap (later (last_given n headers)) (later-insert k n v m value ev)
        ∙ sym (later_assoc (last_given n headers) (value_if n (some k) value) (m n)))

  insert_given-last :
      (headers : List (Text × Text)) (m m' : HeaderMap) (n : Text)
      → n ≢ codes "host"
      → insert_given deps headers m ≡ ok m'
      → m' n ≡ later (last_given n headers) (m n)
  unfolding insert_given
  insert_given-last [] m m' n ne h = cc
  insert_given-last ((name, value) ∷ headers) m m' n ne h =
      elim (Bool-cases (list_eq (deps.to_lowercase name) (codes "host"))) [
        | inl skipped ↦ rw (value_if-skipped name n value (deps.header_name name) refl skipped ne) (
            insert_given-last headers m m' n ne (rw skipped at h)
            ∙ sym (later_assoc (last_given n headers) none (m n)))
        | inr kept ↦
            kept_last headers name value m m' n ne (rw kept at h)
              (λ k v. insert_given-last headers (insert k v m) m' n ne)
      ]

  not_host :
      (name k : Text) (v : Payload) (m : HeaderMap)
      → deps.header_name name ≡ some k
      → list_eq (deps.to_lowercase name) (codes "host") ≡ false
      → m (codes "host") ≡ none
      → insert k v m (codes "host") ≡ none
  not_host name k v m ek kept e = elim (Bool-cases (list_eq k (codes "host"))) [
    | inl same ↦ cc (deps.header_name_lower name k ek, kept)
    | inr other ↦ rw other e
  ]

  abbrev text_value : Option Text → Option Payload
  text_value none = none
  text_value (some text) = deps.header_value text

  insert_given-host :
      (headers : List (Text × Text)) (m m' : HeaderMap)
      → m (codes "host") ≡ none
      → insert_given deps headers m ≡ ok m'
      → m' (codes "host") ≡ none
  unfolding insert_given
  insert_given-host [] m m' e h = cc
  insert_given-host ((name, value) ∷ headers) m m' e h =
      elim (Bool-cases (list_eq (deps.to_lowercase name) (codes "host"))) [
        | inl skipped ↦ insert_given-host headers m m' e (rw skipped at h)
        | inr kept ↦
            let (k, ek, hk) = ok_or-bind (deps.header_name name) http _ (rw kept at h) in
            let (v, ev, hv) = ok_or-bind (deps.header_value value) http _ hk in
            insert_given-host headers (insert k v m) m' (not_host name k v m ek kept e) hv
      ]

  -- What the client puts for a name, before the caller's headers.
  abbrev pub own_header : Text → Option Text → Text → Option Payload
  own_header user_agent content_type n =
      later (if list_eq (codes "content-type") n then text_value content_type else none) (
        if list_eq (codes "user-agent") n
        then deps.header_value user_agent
        else if list_eq (codes "connection") n
        then some (codes "keep-alive")
        else if list_eq (codes "accept-encoding") n
        then some (codes "gzip, br")
        else none)

  -- The headers that stand before the content type.
  abbrev fixed_headers : Payload → HeaderMap
  fixed_headers agent = insert (codes "user-agent") agent (
      insert (codes "connection") (codes "keep-alive")
        (insert (codes "accept-encoding") (codes "gzip, br") (λ n. none)))

  own_content :
      (user_agent : Text) (content_type : Option Text) (agent : Payload) (m : HeaderMap) (n : Text)
      → deps.header_value user_agent ≡ some agent
      → with_content_type deps content_type (fixed_headers agent) ≡ ok m
      → m n ≡ own_header user_agent content_type n
  own_content user_agent none agent m n e h =
      let p : fixed_headers agent ≡ m = cc in
      rw (sym p) (
        rw e (elim (Bool-cases (list_eq (codes "content-type") n)) [
          | inl same ↦ rw same refl
          | inr other ↦ rw other refl
        ]))
  own_content user_agent (some text) agent m n e h =
      let (v, ev, hv) = ok_or-bind (deps.header_value text) http _ h in
      let p : insert (codes "content-type") v (fixed_headers agent) ≡ m = cc in
      rw (sym p) (
        rw (e, ev)
          (elim (Bool-cases (list_eq (codes "content-type") n)) [
            | inl same ↦ rw same refl
            | inr other ↦ rw other refl
          ]))

  own_host :
      (content_type : Option Text) (agent : Payload) (m : HeaderMap)
      → with_content_type deps content_type (fixed_headers agent) ≡ ok m
      → m (codes "host") ≡ none
  own_host none agent m h =
      let p : fixed_headers agent ≡ m = cc in sym (ap (λ (f : HeaderMap). f (codes "host")) p)
  own_host (some text) agent m h =
      let (v, ev, hv) = ok_or-bind (deps.header_value text) http _ h in
      let p : insert (codes "content-type") v (fixed_headers agent) ≡ m = cc in
      sym (ap (λ (f : HeaderMap). f (codes "host")) p)

  abbrev finished : Bool → HeaderMap → HeaderMap
  finished b m = if b then insert (codes "content-length") (codes "0") m else m

  finish-host :
      (b : Bool) (m : HeaderMap) → m (codes "host") ≡ none → finished b m (codes "host") ≡ none
  finish-host true m h = h
  finish-host false m h = h

  finish-headers :
      (upload empty : Bool) (m m' : HeaderMap) (n : Text)
      → ◌≡◌ {A = Result HeaderMap} (ok (finished (upload && empty) m)) (ok m')
      → (finished (upload && empty) m ≡ m')
        × (m' n ≡ (
            if upload && empty && list_eq (codes "content-length") n
            then some (codes "0")
            else m n))
  finish-headers true true m m' n h =
      let p : finished true m ≡ m' = cc in (p, sym (ap (λ (f : HeaderMap). f n) p))
  finish-headers true false m m' n h = (cc, cc)
  finish-headers false empty m m' n h = (cc, cc)

  -- The request has no `host`. Any other header has the last value that the caller gives for it, and
  -- else the client's own; only `content-length` is 0 whenever an uploading request has no body.
  pub request_headers_lem :
      (user_agent : Text) (content_type : Option Text) (headers : List (Text × Text))
      → (method : Text) (body_empty : Bool) (m : HeaderMap) (n : Text) → n ≢ codes "host"
      → request_headers deps user_agent content_type headers method body_empty ≡ ok m
      → (m (codes "host") ≡ none)
        × (m n ≡ (
            if is_upload method && body_empty && list_eq (codes "content-length") n
            then some (codes "0")
            else later (last_given n headers) (own_header user_agent content_type n)))
  unfolding request_headers
  request_headers_lem user_agent content_type headers method body_empty m n ne h =
      let (agent, ea, ha) = ok_or-bind (deps.header_value user_agent) http _ h in
      let (m1, e1, h1) = bind-ok (with_content_type deps content_type _) _ ha in
      let (m2, e2, h2) = bind-ok (insert_given deps headers m1) _ h1 in
      let sent = finish-headers (is_upload method) body_empty m2 m n h2 in
      (
        ap (λ (f : HeaderMap). f (codes "host")) (sym sent.0)
            ∙ finish-host (is_upload method && body_empty) m2
                (insert_given-host headers m1 m2 (own_host content_type agent m1 e1) e2),
        sent.1
            ∙ ap
                (λ o.
                  if is_upload method && body_empty && list_eq (codes "content-length") n
                  then some (codes "0")
                  else o)
                (insert_given-last headers m1 m2 n ne e2
                  ∙ ap (later (last_given n headers))
                      (own_content user_agent content_type agent m1 n ea e1)),
      )
