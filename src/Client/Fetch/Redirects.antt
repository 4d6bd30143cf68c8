-- ===== src/Client/Fetch/Redirects.antt =====
-- The requests that `send_req` makes.
use epoxy_tls.Base.{
  ℕ, zero, suc, ◌≤◌, ◌≡◌, ◌⊎◌, inl, inr, refl, sym, ap, ◌∙◌, arith, Bool, true, false, List, [],
  ◌∷◌, ◌++◌, append_assoc, Option, none, some, codes, length, if◌then◌else◌,
}
use epoxy_tls.Bytes.{Payload}
use epoxy_tls.Client.Errors.{EpoxyError, Result, ok, err}
use epoxy_tls.Client.Fetch.{
  UriDeps, Request, Response, EpoxyResponse, success, redirect, get_first, is_redirect,
  get_redirect, redirect_to, redirect_at, answered, send_req_inner, Answer, resume, follow,
  send_req,
}

module _ {Uri Head Content : Type 0} (deps : UriDeps Uri)
    (request : List (Request Uri Head) → Request Uri Head → Result (Response Content))
    (should : Bool) where
  -- After the requests `sent`, the answer to `r` is a redirect to the URL of `r'`, which is `r`
  -- otherwise.
  pub record Hop (sent : List (Request Uri Head)) (r r' : Request Uri Head) : Type 0 where
    pub resp : Response Content
    pub location : Payload
    pub url : Uri
    pub follows : should ≡ true
    pub answer : request sent r ≡ ok resp
    pub status : is_redirect resp.status ≡ true
    pub header : get_first (resp.headers (codes "location")) ≡ some location
    pub target : get_redirect deps r.uri location ≡ ok url
    pub next : r' ≡ record r { uri = url }

  -- What the last request and its answer make of the result.
  abbrev pub Final :
      List (Request Uri Head) → Request Uri Head → Result (Answer Uri Content) → Type 0
  Final sent r (err e) = request sent r ≡ err e
  Final sent r (ok (resp, url, redirected)) = (request sent r ≡ ok resp) × (url ≡ r.uri)

  -- From `r` on, with so many redirects left, the requests are `hops`.
  abbrev pub Ran :
      ℕ
      → List (Request Uri Head)
      → Request Uri Head
      → List (Request Uri Head)
      → Result (Answer Uri Content)
      → Type 0
  Ran n sent r [] (err e) = Final sent r (err e)
  Ran n sent r [] (ok a) =
      Final sent r (ok a) × ((n ≡ 0) ⊎ ((r' : Request Uri Head) → ¬ (Hop sent r r')))
  Ran zero sent r (r' ∷ hops) out = ⊥
  Ran (suc n) sent r (r' ∷ hops) out = Hop sent r r' × Ran n (sent ++ (r ∷ [])) r' hops out

  -- What an answer that may be a redirect says.
  abbrev Heard :
      List (Request Uri Head) → Request Uri Head → Result (EpoxyResponse Uri Head Content) → Type 0
  Heard sent r (err e) = request sent r ≡ err e
  Heard sent r (ok (success resp)) =
      (request sent r ≡ ok resp) × ((r' : Request Uri Head) → ¬ (Hop sent r r'))
  Heard sent r (ok (redirect resp r')) = (request sent r ≡ ok resp) × Hop sent r r'

  module _ (sent : List (Request Uri Head)) (r : Request Uri Head) (resp : Response Content)
      (answer : request sent r ≡ ok resp) where
    Hop-answer : (r' : Request Uri Head) (h : Hop sent r r') → h.resp ≡ resp
    Hop-answer r' h = cc (h.answer)

    Hop-header :
        (r' : Request Uri Head) (h : Hop sent r r')
        → get_first (resp.headers (codes "location")) ≡ some h.location
    Hop-header r' h =
        ap (λ (x : Response Content). get_first (x.headers (codes "location")))
          (sym (Hop-answer r' h))
        ∙ h.header

    Hop-status : (r' : Request Uri Head) (h : Hop sent r r') → is_redirect resp.status ≡ true
    Hop-status r' h =
        ap (λ (x : Response Content). is_redirect x.status) (sym (Hop-answer r' h)) ∙ h.status

    -- No redirect where the header has no target.
    not_target :
        (location : Payload) (x : EpoxyError)
        → get_first (resp.headers (codes "location")) ≡ some location
        → get_redirect deps r.uri location ≡ err x
        → (r' : Request Uri Head) → ¬ (Hop sent r r')
    not_target location x hl e r' h = cc (Hop-header r' h, h.target)

    not_located :
        get_first (resp.headers (codes "location")) ≡ none
        → (r' : Request Uri Head) → ¬ (Hop sent r r')
    not_located e r' h = cc (Hop-header r' h)

    not_status : is_redirect resp.status ≡ false → (r' : Request Uri Head) → ¬ (Hop sent r r')
    not_status e r' h = cc (Hop-status r' h)

    url-Heard :
        (location : Payload) (out : Result Uri)
        → should ≡ true
        → is_redirect resp.status ≡ true
        → get_first (resp.headers (codes "location")) ≡ some location
        → get_redirect deps r.uri location ≡ out
        → Heard sent r (ok (redirect_to deps resp r out))
    url-Heard location (ok url) s st hl e = (
      answer,
      record {
        resp = resp;
        location = location;
        url = url;
        follows = s;
        answer = answer;
        status = st;
        header = hl;
        target = e;
        next = refl;
      },
    )
    url-Heard location (err x) s st hl e = (answer, not_target location x hl e)

    location-Heard :
        (o : Option Payload)
        → should ≡ true
        → is_redirect resp.status ≡ true
        → get_first (resp.headers (codes "location")) ≡ o
        → Heard sent r (ok (redirect_at deps resp r o))
    unfolding get_redirect
    location-Heard none s st e = (answer, not_located e)
    location-Heard (some location) s st e =
        url-Heard location (get_redirect deps r.uri location) s st e refl

    status-Heard :
        (b : Bool)
        → should ≡ true
        → is_redirect resp.status ≡ b
        → Heard sent r (
            ok (
              if b
              then redirect_at deps resp r (get_first (resp.headers (codes "location")))
              else success resp))
    status-Heard true s e = location-Heard (get_first (resp.headers (codes "location"))) s e refl
    status-Heard false s e = (answer, not_status e)

  answered-Heard :
      (sent : List (Request Uri Head)) (r : Request Uri Head) (b : Bool)
      (out : Result (Response Content))
      → should ≡ b
      → request sent r ≡ out
      → Heard sent r (answered deps (if b then some r else none) out)
  unfolding is_redirect
  answered-Heard sent r b (err e) s h = h
  answered-Heard sent r true (ok resp) s h =
      status-Heard sent r resp h (is_redirect resp.status) s refl
  answered-Heard sent r false (ok resp) s h = (h, λ r' hop. cc (hop.follows))

  -- Whether the result says that it comes from another request.
  abbrev pub Marked : Bool → List (Request Uri Head) → Result (Answer Uri Content) → Type 0
  Marked before hops (err e) = Unit {0}
  Marked before [] (ok (resp, url, redirected)) = redirected ≡ before
  Marked before (r ∷ hops) (ok (resp, url, redirected)) = redirected ≡ true

  abbrev pub Done :
      ℕ
      → List (Request Uri Head)
      → Request Uri Head
      → Bool
      → Result (Answer Uri Content) × List (Request Uri Head)
      → Type 0
  Done n sent r before (out, log) =
      (hops : List (Request Uri Head)) × (log ≡ sent ++ (r ∷ hops))
      × (length hops ≤ n)
      × Ran n sent r hops out
      × Marked before hops out

  Done-hop :
      (n : ℕ) (sent : List (Request Uri Head)) (r r' : Request Uri Head) (before : Bool)
      → (out : Result (Answer Uri Content)) (log : List (Request Uri Head)) → Hop sent r r'
      → Done n (sent ++ (r ∷ [])) r' true (out, log)
      → Done (suc n) sent r before (out, log)
  Done-hop n sent r r' before (err e) log h (hops, el, hl, ran, m) =
      (r' ∷ hops, el ∙ append_assoc sent (r ∷ []) (r' ∷ hops), omega arith, (h, ran), tt)
  Done-hop n sent r r' before (ok a) log h ([], el, hl, ran, m) =
      (r' ∷ [], el ∙ append_assoc sent (r ∷ []) (r' ∷ []), omega arith, (h, ran), m)
  Done-hop n sent r r' before (ok a) log h (q ∷ hops, el, hl, ran, m) =
      (r' ∷ q ∷ hops, el ∙ append_assoc sent (r ∷ []) (r' ∷ q ∷ hops), omega arith, (h, ran), m)

  resume-Done :
      (n : ℕ) (sent : List (Request Uri Head)) (r : Request Uri Head) (before : Bool)
      → (out : Result (EpoxyResponse Uri Head Content)) → Heard sent r out
      → ((current : EpoxyResponse Uri Head Content)
          → Heard sent r (ok current)
          → Done n sent r before
              (follow deps request should n r.uri before current (sent ++ (r ∷ []))))
      → Done n sent r before
          (resume deps request (follow deps request should n r.uri before) (out, sent ++ (r ∷ [])))
  resume-Done n sent r before (err e) h rest = ([], refl, omega arith, h, tt)
  resume-Done n sent r before (ok current) h rest = rest current h

  follow-Done :
      (n : ℕ) (sent : List (Request Uri Head)) (r : Request Uri Head) (before : Bool)
      → (current : EpoxyResponse Uri Head Content) → Heard sent r (ok current)
      → Done n sent r before (follow deps request should n r.uri before current (sent ++ (r ∷ [])))
  unfolding follow send_req_inner
  follow-Done zero sent r before (success resp) (h, none_left) =
      ([], refl, omega arith, ((h, refl), inl refl), refl)
  follow-Done zero sent r before (redirect resp r') (h, hop) =
      ([], refl, omega arith, ((h, refl), inl refl), refl)
  follow-Done (suc n) sent r before (success resp) (h, none_left) =
      ([], refl, omega arith, ((h, refl), inr none_left), refl)
  follow-Done (suc n) sent r before (redirect resp r') (h, hop) =
      let sent' : List (Request Uri Head) = sent ++ (r ∷ []) in
      Done-hop n sent r r' before _ _ hop (
        resume-Done n sent' r' true
          (answered deps (if should then some r' else none) (request sent' r'))
          (answered-Heard sent' r' should (request sent' r') refl refl)
          (follow-Done n sent' r' true))

  -- The requests of a call: the first is the given one, and at most `redirect_limit` follow. Each of
  -- these is the one before at the URL that the answer to that redirects to, and is sent only if
  -- redirects are followed. The result is the answer to the last one, an error included, with its URL
  -- and whether any followed; it is no further redirect to follow unless the limit is reached.
  pub send_req-Done :
      (redirect_limit : ℕ) (req : Request Uri Head)
      → Done redirect_limit [] req false (send_req deps request redirect_limit req should)
  unfolding send_req send_req_inner
  send_req-Done redirect_limit req =
      resume-Done redirect_limit [] req false
        (answered deps (if should then some req else none) (request [] req))
        (answered-Heard [] req should (request [] req) refl refl)
        (follow-Done redirect_limit [] req false)
