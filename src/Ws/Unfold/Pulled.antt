-- ===== src/Ws/Unfold/Pulled.antt =====
-- What the polls of `AsyncIteratorTransportRead` give, all together.
use epoxy_tls.Base.{
  ℕ, zero, suc, ◌≡◌, ◌≢◌, ◌⊎◌, refl, sym, inl, inr, Bool, true, false, List, [], ◌∷◌, ◌++◌, Option,
  none, some, WispError,
}
use mathlib.Core.Path.{subst}
use epoxy_tls.Bytes.{Payload}
use epoxy_tls.Sink.Transport.{ready, pending}
use epoxy_tls.Ws.Unfold.{
  Res, waits, spent, Async, gave, panicked, value, future, empty, Polled, ReadState, read_poll_next,
  take_state, get_future,
}

module _ {S : Type 0} (func : S → Async (Option (Payload × S))) where
  -- The half with what it has given so far: the payloads, and its end or the error.
  pub record Reading : Type 0 where
    pub state : ReadState func
    pub got : List Payload
    pub ended : Option (Option WispError)
    pub broke : Bool

  abbrev pub reading : S → Reading
  reading s = record { state = value s; got = []; ended = none; broke = false }

  abbrev pub observe : Reading → Polled × ReadState func → Reading
  observe r (gave pending, s) = record r { state = s }
  observe r (gave (ready none), s) = record r { state = s; ended = some none }
  observe r (gave (ready (some (inl e))), s) = record r { state = s; ended = some (some e) }
  observe r (gave (ready (some (inr p))), s) = record r { state = s; got = r.got ++ (p ∷ []) }
  observe r (panicked, s) = record r { state = s; broke = true }

  abbrev poll_open : Option (Option WispError) → Reading → Reading
  poll_open none r = observe r (read_poll_next func r.state)
  poll_open (some e) r = r

  -- So many polls by a user who stops at the end or an error.
  abbrev pub polls : ℕ → Reading → Reading
  polls zero r = r
  polls (suc k) r = polls k (poll_open r.ended r)

  -- From the state `s`, the function's outputs in turn are the payloads, and then the state is `t`.
  abbrev pub Pulls : S → List Payload → S → Type 0
  Pulls s [] t = s ≡ t
  Pulls s (p ∷ ps) t = (u : S) × ((func s).1 ≡ inr (some (p, u))) × Pulls u ps t

  -- How the half stands to the state that the function is called with next.
  abbrev pub Waits : S → ReadState func → Option (Option WispError) → Type 0
  Waits t (value s) none = s ≡ t
  Waits t (future (waits n r)) none = (func t).1 ≡ r
  Waits t (future spent) none = ⊥
  Waits t empty none = ⊥
  Waits t state (some none) = (func t).1 ≡ inr none
  Waits t state (some (some e)) = (func t).1 ≡ inl e

  Pulls-push :
      (s t u : S) (ps : List Payload) (p : Payload)
      → Pulls s ps t
      → (func t).1 ≡ inr (some (p, u))
      → Pulls s (ps ++ (p ∷ [])) u
  Pulls-push s t u [] p h e = (u, rw h e, refl)
  Pulls-push s t u (q ∷ ps) p (v, hq, h) e = (v, hq, Pulls-push v t u ps p h e)

  -- What a half that has not ended keeps: nothing broke, and the payloads are the function's.
  abbrev Kept : S → Reading → Type 0
  Kept s r = (r.broke ≡ false) × ((t : S) × Pulls s r.got t × Waits t r.state r.ended)

  poll-output :
      (s t : S) (r : Reading) (n : ℕ) (out : Res (Option (Payload × S)))
      → r.broke ≡ false
      → r.ended ≡ none
      → Pulls s r.got t
      → (func t).1 ≡ out
      → Kept s (observe r (read_poll_next func (future (waits n out))))
  unfolding read_poll_next take_state get_future
  poll-output s t r zero (inr (some (p, u))) hb he h e =
      (hb, (u, Pulls-push s t u r.got p h e, rw he refl))
  poll-output s t r zero (inr none) hb he h e = (hb, (t, h, e))
  poll-output s t r zero (inl x) hb he h e = (hb, (t, h, e))
  poll-output s t r (suc n) out hb he h e = (hb, (t, h, rw he e))

  parts-Kept :
      (s : S) (state : ReadState func) (got : List Payload) (ended : Option (Option WispError))
      → (broke : Bool)
      → let r : Reading = record { state = state; got = got; ended = ended; broke = broke } in
        Kept s r → Kept s (poll_open ended r)
  unfolding read_poll_next take_state get_future
  parts-Kept s (value u) got none broke (hb, (t, h, w)) =
      poll-output s u (record { state = value u; got = got; ended = none; broke = broke })
        (func u).0 (func u).1 hb refl (subst (Pulls s got) (sym w) h) refl
  parts-Kept s (future (waits n out)) got none broke (hb, (t, h, w)) =
      poll-output s t
        (record { state = future (waits n out); got = got; ended = none; broke = broke }) n out hb
        refl h w
  parts-Kept s (future spent) got none broke (hb, (t, h, w)) = absurd w
  parts-Kept s empty got none broke (hb, (t, h, w)) = absurd w
  parts-Kept s state got (some e) broke h = h

  polls-Kept : (s : S) (k : ℕ) (r : Reading) → Kept s r → Kept s (polls k r)
  polls-Kept s zero r h = h
  polls-Kept s (suc k) r h =
      polls-Kept s k (poll_open r.ended r) (parts-Kept s r.state r.got r.ended r.broke h)

  -- One more payload than before, or the end.
  abbrev pub Moved : Reading → Reading → Type 0
  Moved r r' = (r'.ended ≢ none) ⊎ ((p : Payload) × (r'.got ≡ r.got ++ (p ∷ [])))

  output-Moved :
      (r : Reading) (out : Res (Option (Payload × S)))
      → Moved r (observe r (read_poll_next func (future (waits 0 out))))
  unfolding read_poll_next take_state get_future
  output-Moved r (inr (some (p, u))) = inr (p, refl)
  output-Moved r (inr none) = inl (λ e. cc)
  output-Moved r (inl x) = inl (λ e. cc)

  waits-Moved :
      (n : ℕ) (out : Res (Option (Payload × S))) (got : List Payload) (broke : Bool)
      → let r : Reading = record {
        state = future (waits n out);
        got = got;
        ended = none;
        broke = broke;
      } in
        Moved r (polls (suc n) r)
  unfolding read_poll_next take_state get_future
  waits-Moved zero out got broke =
      output-Moved (record { state = future (waits 0 out); got = got; ended = none; broke = broke })
        out
  waits-Moved (suc n) out got broke = waits-Moved n out got broke

  -- What a half that has not ended is about to do.
  abbrev pub Goes : Reading → Type 0
  Goes r = (r.ended ≢ none) ⊎ ((n : ℕ) × Moved r (polls (suc n) r))

  value-Moved :
      (u : S) (got : List Payload) (broke : Bool)
      → let r : Reading = record { state = value u; got = got; ended = none; broke = broke } in
        Moved r (polls (suc (func u).0) r)
  unfolding read_poll_next take_state get_future
  value-Moved u got broke = waits-Moved (func u).0 (func u).1 got broke

  parts-Goes :
      (s : S) (state : ReadState func) (got : List Payload) (ended : Option (Option WispError))
      → (broke : Bool)
      → let r : Reading = record { state = state; got = got; ended = ended; broke = broke } in
        Kept s r → Goes r
  parts-Goes s (value u) got none broke h = inr ((func u).0, value-Moved u got broke)
  parts-Goes s (future (waits n out)) got none broke h = inr (n, waits-Moved n out got broke)
  parts-Goes s (future spent) got none broke (hb, (t, h, w)) = absurd w
  parts-Goes s empty got none broke (hb, (t, h, w)) = absurd w
  parts-Goes s state got (some e) broke h = inl (λ n. cc)

  -- However often the half is polled from the state `s` on, until it ends: it does not panic; what
  -- it has given is what the function gives in turn, each call from the state that the call before
  -- left; it ends as the function does; and if it has not ended, a number of further polls gives one
  -- payload more or the end.
  pub polls_pull :
      (s : S) (k : ℕ)
      → let r = polls k (reading s) in
        (r.broke ≡ false) × ((t : S) × Pulls s r.got t × Waits t r.state r.ended) × Goes r
  polls_pull s k =
      let h : Kept s (polls k (reading s)) = polls-Kept s k (reading s) (refl, (s, refl, refl)) in
      let r = polls k (reading s) in (h.0, h.1, parts-Goes s r.state r.got r.ended r.broke h)
