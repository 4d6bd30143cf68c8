-- ===== src/Ws/Unfold/Pushed.antt =====
-- What a user of `AsyncIteratorTransportWrite` who keeps the rules of `Sink` sends.
use epoxy_tls.Base.{
  ℕ, zero, suc, ◌≡◌, ◌≢◌, ◌⊎◌, refl, sym, ◌∙◌, ap, inl, inr, Bool, true, false, List, [], ◌∷◌, ◌++◌,
  Option, none, some, WispError,
}
use mathlib.Core.Path.{fun_ext}
use epoxy_tls.Bytes.{Payload}
use epoxy_tls.Sink.Transport.{ready, pending}
use epoxy_tls.Ws.Unfold.{
  Res, waits, spent, Async, Called, gave, panicked, IteratorState, value, future, empty, WriteHalf,
  Sent, unfold_poll_flush, unfold_poll_ready, unfold_start_send, take_state, get_future,
  unfold_poll_close,
}

pub data Call : Type 0 where
  poll_ready : Call
  start_send : Payload → Call
  poll_flush : Call
  poll_close : Call

-- The half with what its user has seen: the payloads it has taken, whether `poll_ready` has said
-- that one may follow, the error, and whether `poll_close` has said that it is done.
pub record Writing (S C : Type 0) : Type 0 where
  pub half : WriteHalf S C
  pub accepted : List Payload
  pub may_send : Bool
  pub failed : Option WispError
  pub closed : Bool
  pub broke : Bool

-- The closing function is still to be called, or its future to be polled.
abbrev CanClose : {C : Type 0} → IteratorState C (Unit {0}) → Type 0
CanClose (value c) = Unit {0}
CanClose (future (waits n r)) = Unit {0}
CanClose (future spent) = ⊥
CanClose empty = ⊥

module _ {S : Type 0} where
  abbrev pub and_then : Res S → (S → Res S) → Res S
  and_then (inl e) f = inl e
  and_then (inr s) f = f s

  -- The half owes what the function gives for the payloads taken, or has reported its error. An error
  -- of the closing function leaves the state in place.
  abbrev pub Owes : IteratorState S S → Option WispError → Res S → Type 0
  Owes (value t) e out = out ≡ inr t
  Owes (future (waits n r)) none out = out ≡ r
  Owes (future (waits n r)) (some e) out = ⊥
  Owes (future spent) e out = ⊥
  Owes empty none out = ⊥
  Owes empty (some e) out = out ≡ inl e

  abbrev MaySend : Bool → IteratorState S S → Type 0
  MaySend false state = Unit {0}
  MaySend true (value t) = Unit {0}
  MaySend true (future f) = ⊥
  MaySend true empty = ⊥

  -- A half that can go on can be closed; one that is closed has no payload under way.
  abbrev CloseKept :
      {C : Type 0}
      → Bool
      → Option WispError
      → IteratorState S S
      → IteratorState C (Unit {0})
      → Type 0
  CloseKept false none state close_state = CanClose close_state
  CloseKept false (some e) state close_state = Unit {0}
  CloseKept true e (value t) close_state = Unit {0}
  CloseKept true e (future f) close_state = ⊥
  CloseKept true e empty close_state = ⊥

  and_then_assoc :
      (r : Res S) (f g : S → Res S) → and_then (and_then r f) g ≡ and_then r (λ t. and_then (f t) g)
  and_then_assoc (inl e) f g = refl
  and_then_assoc (inr s) f g = refl

  and_then-inr : (r : Res S) → and_then r inr ≡ r
  and_then-inr (inl e) = refl
  and_then-inr (inr s) = refl

module _ {S : Type 0} (func : S → Payload → Async S) where
  -- The function's output for each payload in turn, from the state that the one before left.
  abbrev pub pushed : S → List Payload → Res S
  pushed s [] = inr s
  pushed s (p ∷ ps) = and_then (func s p).1 (λ t. pushed t ps)

  pushed-push :
      (s : S) (ps : List Payload) (p : Payload)
      → pushed s (ps ++ (p ∷ [])) ≡ and_then (pushed s ps) (λ t. (func t p).1)
  pushed-push s [] p = and_then-inr (func s p).1
  pushed-push s (q ∷ ps) p =
      ap (and_then (func s q).1) (fun_ext (λ t. pushed-push t ps p))
      ∙ sym (and_then_assoc (func s q).1 (λ t. pushed t ps) (λ t. (func t p).1))

module _ {S C : Type 0} where
  abbrev pub writing : S → C → Writing S C
  writing s c = record {
    half = record { state = value s; close_state = value c };
    accepted = [];
    may_send = false;
    failed = none;
    closed = false;
    broke = false;
  }

  -- `may` is what a success says of sending.
  abbrev pub told : Writing S C → Bool → Sent × WriteHalf S C → Writing S C
  told r may (gave pending, h) = record r { half = h }
  told r may (gave (ready none), h) = record r { half = h; may_send = may }
  told r may (gave (ready (some e)), h) = record r { half = h; failed = some e }
  told r may (panicked, h) = record r { half = h; broke = true }

  abbrev pub ended : Writing S C → Sent × WriteHalf S C → Writing S C
  ended r (gave pending, h) = record r { half = h }
  ended r (gave (ready none), h) = record r { half = h; closed = true }
  ended r (gave (ready (some e)), h) = record r { half = h; failed = some e }
  ended r (panicked, h) = record r { half = h; broke = true }

  abbrev pub took : Writing S C → Payload → Called (Unit {0}) × WriteHalf S C → Writing S C
  took r p (gave u, h) = record r { half = h; accepted = r.accepted ++ (p ∷ []); may_send = false }
  took r p (panicked, h) = record r { half = h; broke = true }

  -- The payloads that were taken are all with the function, or it has failed.
  abbrev pub IsSettled : Writing S C → Type 0
  IsSettled r = (r.failed ≢ none) ⊎ ((t : S) × (r.half.state ≡ value t))

abbrev pub flushes : ℕ → List Call
flushes zero = []
flushes (suc n) = poll_flush ∷ flushes n

module _ {S C : Type 0} (func : S → Payload → Async S) (close : C → Async (Unit {0})) where
  abbrev send_if : Bool → Writing S C → Payload → Writing S C
  send_if true r p = took r p (unfold_start_send func r.half p)
  send_if false r p = r

  abbrev act_open : Bool → Option WispError → Writing S C → Call → Writing S C
  act_open true e r c = r
  act_open false (some e) r c = r
  act_open false none r poll_ready = told r true (unfold_poll_ready r.half)
  act_open false none r (start_send p) = send_if r.may_send r p
  act_open false none r poll_flush = told r r.may_send (unfold_poll_flush r.half)
  act_open false none r poll_close = ended r (unfold_poll_close close r.half)

  -- One call. A payload is sent only after a `poll_ready` that succeeded, and nothing is called
  -- after an error, nor after `poll_close` has said that it is done.
  abbrev pub act : Writing S C → Call → Writing S C
  act r c = act_open r.closed r.failed r c

  abbrev pub acts : Writing S C → List Call → Writing S C
  acts r [] = r
  acts r (c ∷ cs) = acts (act r c) cs

  abbrev Kept : S → Writing S C → Type 0
  Kept s r =
      (r.broke ≡ false)
      × Owes r.half.state r.failed (pushed func s r.accepted)
      × MaySend r.may_send r.half.state
      × CloseKept r.closed r.failed r.half.state r.half.close_state

  module _ (s : S) (accepted : List Payload) where
    abbrev at_state :
        IteratorState C (Unit {0})
        → IteratorState S S
        → Bool
        → Option WispError
        → Bool
        → Bool
        → Writing S C
    at_state close_state state may failed closed broke = record {
      half = record { state = state; close_state = close_state };
      accepted = accepted;
      may_send = may;
      failed = failed;
      closed = closed;
      broke = broke;
    }

    flush-Kept :
        (close_state : IteratorState C (Unit {0})) (n : ℕ) (out : Res S)
        → pushed func s accepted ≡ out
        → CanClose close_state
        → (b : Bool)
        → Kept s (
            told (at_state close_state (future (waits n out)) false none false false) b (
              unfold_poll_flush
                (record { state = future (waits n out); close_state = close_state })))
    unfolding unfold_poll_flush get_future
    flush-Kept close_state zero (inr t) e k true = (refl, e, tt, k)
    flush-Kept close_state zero (inr t) e k false = (refl, e, tt, k)
    flush-Kept close_state zero (inl x) e k b = (refl, e, tt, tt)
    flush-Kept close_state (suc n) out e k b = (refl, e, tt, k)

    -- A call of `poll_close` with nothing under way.
    close-Kept :
        (close_state : IteratorState C (Unit {0})) (t : S) (may : Bool)
        → pushed func s accepted ≡ inr t
        → CanClose close_state
        → Kept s (
            ended
              (at_state close_state (value t) may none false false)
              (unfold_poll_close close (record { state = value t; close_state = close_state })))
    unfolding unfold_poll_close unfold_poll_flush take_state get_future
    close-Kept (value c) t true e k = (refl, e, tt, tt)
    close-Kept (value c) t false e k = (refl, e, tt, tt)
    close-Kept (future (waits zero (inr u))) t true e k = (refl, e, tt, tt)
    close-Kept (future (waits zero (inr u))) t false e k = (refl, e, tt, tt)
    close-Kept (future (waits zero (inl x))) t true e k = (refl, e, tt, tt)
    close-Kept (future (waits zero (inl x))) t false e k = (refl, e, tt, tt)
    close-Kept (future (waits (suc n) r)) t true e k = (refl, e, tt, tt)
    close-Kept (future (waits (suc n) r)) t false e k = (refl, e, tt, tt)
    close-Kept (future spent) t may e k = absurd k
    close-Kept empty t may e k = absurd k

    -- A call of `poll_close` while a payload is under way.
    flush_close-Kept :
        (close_state : IteratorState C (Unit {0})) (n : ℕ) (out : Res S)
        → pushed func s accepted ≡ out
        → CanClose close_state
        → Kept s (
            ended (at_state close_state (future (waits n out)) false none false false) (
              unfold_poll_close close
                (record { state = future (waits n out); close_state = close_state })))
    unfolding unfold_poll_close unfold_poll_flush take_state get_future
    flush_close-Kept (value c) zero (inr t) e k = (refl, e, tt, tt)
    flush_close-Kept (future (waits zero (inr u))) zero (inr t) e k = (refl, e, tt, tt)
    flush_close-Kept (future (waits zero (inl x))) zero (inr t) e k = (refl, e, tt, tt)
    flush_close-Kept (future (waits (suc m) r)) zero (inr t) e k = (refl, e, tt, tt)
    flush_close-Kept (future spent) n out e k = absurd k
    flush_close-Kept empty n out e k = absurd k
    flush_close-Kept (value c) zero (inl x) e k = (refl, e, tt, tt)
    flush_close-Kept (future (waits m r)) zero (inl x) e k = (refl, e, tt, tt)
    flush_close-Kept (value c) (suc n) out e k = (refl, e, tt, k)
    flush_close-Kept (future (waits m r)) (suc n) out e k = (refl, e, tt, k)

    act-Kept :
        (close_state : IteratorState C (Unit {0})) (state : IteratorState S S) (may : Bool)
        (failed : Option WispError) (closed broke : Bool) (c : Call)
        → Kept s (at_state close_state state may failed closed broke)
        → Kept s (act (at_state close_state state may failed closed broke) c)
    unfolding unfold_poll_flush unfold_poll_ready unfold_start_send take_state get_future
    act-Kept q state may e true broke c h = h
    act-Kept q state may (some e) false broke c h = h
    act-Kept q (value t) may none false broke poll_ready (hb, h, m, k) = (hb, h, tt, k)
    act-Kept q (value t) may none false broke poll_flush (hb, h, m, k) = (hb, h, m, k)
    act-Kept q (value t) may none false broke poll_close (hb, h, m, k) =
        rw hb (close-Kept q t may h k)
    act-Kept q (value t) true none false broke (start_send p) (hb, h, m, k) =
        (hb, pushed-push func s accepted p ∙ ap (λ r. and_then r (λ u. (func u p).1)) h, tt, k)
    act-Kept q (value t) false none false broke (start_send p) h = h
    act-Kept q (future (waits n out)) true none false broke c (hb, h, m, k) = absurd m
    act-Kept q (future (waits n out)) false none false broke poll_ready (hb, h, m, k) =
        rw hb (flush-Kept q n out h k true)
    act-Kept q (future (waits n out)) false none false broke poll_flush (hb, h, m, k) =
        rw hb (flush-Kept q n out h k false)
    act-Kept q (future (waits n out)) false none false broke poll_close (hb, h, m, k) =
        rw hb (flush_close-Kept q n out h k)
    act-Kept q (future (waits n out)) false none false broke (start_send p) h = h
    act-Kept q (future spent) may none false broke c (hb, h, m, k) = absurd h
    act-Kept q empty may none false broke c (hb, h, m, k) = absurd h

  acts-Kept : (s : S) (r : Writing S C) (cs : List Call) → Kept s r → Kept s (acts r cs)
  acts-Kept s r [] h = h
  acts-Kept s r (c ∷ cs) h = acts-Kept s (act r c) cs (
      act-Kept s r.accepted r.half.close_state r.half.state r.may_send r.failed r.closed r.broke c
        h)

  module _ (s : S) (accepted : List Payload) (close_state : IteratorState C (Unit {0})) where
    waits-IsSettled :
        (n : ℕ) (out : Res S) (may broke : Bool)
        → IsSettled (
            acts
              (at_state s accepted close_state (future (waits n out)) may none false broke)
              (flushes (suc n)))
    unfolding unfold_poll_flush get_future
    waits-IsSettled zero (inr t) may broke = inr (t, refl)
    waits-IsSettled zero (inl x) may broke = inl (λ e. cc)
    waits-IsSettled (suc n) out may broke = waits-IsSettled n out may broke

    state-IsSettled :
        (state : IteratorState S S) (may : Bool) (failed : Option WispError) (closed broke : Bool)
        → Owes state failed (pushed func s accepted)
        → CloseKept closed failed state close_state
        → (n : ℕ) × IsSettled
            (acts (at_state s accepted close_state state may failed closed broke) (flushes n))
    state-IsSettled (value t) may e closed broke h k = (0, inr (t, refl))
    state-IsSettled (future (waits n out)) may none false broke h k =
        (suc n, waits-IsSettled n out may broke)
    state-IsSettled (future (waits n out)) may (some e) closed broke h k = absurd h
    state-IsSettled (future f) may none true broke h k = absurd k
    state-IsSettled (future spent) may e closed broke h k = absurd h
    state-IsSettled empty may none closed broke h k = absurd h
    state-IsSettled empty may (some e) closed broke h k = (0, inl (λ n. cc))

  -- In every order of `poll_ready`, `start_send`, `poll_flush` and `poll_close`, by a user who sends
  -- only after a successful `poll_ready` and stops at an error and once `poll_close` has succeeded:
  -- nothing panics; what the half owes, or the error of a write that it reported, is what the function
  -- gives for the payloads that were taken, in their order, each from the state that the one before
  -- left; and a number of flushes more settles it.
  pub acts_push :
      (s : S) (c : C) (cs : List Call)
      → let r = acts (writing s c) cs in
        (r.broke ≡ false)
        × Owes r.half.state r.failed (pushed func s r.accepted)
        × ((n : ℕ) × IsSettled (acts r (flushes n)))
  acts_push s c cs =
      let h : Kept s (acts (writing s c) cs) = acts-Kept s (writing s c) cs (refl, refl, tt, tt) in
      let r : Writing S C = acts (writing s c) cs in
      (
        h.0,
        h.1,
        state-IsSettled s r.accepted r.half.close_state r.half.state r.may_send r.failed r.closed
            r.broke h.1 h.3,
      )
