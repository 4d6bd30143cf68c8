-- ===== src/Ws/Unfold/Closed.antt =====
-- Closing an `AsyncIteratorTransportWrite`.
use epoxy_tls.Base.{ℕ, zero, suc, ◌≡◌, refl, ap, List, [], ◌∷◌, ◌++◌}
use epoxy_tls.Sink.Transport.{ready, pending}
use epoxy_tls.Ws.Unfold.{
  Res, waits, Async, gave, panicked, IteratorState, value, future, empty, WriteHalf, Sent,
  answer_of, unfold_poll_close,
}

abbrev pub times : ℕ → Sent → List Sent
times zero r = []
times (suc n) r = r ∷ times n r

module _ {S C : Type 0} (close : C → Async (Unit {0})) where
  abbrev after : Sent → List Sent × WriteHalf S C → List Sent × WriteHalf S C
  after r (rs, w) = (r ∷ rs, w)

  -- So many calls of `poll_close`, with their answers.
  abbrev pub closes : ℕ → WriteHalf S C → List Sent × WriteHalf S C
  closes zero w = ([], w)
  closes (suc n) w = let (r, w') = unfold_poll_close close w in after r (closes n w')

  -- Nothing is being sent.
  abbrev pub IsIdle : IteratorState S S → Type 0
  IsIdle (value t) = Unit {0}
  IsIdle (future f) = ⊥
  IsIdle empty = Unit {0}

  abbrev half : IteratorState S S → IteratorState C (Unit {0}) → WriteHalf S C
  half state close_state = record { state = state; close_state = close_state }

  closes-waits :
      (state : IteratorState S S) (n : ℕ) (r : Res (Unit {0}))
      → IsIdle state
      → closes (suc (suc n)) (half state (future (waits n r)))
        ≡ (times n (gave pending) ++ (gave (ready (answer_of r)) ∷ panicked ∷ []), half state empty)
  unfolding unfold_poll_close
  closes-waits (value t) zero r h = refl
  closes-waits empty zero r h = refl
  closes-waits (value t) (suc n) r h = ap (after (gave pending)) (closes-waits (value t) n r h)
  closes-waits empty (suc n) r h = ap (after (gave pending)) (closes-waits empty n r h)
  closes-waits (future f) n r h = absurd h

  -- A half that is sending nothing calls its closing function at the first `poll_close`, and answers
  -- nothing; then it answers nothing as long as that function takes, once what the function gives,
  -- and panics at any call after that. All the while it keeps the state of its sending function.
  pub closes_once :
      (state : IteratorState S S) (c : C)
      → IsIdle state
      → closes (suc (suc (suc (close c).0))) (record { state = state; close_state = value c }) ≡ (
        gave pending
            ∷ (times (close c).0 (gave pending)
                ++ (gave (ready (answer_of (close c).1)) ∷ panicked ∷ [])),
        record { state = state; close_state = empty },
      )
  unfolding unfold_poll_close
  closes_once (value t) c h =
      ap (after (gave pending)) (closes-waits (value t) (close c).0 (close c).1 h)
  closes_once empty c h = ap (after (gave pending)) (closes-waits empty (close c).0 (close c).1 h)
  closes_once (future f) c h = absurd h
