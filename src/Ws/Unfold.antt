-- ===== src/Ws/Unfold.antt =====
-- wisp/src/ws/unfold.rs: the two halves of a transport, each made from an asynchronous function that
-- takes a state and gives the next one.
pub mod Pulled
pub mod Pushed
pub mod Closed
use epoxy_tls.Base.{ℕ, zero, suc, ◌⊎◌, inl, inr, Option, none, some, WispError}
use epoxy_tls.Bytes.{Payload}
use epoxy_tls.Sink.Transport.{Poll, ready, pending}

-- A `Result` with the crate's error.
abbrev pub Res : Type 0 → Type 0
Res A = WispError ⊎ A

-- A future is what its polls give: nothing for some polls, then its output. A future that has given
-- its output is not to be polled again; that of an asynchronous function panics.
pub data Fut (A : Type 0) : Type 0 where
  waits : ℕ → Res A → Fut A
  spent : Fut A

-- What a call of an asynchronous function makes: the polls before its output, and that.
abbrev pub Async : Type 0 → Type 0
Async A = ℕ × Res A

abbrev pub call : {A : Type 0} → Async A → Fut A
call (n, r) = waits n r

-- A call that may panic.
pub data Called (A : Type 0) : Type 0 where
  gave : A → Called A
  panicked : Called A

pub data IteratorState (S A : Type 0) : Type 0 where
  value : S → IteratorState S A
  future : Fut A → IteratorState S A
  empty : IteratorState S A

module _ {S A : Type 0} where
  unfoldable pub take_state : IteratorState S A → Option S × IteratorState S A
  take_state (value s) = (some s, empty)
  take_state (future f) = (none, future f)
  take_state empty = (none, empty)

  unfoldable pub get_future : IteratorState S A → Option (Fut A)
  get_future (value s) = none
  get_future (future f) = some f
  get_future empty = none

abbrev pub poll_future : {A : Type 0} → Fut A → Called (Poll (Res A)) × Fut A
poll_future (waits zero r) = (gave (ready r), spent)
poll_future (waits (suc n) r) = (gave pending, waits n r)
poll_future spent = (panicked, spent)

-- What a poll of the reading half gives; `none` is the end.
abbrev pub Polled : Type 0
Polled = Called (Poll (Option (Res Payload)))

-- The read half is its function and `state`.
module _ {S : Type 0} (func : S → Async (Option (Payload × S))) where
  abbrev pub ReadState : Type 0
  ReadState = IteratorState S (Option (Payload × S))

  abbrev pub started : Option S × ReadState → ReadState
  started (some s, rest) = future (call (func s))
  started (none, state) = state

  -- The `match` on the output; a future that is spent stays in place.
  abbrev pub output :
      Called (Poll (Res (Option (Payload × S)))) × Fut (Option (Payload × S)) → Polled × ReadState
  output (gave (ready (inr (some (payload, s)))), f) = (gave (ready (some (inr payload))), value s)
  output (gave (ready (inr none)), f) = (gave (ready none), future f)
  output (gave (ready (inl e)), f) = (gave (ready (some (inl e))), future f)
  output (gave pending, f) = (gave pending, future f)
  output (panicked, f) = (panicked, future f)

  abbrev pub polled : ReadState → Option (Fut (Option (Payload × S))) → Polled × ReadState
  polled state (some f) = output (poll_future f)
  polled state none = (panicked, state)

  unfoldable pub read_poll_next : ReadState → Polled × ReadState
  unfolding take_state get_future
  read_poll_next state =
      let state' = started (take_state state) in polled state' (get_future state')

-- The write half; `C` is the state of its closing function.
pub record WriteHalf (S C : Type 0) : Type 0 where
  pub state : IteratorState S S
  pub close_state : IteratorState C (Unit {0})

-- `none` is `Ok(())`.
abbrev pub Sent : Type 0
Sent = Called (Poll (Option WispError))

abbrev pub answer_of : Res (Unit {0}) → Option WispError
answer_of (inl e) = some e
answer_of (inr u) = none

module _ {S C : Type 0} where
  abbrev pub flush_output : WriteHalf S C → Called (Poll (Res S)) × Fut S → Sent × WriteHalf S C
  flush_output w (gave (ready (inr s)), f) = (gave (ready none), record w { state = value s })
  flush_output w (gave (ready (inl e)), f) = (gave (ready (some e)), record w { state = empty })
  flush_output w (gave pending, f) = (gave pending, record w { state = future f })
  flush_output w (panicked, f) = (panicked, record w { state = future f })

  abbrev pub flush_future : WriteHalf S C → Option (Fut S) → Sent × WriteHalf S C
  flush_future w (some f) = flush_output w (poll_future f)
  flush_future w none = (gave (ready none), w)

  unfoldable pub unfold_poll_flush : WriteHalf S C → Sent × WriteHalf S C
  unfolding get_future
  unfold_poll_flush w = flush_future w (get_future w.state)

  unfoldable pub unfold_poll_ready : WriteHalf S C → Sent × WriteHalf S C
  unfolding unfold_poll_flush
  unfold_poll_ready w = unfold_poll_flush w

  module _ (func : S → Payload → Async S) where
    abbrev pub sending :
        WriteHalf S C → Payload → Option S × IteratorState S S → Called (Unit {0}) × WriteHalf S C
    sending w item (some s, rest) = (gave tt, record w { state = future (call (func s item)) })
    sending w item (none, state) = (panicked, record w { state = state })

    unfoldable pub unfold_start_send : WriteHalf S C → Payload → Called (Unit {0}) × WriteHalf S C
    unfolding take_state
    unfold_start_send w item = sending w item (take_state w.state)

  module _ (close : C → Async (Unit {0})) where
    abbrev pub close_output :
        WriteHalf S C → Called (Poll (Res (Unit {0}))) × Fut (Unit {0}) → Sent × WriteHalf S C
    close_output w (gave (ready r), f) =
        (gave (ready (answer_of r)), record w { close_state = empty })
    close_output w (gave pending, f) = (gave pending, record w { close_state = future f })
    close_output w (panicked, f) = (panicked, record w { close_state = future f })

    -- The closing function is called, and its future is not polled yet.
    abbrev pub close_value :
        WriteHalf S C → Option C × IteratorState C (Unit {0}) → Sent × WriteHalf S C
    close_value w (some c, rest) =
        (gave pending, record w { close_state = future (call (close c)) })
    close_value w (none, state) = (panicked, record w { close_state = state })

    abbrev pub close_future : WriteHalf S C → Option (Fut (Unit {0})) → Sent × WriteHalf S C
    unfolding take_state
    close_future w (some f) = close_output w (poll_future f)
    close_future w none = close_value w (take_state w.close_state)

    abbrev pub close_flushed : Sent × WriteHalf S C → Sent × WriteHalf S C
    unfolding get_future
    close_flushed (gave (ready none), w) = close_future w (get_future w.close_state)
    close_flushed (r, w) = (r, w)

    unfoldable pub unfold_poll_close : WriteHalf S C → Sent × WriteHalf S C
    unfolding unfold_poll_flush take_state get_future
    unfold_poll_close w = close_flushed (unfold_poll_flush w)
