-- ===== src/Sink/Lock.antt =====
-- wisp/src/locked_sink.rs: the lock on the write half of the transport. A slab is the list of its
-- entries, in the order of its iterator; atomic operations and the mutex of the waiters are single
-- steps.
pub mod Exclusion
pub mod Progress
use epoxy_tls.Base.{
  ℕ, ◌≡◌, ◌≢◌, ◌==◌, if◌then◌else◌, Bool, true, false, List, [], ◌∷◌, ◌++◌, map, lookup, Option,
  none, some, Outcome, ok, err, panic, diverge, ◌>>=◌, or_panic,
}
use epoxy_tls.Sink.Transport.{Poll, ready, pending}
use epoxy_tls.Sink.Waiter.{Waiter, waiter_new, waiter_register, waiter_wake}

abbrev pub WakerList : Type 0
WakerList = List (ℕ × Waiter)

-- The `slab` crate. `none` is a panic on a key with no entry.
pub record Slab : Type 0 where
  pub insert : WakerList → Waiter → ℕ × WakerList
  pub remove : WakerList → ℕ → Option WakerList
  pub set : WakerList → ℕ → Waiter → WakerList
  -- An entry is inserted under a key that was vacant, and removing takes one entry away.
  pub insert_vacant : (l : WakerList) (w : Waiter) → lookup (insert l w).0 l ≡ none
  pub insert_lem :
      (l : WakerList) (w : Waiter) (k : ℕ)
      → lookup k (insert l w).1 ≡ (if (insert l w).0 == k then some w else lookup k l)
  pub remove_lem :
      (l : WakerList) (k : ℕ) (w : Waiter)
      → lookup k l ≡ some w
      → (l' : WakerList) × (remove l k ≡ some l')
        × ((j : ℕ) → lookup j l' ≡ (if k == j then none else lookup j l))
  pub set_lem :
      (l : WakerList) (k j : ℕ) (w w' : Waiter)
      → lookup k l ≡ some w
      → lookup j (set l k w') ≡ (if k == j then some w' else lookup j l)

pub data LockStatus : Type 0 where
  joined : ℕ → LockStatus
  waiting unlocked : LockStatus

pub record SinkState : Type 0 where
  pub locked : Bool
  pub waiters : WakerList

-- A handle; the state that it shares with the others is apart.
pub record LockedSink : Type 0 where
  pub pos : Option ℕ
  pub holds : Bool

unfoldable pub sink_state_new : SinkState
sink_state_new = record { locked = false; waiters = [] }

unfoldable pub locked_sink_new : LockedSink
locked_sink_new = record { pos = none; holds = false }

-- `Clone`: a handle of the same state that holds nothing.
unfoldable pub locked_sink_clone : LockedSink → LockedSink
locked_sink_clone h = record { pos = none; holds = false }

-- `get_next`: the first waiter that sleeps is woken.
abbrev pub woken_first :
    ℕ → Option ℕ × Waiter → Option ℕ × WakerList → WakerList → Option ℕ × WakerList
woken_first k (some cx, w) later l = (some cx, (k, w) ∷ l)
woken_first k (none, w) (r, l') l = (r, (k, w) ∷ l')

unfoldable pub get_next : WakerList → Option ℕ × WakerList
unfolding waiter_wake
get_next [] = (none, [])
get_next ((k, w) ∷ l) = woken_first k (waiter_wake w) (get_next l) l

-- The task that is woken, beside the state.
unfoldable pub state_unlock : SinkState → Option ℕ × SinkState
unfolding get_next
state_unlock s =
    let (waker, waiters) = get_next s.waiters in
    (waker, record { locked = false; waiters = waiters })

-- `unlock` of a handle, which is also what dropping it does.
unfoldable pub sink_unlock : SinkState → LockedSink → LockedSink × SinkState
unfolding state_unlock
sink_unlock s h = if h.holds then (record h { holds = false }, (state_unlock s).1) else (h, s)

-- `get_guard` and `get_handle`: the lock passes to the guard.
unfoldable pub get_guard : LockedSink → LockedSink
get_guard h = record h { holds = false }

module _ ⦃slab : Slab⦄ where
  abbrev pub update : WakerList → ℕ → ℕ → Option Waiter → Outcome WakerList
  update l key cx none = panic
  update l key cx (some w) = ok (slab.set l key (waiter_register w cx))

  abbrev pub enqueue : SinkState → Option ℕ → ℕ → Outcome (LockStatus × SinkState)
  enqueue s (some key) cx =
      update s.waiters key cx (lookup key s.waiters) >>= λ l. ok (waiting, record s { waiters = l })
  enqueue s none cx =
      let (key, l) = slab.insert s.waiters (waiter_new cx) in
      ok (joined key, record s { waiters = l })

  -- `swap(true)`, and what the old value calls for.
  unfoldable pub state_lock : SinkState → Option ℕ → ℕ → Outcome (LockStatus × SinkState)
  state_lock s key cx =
      if s.locked then enqueue s key cx else ok (unlocked, record s { locked = true })

  abbrev pub acquired : LockedSink → SinkState → WakerList → Bool × LockedSink × SinkState
  acquired h s l = (true, record { pos = none; holds = true }, record s { waiters = l })

  -- The lock is this handle's now; its place in the list of waiters is given up.
  abbrev pub acquire : SinkState → LockedSink → Option ℕ → Outcome (Bool × LockedSink × SinkState)
  acquire s h none = ok (true, record h { holds = true }, s)
  acquire s h (some key) = or_panic (slab.remove s.waiters key) >>= λ l. ok (acquired h s l)

  abbrev pub tried : LockedSink → LockStatus × SinkState → Outcome (Bool × LockedSink × SinkState)
  tried h (joined key, s) = ok (false, record h { pos = some key }, s)
  tried h (waiting, s) = ok (false, h, s)
  tried h (unlocked, s) = acquire s h h.pos

  -- The first call of `lock` in `poll_lock`, beside whether the handle holds the lock after it.
  unfoldable pub first_try : SinkState → LockedSink → ℕ → Outcome (Bool × LockedSink × SinkState)
  unfolding state_lock
  first_try s h cx =
      let result = state_lock s h.pos cx >>= tried h in if h.holds then ok (true, h, s) else result

  abbrev pub tried_again :
      LockedSink → LockStatus × SinkState → Outcome (Bool × LockedSink × SinkState)
  tried_again h (joined key, s) = ok (false, h, s)
  tried_again h (waiting, s) = ok (false, h, s)
  tried_again h (unlocked, s) = acquire s h h.pos

  -- The second call, in case an unlock came before the handle was in the list.
  unfoldable pub second_try : SinkState → LockedSink → ℕ → Outcome (Bool × LockedSink × SinkState)
  unfolding state_lock
  second_try s h cx = state_lock s h.pos cx >>= tried_again h

  abbrev pub polled_lock : Bool × LockedSink × SinkState → Poll (Unit {0}) × LockedSink × SinkState
  polled_lock (true, h, s) = (ready tt, h, s)
  polled_lock (false, h, s) = (pending, h, s)

  -- A poll that no other task interrupts.
  unfoldable pub poll_lock :
      SinkState → LockedSink → ℕ → Outcome (Poll (Unit {0}) × LockedSink × SinkState)
  unfolding first_try second_try
  poll_lock s h cx = do
    (done, h', s') ← first_try s h cx
    r ← if done then ok (true, h', s') else second_try s' h' cx
    ok (polled_lock r)
