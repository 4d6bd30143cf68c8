-- ===== src/Sink/Waiter.antt =====
-- wisp/src/locked_sink.rs: `Waiter`, the waker of a task that sleeps. A task's waker is a number.
use epoxy_tls.Base.{ℕ, Option, none, some}

pub data Waiter : Type 0 where
  sleeping : ℕ → Waiter
  woken : Waiter

unfoldable pub waiter_new : ℕ → Waiter
waiter_new cx = sleeping cx

unfoldable pub waiter_register : Waiter → ℕ → Waiter
waiter_register (sleeping x) cx = sleeping cx
waiter_register woken cx = sleeping cx

-- The waker to wake, and the waiter after the call.
unfoldable pub waiter_wake : Waiter → Option ℕ × Waiter
waiter_wake (sleeping x) = (some x, woken)
waiter_wake woken = (none, woken)
