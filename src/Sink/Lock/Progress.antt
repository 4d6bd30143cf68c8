-- ===== src/Sink/Lock/Progress.antt =====
-- What one poll of the lock does, and whom an unlock wakes.
use epoxy_tls.Base.{
  ℕ, ◌≡◌, ◌⊎◌, inl, inr, refl, arith, true, false, Bool-cases, none, some, Option-cases, ok, lookup,
}
use epoxy_tls.Sink.Transport.{ready, pending}
use epoxy_tls.Sink.Waiter.{Waiter, sleeping, woken, waiter_new, waiter_register}
use epoxy_tls.Sink.Lock.{
  Slab, WakerList, SinkState, LockedSink, state_lock, first_try, second_try, poll_lock,
}

register-sleeping : (w : Waiter) (cx : ℕ) → waiter_register w cx ≡ sleeping cx
unfolding waiter_register
register-sleeping (sleeping x) cx = refl
register-sleeping woken cx = refl

module _ ⦃slab : Slab⦄ where
  -- The place of the handle in the list of waiters is one.
  abbrev pub IsPlaced : SinkState → LockedSink → Type 0
  IsPlaced s h = (k : ℕ) → h.pos ≡ some k → (w : Waiter) × (lookup k s.waiters ≡ some w)

  -- A handle that waits is in the list, with the task of its last poll asleep.
  abbrev pub IsQueued : SinkState → LockedSink → ℕ → Type 0
  IsQueued s h cx = (k : ℕ) × (h.pos ≡ some k) × (lookup k s.waiters ≡ some (sleeping cx))

  lookup-set :
      (l : WakerList) (k cx : ℕ) (w : Waiter)
      → lookup k l ≡ some w
      → lookup k (slab.set l k (waiter_register w cx)) ≡ some (sleeping cx)
  lookup-set l k cx w e =
      ground (arith, slab.set_lem l k k w (waiter_register w cx), register-sleeping w cx)

  poll_lock_queued :
      (s : SinkState) (h : LockedSink) (cx k : ℕ) (w : Waiter)
      → h.holds ≡ false
      → s.locked ≡ true
      → h.pos ≡ some k
      → lookup k s.waiters ≡ some w
      → (s' : SinkState) × (poll_lock s h cx ≡ ok (pending, h, s'))
        × (s'.locked ≡ true)
        × (lookup k s'.waiters ≡ some (sleeping cx))
  unfolding poll_lock first_try second_try state_lock
  poll_lock_queued s h cx k w f l p e =
      let once = slab.set s.waiters k (waiter_register w cx) in
      let e' = lookup-set s.waiters k cx w e in
      let twice = slab.set once k (waiter_register (sleeping cx) cx) in
      (
        record s { waiters = twice },
        rw (f, l, p, e, e') refl,
        l,
        lookup-set once k cx (sleeping cx) e',
      )

  poll_lock_joined :
      (s : SinkState) (h : LockedSink) (cx : ℕ)
      → h.holds ≡ false
      → s.locked ≡ true
      → h.pos ≡ none
      → (k : ℕ) × (s' : SinkState) × (poll_lock s h cx
          ≡ ok (pending, record h { pos = some k }, s'))
        × (s'.locked ≡ true)
        × (lookup k s'.waiters ≡ some (sleeping cx))
  unfolding poll_lock first_try second_try state_lock waiter_new
  poll_lock_joined s h cx f l p =
      let (k, once) = slab.insert s.waiters (waiter_new cx) in
      let e : lookup k once ≡ some (sleeping cx) =
        ground (arith, slab.insert_lem s.waiters (sleeping cx) k) in
      let twice = slab.set once k (waiter_register (sleeping cx) cx) in
      (
        k,
        record s { waiters = twice },
        rw (f, l, p, e) refl,
        l,
        lookup-set once k cx (sleeping cx) e,
      )

  poll_lock_free :
      (s : SinkState) (h : LockedSink) (cx : ℕ)
      → IsPlaced s h
      → h.holds ≡ false
      → s.locked ≡ false
      → (l : WakerList) × (poll_lock s h cx
          ≡ ok (
            ready tt,
            record { pos = none; holds = true },
            record { locked = true; waiters = l },
          ))
  unfolding poll_lock first_try second_try state_lock
  poll_lock_free s h cx v f l = elim (Option-cases h.pos) [
    | inl p ↦ (s.waiters, rw (f, l, p) refl)
    | inr (k, p) ↦
        let (w, e) = v k p in
        let (l', r, _) = slab.remove_lem s.waiters k w e in (l', rw (f, l, p, r) refl)
  ]

  -- A poll by a handle that does not have the lock never panics. If the lock is free, the handle
  -- has it then and is in no list; if not, the handle waits, and is in the list with its task asleep.
  pub poll_lock_lem :
      (s : SinkState) (h : LockedSink) (cx : ℕ)
      → IsPlaced s h
      → h.holds ≡ false
      → (h' : LockedSink) × (s' : SinkState) × (s'.locked ≡ true)
        × (((s.locked ≡ false)
              × (poll_lock s h cx ≡ ok (ready tt, h', s'))
              × (h' ≡ record { pos = none; holds = true }))
            ⊎ ((s.locked ≡ true)
                × (poll_lock s h cx ≡ ok (pending, h', s'))
                × (h'.holds ≡ false)
                × IsQueued s' h' cx))
  poll_lock_lem s h cx v f = elim (Bool-cases s.locked) [
    | inr open' ↦
        let (l, e) = poll_lock_free s h cx v f open' in
        (
          record { pos = none; holds = true },
          record { locked = true; waiters = l },
          refl,
          inl (open', e, refl),
        )
    | inl full ↦ elim (Option-cases h.pos) [
      | inl p ↦
          let (k, s', e, t, q) = poll_lock_joined s h cx f full p in
          (record h { pos = some k }, s', t, inr (full, e, f, (k, refl, q)))
      | inr (k, p) ↦
          let (w, e) = v k p in
          let (s', e', t, q) = poll_lock_queued s h cx k w f full p e in
          (h, s', t, inr (full, e', f, (k, p, q)))
    ]
  ]
