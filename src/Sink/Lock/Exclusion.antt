-- ===== src/Sink/Lock/Exclusion.antt =====
-- At most one handle or guard has the transport, in every order of the tasks' steps.
use epoxy_tls.Base.{
  ℕ, suc, ◌+◌, ◌≡◌, ◌⊎◌, inl, inr, refl, arith, Bool, true, false, Bool-cases, List, [], ◌∷◌, ◌++◌,
  Option, none, some, Option-cases, ok, panic, or_panic, bind-ok, lookup,
}
use epoxy_tls.Sink.Waiter.{waiter_new, waiter_register}
use epoxy_tls.Sink.Lock.{
  Slab, WakerList, SinkState, LockedSink, joined, waiting, sink_state_new, locked_sink_new,
  locked_sink_clone, state_lock, state_unlock, sink_unlock, get_guard, first_try, second_try,
  acquire, enqueue,
}

abbrev pub count : Bool → ℕ
count true = 1
count false = 0

-- How many handles have the lock.
abbrev pub holders : List LockedSink → ℕ
holders [] = 0
holders (h ∷ hs) = count h.holds + holders hs

holders-append : (xs ys : List LockedSink) → holders (xs ++ ys) ≡ holders xs + holders ys
holders-append [] ys = omega arith
holders-append (x ∷ xs) ys = omega (arith, holders-append xs ys)

-- The lock did not move, or it was free and is the handle's now.
abbrev Moves : SinkState → LockedSink → Bool × LockedSink × SinkState → Type 0
Moves s h (done, h', s') =
    ((h'.holds ≡ h.holds) × (s'.locked ≡ s.locked))
    ⊎ ((s.locked ≡ false) × (h'.holds ≡ true) × (s'.locked ≡ true))

module _ ⦃slab : Slab⦄ where
  acquire-holds :
      (s : SinkState) (h : LockedSink) (pos : Option ℕ) {r : Bool × LockedSink × SinkState}
      → acquire s h pos ≡ ok r
      → (r.1.holds ≡ true) × (r.2.locked ≡ s.locked)
  acquire-holds s h none e = ground arith
  acquire-holds s h (some key) e =
      let (l, _, e') = bind-ok (or_panic (slab.remove s.waiters key)) _ e in ground arith

  enqueue_cases :
      (s : SinkState) (key : Option ℕ) (cx : ℕ)
      → (enqueue s key cx ≡ panic)
        ⊎ ((l : WakerList) × (enqueue s key cx ≡ ok (waiting, record s { waiters = l })))
        ⊎ ((k : ℕ) × (l : WakerList) × (enqueue s key cx ≡ ok (joined k, record s { waiters = l })))
  enqueue_cases s none cx =
      let (key, l) = slab.insert s.waiters (waiter_new cx) in inr (inr (key, l, refl))
  enqueue_cases s (some key) cx = elim (Option-cases (lookup key s.waiters)) [
    | inl e ↦ inl (rw e refl)
    | inr (w, e) ↦ inr (inl (slab.set s.waiters key (waiter_register w cx), rw e refl))
  ]

  first_try-Moves :
      (s : SinkState) (h : LockedSink) (cx : ℕ) (r : Bool × LockedSink × SinkState)
      → first_try s h cx ≡ ok r
      → Moves s h r
  unfolding first_try state_lock
  first_try-Moves s h cx r e = elim (Bool-cases h.holds) [
    | inl held ↦ ground arith
    | inr free ↦ elim (Bool-cases s.locked) [
      | inl full ↦ ground (arith, enqueue_cases s h.pos cx)
      | inr open' ↦
          let a : acquire (record s { locked = true }) h h.pos ≡ ok r = ground arith in
          let (x, y) = acquire-holds (record s { locked = true }) h h.pos a in inr (open', x, y)
    ]
  ]

  second_try-Moves :
      (s : SinkState) (h : LockedSink) (cx : ℕ) (r : Bool × LockedSink × SinkState)
      → second_try s h cx ≡ ok r
      → Moves s h r
  unfolding second_try state_lock
  second_try-Moves s h cx r e = elim (Bool-cases s.locked) [
    | inl full ↦ ground (arith, enqueue_cases s h.pos cx)
    | inr open' ↦
        let a : acquire (record s { locked = true }) h h.pos ≡ ok r = ground arith in
        let (x, y) = acquire-holds (record s { locked = true }) h h.pos a in inr (open', x, y)
  ]

-- The shared state, the handles, and the number of guards that are out.
abbrev pub World : Type 0
World = SinkState × List LockedSink × ℕ

-- One step of one task. `get_guard` is for a handle that has the lock, and the second try for one
-- that has not.
pub data Turn ⦃slab : Slab⦄ : World → World → Type 0 where
  tries :
      (s : SinkState) (xs ys : List LockedSink) (h : LockedSink) (g cx : ℕ)
      (r : Bool × LockedSink × SinkState)
      → first_try s h cx ≡ ok r
      → Turn (s, xs ++ (h ∷ ys), g) (r.2, xs ++ (r.1 ∷ ys), g)
  tries_again :
      (s : SinkState) (xs ys : List LockedSink) (h : LockedSink) (g cx : ℕ)
      (r : Bool × LockedSink × SinkState)
      → h.holds ≡ false
      → second_try s h cx ≡ ok r
      → Turn (s, xs ++ (h ∷ ys), g) (r.2, xs ++ (r.1 ∷ ys), g)
  unlocks :
      (s : SinkState) (xs ys : List LockedSink) (h : LockedSink) (g : ℕ)
      → Turn (s, xs ++ (h ∷ ys), g) ((sink_unlock s h).1, xs ++ ((sink_unlock s h).0 ∷ ys), g)
  drops :
      (s : SinkState) (xs ys : List LockedSink) (h : LockedSink) (g : ℕ)
      → Turn (s, xs ++ (h ∷ ys), g) ((sink_unlock s h).1, xs ++ ys, g)
  clones :
      (s : SinkState) (xs ys : List LockedSink) (h : LockedSink) (g : ℕ)
      → Turn (s, xs ++ (h ∷ ys), g) (s, xs ++ (h ∷ locked_sink_clone h ∷ ys), g)
  takes_guard :
      (s : SinkState) (xs ys : List LockedSink) (h : LockedSink) (g : ℕ)
      → h.holds ≡ true
      → Turn (s, xs ++ (h ∷ ys), g) (s, xs ++ (get_guard h ∷ ys), suc g)
  drops_guard :
      (s : SinkState) (hs : List LockedSink) (g : ℕ)
      → Turn (s, hs, suc g) ((state_unlock s).1, hs, g)

pub data Turns ⦃slab : Slab⦄ (x : World) : World → Type 0 where
  no_turn : Turns x x
  one_turn : {y z : World} → Turns x y → Turn y z → Turns x z

-- Who has the lock, counted, is what the flag says.
abbrev pub IsExclusive : World → Type 0
IsExclusive w = holders w.1 + w.2 ≡ count w.0.locked

module _ ⦃slab : Slab⦄ where
  Moves-IsExclusive :
      (s : SinkState) (xs ys : List LockedSink) (h : LockedSink) (g : ℕ)
      (r : Bool × LockedSink × SinkState)
      → Moves s h r
      → IsExclusive (s, xs ++ (h ∷ ys), g)
      → IsExclusive (r.2, xs ++ (r.1 ∷ ys), g)
  Moves-IsExclusive s xs ys h g r m v =
      ground (arith, holders-append xs (h ∷ ys), holders-append xs (r.1 ∷ ys))

  Turn-IsExclusive : {x y : World} → Turn x y → IsExclusive x → IsExclusive y
  unfolding sink_unlock state_unlock get_guard locked_sink_clone
  Turn-IsExclusive (tries s xs ys h g cx r e) v =
      Moves-IsExclusive s xs ys h g r (first_try-Moves s h cx r e) v
  Turn-IsExclusive (tries_again s xs ys h g cx r f e) v =
      Moves-IsExclusive s xs ys h g r (second_try-Moves s h cx r e) v
  Turn-IsExclusive (unlocks s xs ys h g) v =
      ground (arith, holders-append xs (h ∷ ys), holders-append xs ((sink_unlock s h).0 ∷ ys))
  Turn-IsExclusive (drops s xs ys h g) v =
      ground (arith, holders-append xs (h ∷ ys), holders-append xs ys)
  Turn-IsExclusive (clones s xs ys h g) v =
      ground (arith, holders-append xs (h ∷ ys), holders-append xs (h ∷ locked_sink_clone h ∷ ys))
  Turn-IsExclusive (takes_guard s xs ys h g e) v =
      ground (arith, holders-append xs (h ∷ ys), holders-append xs (get_guard h ∷ ys))
  Turn-IsExclusive (drops_guard s hs g) v = ground arith

  Turns-IsExclusive : {x y : World} → IsExclusive x → Turns x y → IsExclusive y
  Turns-IsExclusive v no_turn = v
  Turns-IsExclusive v (one_turn r t) = Turn-IsExclusive t (Turns-IsExclusive v r)

  -- From one handle on, in every order of the steps of all tasks, the two tries of a poll apart: the
  -- handles and guards that have the transport are one where the flag is set, and none where it is
  -- not.
  pub lock_excludes :
      (y : World)
      → Turns (sink_state_new, locked_sink_new ∷ [], 0) y
      → holders y.1 + y.2 ≡ count y.0.locked
  unfolding sink_state_new locked_sink_new
  lock_excludes y r = Turns-IsExclusive (omega arith) r
