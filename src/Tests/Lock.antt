-- ===== src/Tests/Lock.antt =====
-- The lock and the merged events in concrete runs.
use epoxy_tls.Base.{
  ℕ, suc, ◌+◌, ◌<◌, ◌≡◌, ◌⊎◌, inl, inr, refl, arith, true, false, [], ◌∷◌, Option, none, some,
  Option-cases, ok, lookup, insert, remove, lookup-insert, lookup-remove,
}
use epoxy_tls.Sink.Transport.{Poll, ready, pending}
use epoxy_tls.Sink.Waiter.{Waiter}
use epoxy_tls.Sink.Lock.{
  Slab, WakerList, SinkState, LockedSink, sink_state_new, locked_sink_new, locked_sink_clone,
  first_try, poll_lock, state_lock, get_guard,
}
use epoxy_tls.Sink.Lock.Exclusion.{
  no_turn, one_turn, clones, tries, takes_guard, holders, count, lock_excludes,
}
use epoxy_tls.Sink.Lock.Progress.{IsQueued, poll_lock_lem}
use epoxy_tls.Mux.Select.{UnfairSelect, unfair_select, select_poll_next}
use epoxy_tls.Mux.Select.Served.{left_served, right_served}

-- A key beyond all others.
abbrev fresh_key : WakerList → ℕ
fresh_key [] = 0
fresh_key ((k, w) ∷ l) = suc (k + fresh_key l)

lookup-lt : (l : WakerList) (k : ℕ) (w : Waiter) → lookup k l ≡ some w → k < fresh_key l
unfolding lookup
lookup-lt [] k w h = cc
lookup-lt ((j, x) ∷ l) k w h = ground (arith, lookup-lt l k w)

fresh_key-vacant : (l : WakerList) → lookup (fresh_key l) l ≡ none
fresh_key-vacant l = elim (Option-cases (lookup (fresh_key l) l)) [
  | inl e ↦ e
  | inr (w, e) ↦ absurd (omega (arith, lookup-lt l (fresh_key l) w e))
]

instance list_slab : Slab
list_slab = record {
  insert = λ l w. (fresh_key l, insert (fresh_key l) w l);
  remove = λ l k. some (remove k l);
  set = λ l k w. insert k w l;
  insert_vacant = λ l w. fresh_key-vacant l;
  insert_lem = λ l w k. lookup-insert k (fresh_key l) w l;
  remove_lem = λ l k w e. (remove k l, refl, λ j. lookup-remove j k l);
  set_lem = λ l k j w w' e. lookup-insert j k w' l;
}

-- The first handle takes the lock and gives it to a guard; a second handle stands by.
abbrev holding : LockedSink
holding = record { pos = none; holds = true }

abbrev taken : SinkState
taken = record { locked = true; waiters = [] }

lock_excludes_example :
    holders (get_guard holding ∷ locked_sink_clone locked_sink_new ∷ []) + 1 ≡ count taken.locked
unfolding first_try state_lock locked_sink_new sink_state_new
lock_excludes_example =
    lock_excludes (taken, get_guard holding ∷ locked_sink_clone locked_sink_new ∷ [], 1)
      (one_turn
        (one_turn (one_turn no_turn (clones sink_state_new [] [] locked_sink_new 0)) (
          tries sink_state_new [] (locked_sink_clone locked_sink_new ∷ []) locked_sink_new 0 5
            (true, holding, taken) refl))
        (takes_guard taken [] (locked_sink_clone locked_sink_new ∷ []) holding 0 refl))

abbrev queued : LockedSink
queued = record { pos = none; holds = false }

poll_lock_lem_example :
    (h' : LockedSink) × (s' : SinkState) × (s'.locked ≡ true)
    × (((true ≡ false)
          × (poll_lock taken queued 5 ≡ ok (ready tt, h', s'))
          × (h' ≡ record { pos = none; holds = true }))
        ⊎ ((true ≡ true)
            × (poll_lock taken queued 5 ≡ ok (pending, h', s'))
            × (h'.holds ≡ false)
            × IsQueued s' h' 5))
poll_lock_lem_example = poll_lock_lem taken queued 5 (λ k e. cc) refl

-- A source that counts, and the merge of two.
abbrev counting : ℕ → Poll (Option ℕ) × ℕ
counting n = (ready (some n), suc n)

abbrev merged : UnfairSelect ℕ ℕ
merged = unfair_select 10 20

left_served_example :
    let (r, s') = select_poll_next counting counting merged in
    let (r', s'') = select_poll_next counting counting s' in
    ((r ≡ ready (some 10)) × (s'.stream1 ≡ 11))
    ⊎ ((r ≡ ready none) × (s'.finished ≡ true) × (s'.stream1 ≡ merged.stream1))
    ⊎ ((s'.stream1 ≡ merged.stream1) × (r' ≡ ready (some 10)) × (s''.stream1 ≡ 11))
unfolding unfair_select
left_served_example = left_served counting counting merged 10 11 refl refl

right_served_example :
    let (r, s') = select_poll_next counting counting merged in
    let (r', s'') = select_poll_next counting counting s' in
    ((r ≡ ready (some 20)) × (s'.stream2 ≡ 21))
    ⊎ ((r ≡ ready none) × (s'.finished ≡ true) × (s'.stream2 ≡ merged.stream2))
    ⊎ ((s'.stream2 ≡ merged.stream2) × (r' ≡ ready (some 20)) × (s''.stream2 ≡ 21))
unfolding unfair_select
right_served_example = right_served counting counting merged 20 21 refl refl
