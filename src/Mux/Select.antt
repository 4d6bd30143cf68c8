-- ===== src/Mux/Select.antt =====
-- wisp/src/unfair_select.rs: the two event sources of the multiplexor, merged. A source is a state
pub mod Served
-- and what polling it gives.
use epoxy_tls.Base.{
  ℕ, ◌≡◌, ◌≢◌, ◌⊎◌, inl, inr, refl, arith, Bool, true, false, if◌then◌else◌, Bool-cases, Option,
  none, some,
}
use epoxy_tls.Sink.Transport.{Poll, ready, pending}

pub data PollNext : Type 0 where
  left right : PollNext

unfoldable pub other_side : PollNext → PollNext
other_side left = right
other_side right = left

-- The old value, and the new one.
unfoldable pub toggle : PollNext → PollNext × PollNext
unfolding other_side
toggle p = (p, other_side p)

pub record UnfairSelect (S₁ S₂ : Type 0) : Type 0 where
  pub stream1 : S₁
  pub stream2 : S₂
  pub next : PollNext
  pub finished : Bool

unfoldable pub unfair_select : {S₁ S₂ : Type 0} → S₁ → S₂ → UnfairSelect S₁ S₂
unfair_select stream1 stream2 = record {
  stream1 = stream1;
  stream2 = stream2;
  next = left;
  finished = false;
}

module _ {S₁ S₂ A : Type 0} (poll₁ : S₁ → Poll (Option A) × S₁)
    (poll₂ : S₂ → Poll (Option A) × S₂) where
  abbrev pub Polled : Type 0
  Polled = Poll (Option A) × UnfairSelect S₁ S₂

  unfoldable pub poll_side : UnfairSelect S₁ S₂ → PollNext → Polled
  poll_side s left = let (r, t) = poll₁ s.stream1 in (r, record s { stream1 = t })
  poll_side s right = let (r, t) = poll₂ s.stream2 in (r, record s { stream2 = t })

  abbrev second : Polled → Polled
  second (pending, s) = (pending, s)
  second (ready none, s) = (ready none, record s { finished = true })
  second (ready (some a), s) = (ready (some a), s)

  abbrev first : PollNext → Polled → Polled
  first side (ready (some a), s) = (ready (some a), s)
  first side (ready none, s) = (ready none, record s { finished = true })
  first side (pending, s) = second (poll_side s (other_side side))

  unfoldable pub poll_inner : UnfairSelect S₁ S₂ → PollNext → Polled
  unfolding poll_side other_side
  poll_inner s side = first side (poll_side s side)

  unfoldable pub select_poll_next : UnfairSelect S₁ S₂ → Polled
  unfolding toggle
  select_poll_next s =
      let (side, next) = toggle s.next in
      let s' = record s { next = next } in
      if s.finished then (ready none, s') else poll_inner s' side
