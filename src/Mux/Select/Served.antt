-- ===== src/Mux/Select/Served.antt =====
-- The fairness of the merged events, and its end.
use epoxy_tls.Base.{◌≡◌, ◌⊎◌, inl, inr, refl, arith, true, false, Option, none, some}
use epoxy_tls.Sink.Transport.{Poll, ready, pending}
use epoxy_tls.Mux.Select.{
  PollNext, left, right, other_side, toggle, UnfairSelect, poll_side, poll_inner, select_poll_next,
}

poll_result_cases {ℓ κ} :
    {A : Type ℓ} {B : Type κ} (x : Poll (Option A) × B)
    → ((t : B) × (x ≡ (pending, t)))
      ⊎ ((t : B) × (x ≡ (ready none, t)))
      ⊎ ((a : A) × (t : B) × (x ≡ (ready (some a), t)))
poll_result_cases (pending, t) = inl (t, refl)
poll_result_cases (ready none, t) = inr (inl (t, refl))
poll_result_cases (ready (some a), t) = inr (inr (a, t, refl))

side_cases : (p : PollNext) → (p ≡ left) ⊎ (p ≡ right)
side_cases left = inl refl
side_cases right = inr refl

module _ {S₁ S₂ A : Type 0} (poll₁ : S₁ → Poll (Option A) × S₁)
    (poll₂ : S₂ → Poll (Option A) × S₂) where
  -- A left side that has an item is served by this poll or, untouched, by the next, unless the
  -- right side ends the merged stream first.
  pub left_served :
      (s : UnfairSelect S₁ S₂) (a : A) (t : S₁)
      → s.finished ≡ false
      → poll₁ s.stream1 ≡ (ready (some a), t)
      → let (r, s') = select_poll_next poll₁ poll₂ s in
        let (r', s'') = select_poll_next poll₁ poll₂ s' in
        ((r ≡ ready (some a)) × (s'.stream1 ≡ t))
        ⊎ ((r ≡ ready none) × (s'.finished ≡ true) × (s'.stream1 ≡ s.stream1))
        ⊎ ((s'.stream1 ≡ s.stream1) × (r' ≡ ready (some a)) × (s''.stream1 ≡ t))
  unfolding select_poll_next toggle poll_inner poll_side other_side
  left_served s a t f h = elim (side_cases s.next) [
    | inl e ↦ ground arith
    | inr e ↦ elim (poll_result_cases (poll₂ s.stream2)) [
      | inl (u, k) ↦ ground arith
      | inr (inl (u, k)) ↦ ground arith
      | inr (inr (b, u, k)) ↦ ground arith
    ]
  ]

  -- The same of the right side, whose first turn may come later.
  pub right_served :
      (s : UnfairSelect S₁ S₂) (a : A) (t : S₂)
      → s.finished ≡ false
      → poll₂ s.stream2 ≡ (ready (some a), t)
      → let (r, s') = select_poll_next poll₁ poll₂ s in
        let (r', s'') = select_poll_next poll₁ poll₂ s' in
        ((r ≡ ready (some a)) × (s'.stream2 ≡ t))
        ⊎ ((r ≡ ready none) × (s'.finished ≡ true) × (s'.stream2 ≡ s.stream2))
        ⊎ ((s'.stream2 ≡ s.stream2) × (r' ≡ ready (some a)) × (s''.stream2 ≡ t))
  unfolding select_poll_next toggle poll_inner poll_side other_side
  right_served s a t f h = elim (side_cases s.next) [
    | inr e ↦ ground arith
    | inl e ↦ elim (poll_result_cases (poll₁ s.stream1)) [
      | inl (u, k) ↦ ground arith
      | inr (inl (u, k)) ↦ ground arith
      | inr (inr (b, u, k)) ↦ ground arith
    ]
  ]
