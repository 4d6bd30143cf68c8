-- ===== src/Stream/Write/Credit.antt =====
-- How a client's stream keeps to the credit that the server granted it.
use epoxy_tls.Base.{
  if◌then◌else◌, ℕ, ◌+◌, ◌≤◌, ◌≡◌, ◌⊎◌, inl, inr, arith, Bool, true, false, length, length-push,
  ◌-◌, Option-cases, none, some, Option, Bool-cases, WispError,
}
use epoxy_tls.Bytes.{Buf, Payload}
use epoxy_tls.Packet.Codec.{packet_encode, new_data}
use epoxy_tls.Sink.Transport.{ready, pending, Transport, Poll}
use epoxy_tls.Stream.Info.{enabled_track_amount, stream_info_new}
use epoxy_tls.Stream.Write.{
  is_waiting, MuxStreamWrite, write_new, Done, write_start_send, maybe_write, write_poll_ready,
  write_poll_flush, Actor, write_poll_close, request_close, close_flushed, answered,
}

-- `c` is the credit, of which `sent` counts what was used. Where `free`, the sink has said that it
-- takes an item, and `start_send` may follow. Once in a credit one frame too many may go out.
pub record KeepsCredit (c : ℕ) (s : MuxStreamWrite) (free : Bool) : Type 0 where
  pub status : s.info.flow_status ≡ enabled_track_amount
  pub used :
      (length s.sent + s.info.flow_control ≡ c)
      ⊎ ((s.info.flow_control ≡ 0) × (length s.sent ≡ c + 1) × (s.chunk ≡ none) × (free ≡ false))
  pub empty : free ≡ true → s.chunk ≡ none

-- The answer that lets the user call `start_send`.
abbrev pub is_free : Done → Bool
is_free pending = false
is_free (ready none) = true
is_free (ready (some e)) = false

-- What `maybe_write` does to a stream that counts: the chunk is gone, and it was sent and counted,
-- or there was none or the transport refused it.
abbrev Written : MuxStreamWrite → MuxStreamWrite → Type 0
Written s s' =
    (s'.chunk ≡ none)
    × (s'.info.flow_status ≡ enabled_track_amount)
    × (((length s'.sent ≡ length s.sent) × (s'.info.flow_control ≡ s.info.flow_control))
        ⊎ ((is_waiting s.chunk ≡ true)
            × (length s'.sent ≡ length s.sent + 1)
            × (s'.info.flow_control ≡ s.info.flow_control - 1)))

-- What a close request changes is no part of the credit.
answered-KeepsCredit :
    (c : ℕ) (s : MuxStreamWrite) (free : Bool) (r : Poll (Option (Option WispError)))
    → KeepsCredit c s free
    → KeepsCredit c (answered s r).0 free
answered-KeepsCredit c s free pending k = k
answered-KeepsCredit c s free (ready none) k = record {
  status = k.status;
  used = k.used;
  empty = k.empty;
}
answered-KeepsCredit c s free (ready (some r)) k = record {
  status = k.status;
  used = k.used;
  empty = k.empty;
}

request_close-KeepsCredit :
    (c : ℕ) (s : MuxStreamWrite) (free : Bool) (a : Actor) (r : Poll Bool)
    → KeepsCredit c s free
    → KeepsCredit c (request_close s a r).0 free
request_close-KeepsCredit c s free a pending k = k
request_close-KeepsCredit c s free a (ready false) k = k
request_close-KeepsCredit c s free a (ready true) k = elim (Bool-cases a.accepts) [
  | inl yes_ ↦ rw yes_ (record { status = k.status; used = k.used; empty = k.empty })
  | inr no_ ↦ rw no_ (record { status = k.status; used = k.used; empty = k.empty })
]

close_flushed-KeepsCredit :
    (c : ℕ) (x : MuxStreamWrite × Done) (free : Bool) (a : Actor)
    → KeepsCredit c x.0 free
    → KeepsCredit c (close_flushed x a).0 free
close_flushed-KeepsCredit c (s, pending) free a k = k
close_flushed-KeepsCredit c (s, ready (some e)) free a k = k
close_flushed-KeepsCredit c (s, ready none) free a k =
    request_close-KeepsCredit c s free a a.poll_ready k

module _ ⦃buf : Buf⦄ where
  maybe_write-Written :
      (s : MuxStreamWrite) (t : Transport)
      → s.info.flow_status ≡ enabled_track_amount
      → Written s (maybe_write s t).0
  unfolding maybe_write
  maybe_write-Written s t h = elim (Option-cases s.chunk) [
    | inl e ↦ ground arith
    | inr (c, e) ↦
        let frame = packet_encode (new_data s.info.id c) in ground (arith, length-push s.sent frame)
  ]

  write_poll_ready-KeepsCredit :
      (c : ℕ) (s : MuxStreamWrite) (free : Bool) (cx : ℕ) (t : Transport)
      → KeepsCredit c s free
      → KeepsCredit c (write_poll_ready s cx t).0 (is_free (write_poll_ready s cx t).1)
  unfolding write_poll_ready
  write_poll_ready-KeepsCredit c s free cx t k =
      ground (arith, maybe_write-Written (record s { locked = true }) t k.status)

  write_start_send-KeepsCredit :
      (c : ℕ) (s : MuxStreamWrite) (item : Payload)
      → KeepsCredit c s true
      → KeepsCredit c (write_start_send s item).0 false
  unfolding write_start_send
  write_start_send-KeepsCredit c s item k = ground arith

  write_poll_flush-KeepsCredit :
      (c : ℕ) (s : MuxStreamWrite) (free : Bool) (t : Transport)
      → KeepsCredit c s free
      → KeepsCredit c (write_poll_flush s t).0 free
  unfolding write_poll_flush
  write_poll_flush-KeepsCredit c s free t k =
      ground (arith, maybe_write-Written (record s { locked = true }) t k.status)

  write_poll_close-KeepsCredit :
      (c : ℕ) (s : MuxStreamWrite) (free : Bool) (t : Transport) (a : Actor)
      → KeepsCredit c s free
      → KeepsCredit c (write_poll_close s t a).0 free
  unfolding write_poll_close
  write_poll_close-KeepsCredit c s free t a k = close-KeepsCredit s.closing
    where
      close-KeepsCredit :
          (b : Bool)
          → KeepsCredit c
              (if b then answered s a.answer else close_flushed (write_poll_flush s t) a).0
              free
      close-KeepsCredit true = answered-KeepsCredit c s free a.answer k
      close-KeepsCredit false =
          close_flushed-KeepsCredit c (write_poll_flush s t) free a
            (write_poll_flush-KeepsCredit c s free t k)

  -- All calls of `Sink`, by a user who keeps to its contract: `start_send` only where a call of
  -- `poll_ready` has answered that it may.
  pub data Call : MuxStreamWrite × Bool → MuxStreamWrite × Bool → Type 0 where
    polls_ready :
        (s : MuxStreamWrite) (free : Bool) (cx : ℕ) (t : Transport)
        → Call (s, free) ((write_poll_ready s cx t).0, is_free (write_poll_ready s cx t).1)
    starts_send :
        (s : MuxStreamWrite) (item : Payload) → Call (s, true) ((write_start_send s item).0, false)
    polls_flush :
        (s : MuxStreamWrite) (free : Bool) (t : Transport)
        → Call (s, free) ((write_poll_flush s t).0, free)
    polls_close :
        (s : MuxStreamWrite) (free : Bool) (t : Transport) (a : Actor)
        → Call (s, free) ((write_poll_close s t a).0, free)

  pub data Calls (x : MuxStreamWrite × Bool) : MuxStreamWrite × Bool → Type 0 where
    no_call : Calls x x
    one_more : {y z : MuxStreamWrite × Bool} → Calls x y → Call y z → Calls x z

  Call-KeepsCredit :
      (c : ℕ) {x y : MuxStreamWrite × Bool}
      → Call x y
      → KeepsCredit c x.0 x.1
      → KeepsCredit c y.0 y.1
  Call-KeepsCredit c (polls_ready s free cx t) k = write_poll_ready-KeepsCredit c s free cx t k
  Call-KeepsCredit c (starts_send s item) k = write_start_send-KeepsCredit c s item k
  Call-KeepsCredit c (polls_flush s free t) k = write_poll_flush-KeepsCredit c s free t k
  Call-KeepsCredit c (polls_close s free t a) k = write_poll_close-KeepsCredit c s free t a k

  Calls-KeepsCredit :
      (c : ℕ) {x y : MuxStreamWrite × Bool}
      → KeepsCredit c x.0 x.1
      → Calls x y
      → KeepsCredit c y.0 y.1
  Calls-KeepsCredit c k no_call = k
  Calls-KeepsCredit c k (one_more r st) = Call-KeepsCredit c st (Calls-KeepsCredit c k r)

  -- Until the server grants more, a client's stream sends at most one frame beyond the credit that
  -- it started with, in every order of `poll_ready`, `poll_flush`, `poll_close` and `start_send`, the
  -- last only where a `poll_ready` has answered `Ok` since the `start_send` before, and whatever the
  -- transport and the multiplexor answer.
  pub sent_within_credit :
      (c id : ℕ) (y : MuxStreamWrite × Bool)
      → Calls (write_new (stream_info_new id enabled_track_amount c), false) y
      → length y.0.sent ≤ c + 1
  unfolding write_new stream_info_new
  sent_within_credit c id y r = let k = Calls-KeepsCredit c (ground arith) r in ground arith
