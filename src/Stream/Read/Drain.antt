-- ===== src/Stream/Read/Drain.antt =====
-- Reading gives the peer its credit back.
use epoxy_tls.Base.{
  ℕ, zero, suc, ◌-◌, ◌*◌, ◌/◌, ◌≤◌, ◌<◌, ◌≡◌, refl, arith, true, List, [], ◌∷◌, length, none,
}
use epoxy_tls.Bytes.{Buf, Payload, IsU32}
use epoxy_tls.Packet.Codec.{packet_encode, new_continue}
use epoxy_tls.Sink.Transport.{ready, Transport}
use epoxy_tls.Stream.Channel.{Flume}
use epoxy_tls.Stream.Info.{saturating_add}
use epoxy_tls.Stream.Read.{MuxStreamRead, poll_next, finish_chunk, count_chunk}
use epoxy_tls.Stream.Read.Balance.{IsBalanced, Works, poll_next-IsBalanced}

-- The transport takes a frame at once.
pub record IsIdle (t : Transport) : Type 0 where
  pub free : t.lock_free ≡ true
  pub ready_now : t.poll_ready ≡ ready none
  pub accepts : (p : Payload) → t.start_send p ≡ none

-- An open stream with no chunk held back, and this queue.
abbrev pub Holds : MuxStreamRead → List Payload → Type 0
Holds s q = (s.channel.has_sender ≡ true) × (s.chunk ≡ none) × (s.channel.queue ≡ q)

IsIdle-Works : (t : Transport) → IsIdle t → Works t
IsIdle-Works t i = record { no_error = λ e h. ground (arith, i.ready_now); accepts = i.accepts }

module _ ⦃buf : Buf⦄ where
  finish_chunk-Holds :
      (s : MuxStreamRead) (c : Payload) (t : Transport) (q : List Payload)
      → IsIdle t
      → Holds s q
      → Holds (finish_chunk s c t).0 q
  unfolding finish_chunk
  finish_chunk-Holds s c t q i h =
      let frame =
        packet_encode (new_continue s.info.id (saturating_add s.info.flow_control s.read_cnt)) in
      ground (arith, i.accepts frame)

module _ ⦃buf : Buf⦄ ⦃flume : Flume⦄ where
  poll_next-Holds :
      (s : MuxStreamRead) (t : Transport) (c : Payload) (q : List Payload)
      → IsIdle t
      → Holds s (c ∷ q)
      → Holds (poll_next s t).0 q
  unfolding poll_next
  poll_next-Holds s t c q i h =
      let s' = count_chunk (record s { channel = record s.channel { queue = q } }) in
      let (o, k, e) = h in
      let same : poll_next s t ≡ finish_chunk s' c t = ground (arith, flume.recv_lem s.channel) in
      rw same (finish_chunk-Holds s' c t q i (o, k, refl))

  -- So many polls, one after the other.
  unfoldable pub drain : ℕ → MuxStreamRead → Transport → MuxStreamRead
  drain zero s t = s
  drain (suc n) s t = drain n (poll_next s t).0 t

  drain-IsBalanced :
      (b : ℕ) (q : List Payload) (s : MuxStreamRead) (t : Transport)
      → IsU32 b
      → IsIdle t
      → IsBalanced b s
      → Holds s q
      → IsBalanced b (drain (length q) s t) × Holds (drain (length q) s t) []
  unfolding drain
  drain-IsBalanced b [] s t u i v h = (v, h)
  drain-IsBalanced b (c ∷ q) s t u i v h =
      let (v', _) = poll_next-IsBalanced b s t u v (IsIdle-Works t i) in
      drain-IsBalanced b q (poll_next s t).0 t u i v' (poll_next-Holds s t c q i h)

  -- A server's stream whose reader takes everything that has arrived, over a transport that takes
  -- frames at once: nothing is left to read, and the stream counts credit for more, at least for a
  -- tenth of the buffer and for one frame.
  pub drained_has_credit :
      (b : ℕ) (s : MuxStreamRead) (t : Transport)
      → IsU32 b
      → 0 < b
      → IsIdle t
      → IsBalanced b s
      → s.channel.has_sender ≡ true
      → s.chunk ≡ none
      → let s' = drain (length s.channel.queue) s t in
        (s'.channel.queue ≡ [])
        × (b - b * 90 / 100 ≤ s'.info.flow_control)
        × (0 < s'.info.flow_control)
  drained_has_credit b s t u p i v o k =
      let (v', (_, k', e)) = drain-IsBalanced b s.channel.queue s t u i v (o, k, refl) in
      ground arith
