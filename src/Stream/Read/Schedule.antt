-- ===== src/Stream/Read/Schedule.antt =====
-- A server's stream under any order of arrivals and polls.
use epoxy_tls.Base.{
  ℕ, ◌-◌, ◌<◌, ◌≡◌, ◌⊎◌, inl, refl, sym, ◌∙◌, ap, arith, List, [], ◌∷◌, ◌++◌, length, append_assoc,
  none, some,
}
use epoxy_tls.Bytes.{Buf, Payload, IsU32}
use epoxy_tls.Packet.Codec.{packet_encode, new_continue}
use epoxy_tls.Sink.Transport.{Transport}
use epoxy_tls.Stream.Channel.{bounded, Flume}
use epoxy_tls.Stream.Info.{saturating_add, enabled_send_messages, stream_info_new}
use epoxy_tls.Stream.Read.{MuxStreamRead, read_new, poll_next, finish_chunk, count_chunk}
use epoxy_tls.Stream.Read.Balance.{
  IsBalanced, Works, contents, yielded, arrive, arrive-IsBalanced, poll_next-IsBalanced,
  poll_next_cases, poll_cases,
}

module _ ⦃buf : Buf⦄ where
  -- Nothing new was sent, or one CONTINUE frame with the free room of the buffer.
  abbrev pub Announces : ℕ → MuxStreamRead → MuxStreamRead → Type 0
  Announces b s s' =
      (s'.sent ≡ s.sent)
      ⊎ (s'.sent
          ≡ s.sent ++ (packet_encode (new_continue s.info.id (b - length s'.channel.queue)) ∷ []))

  finish_chunk-Announces :
      (b : ℕ) (s : MuxStreamRead) (c : Payload) (t : Transport)
      → IsU32 b
      → IsBalanced b (record s { chunk = some c })
      → Works t
      → Announces b s (finish_chunk s c t).0
  unfolding finish_chunk
  finish_chunk-Announces b s c t h v w =
      let amount = saturating_add s.info.flow_control s.read_cnt in
      let room : amount ≡ b - length s.channel.queue = ground arith in
      ground (
        arith,
        poll_cases t.poll_ready w.no_error,
        w.accepts (packet_encode (new_continue s.info.id amount)),
        ap (λ (n : ℕ). packet_encode (new_continue s.info.id n)) room,
      )

module _ ⦃buf : Buf⦄ ⦃flume : Flume⦄ where
  -- A poll sends nothing, or one CONTINUE frame with exactly the free room of the buffer.
  pub poll_next-Announces :
      (b : ℕ) (s : MuxStreamRead) (t : Transport)
      → IsU32 b
      → IsBalanced b s
      → Works t
      → Announces b s (poll_next s t).0
  poll_next-Announces b s t h v w =
      poll_next_cases (λ r. Announces b s r.0) s t (inl refl) (inl refl)
        (λ c e. finish_chunk-Announces b (record s { chunk = none }) c t h (ground arith) w)
        (λ c q e d.
          let s' = count_chunk (record s { channel = record s.channel { queue = q } }) in
          finish_chunk-Announces b s' c t h (ground arith) w)

  -- The server's multiplexor and the reader take turns in any order. A state is the stream, what
  -- has arrived and what the reader was given.
  pub data Step
      : MuxStreamRead × List Payload × List Payload
        → MuxStreamRead × List Payload × List Payload
        → Type 0 where
    arrives :
        (s : MuxStreamRead) (came given : List Payload) (p : Payload)
        → 0 < s.info.flow_control
        → Step (s, came, given) (arrive s p, came ++ (p ∷ []), given)
    polls :
        (s : MuxStreamRead) (came given : List Payload) (t : Transport)
        → Works t
        → Step (s, came, given) ((poll_next s t).0, came, given ++ yielded (poll_next s t).1)

  pub data Reach (x : MuxStreamRead × List Payload × List Payload)
      : MuxStreamRead × List Payload × List Payload → Type 0 where
    here : Reach x x
    next : {y z : MuxStreamRead × List Payload × List Payload} → Reach x y → Step y z → Reach x z

  -- The stream is balanced, and what arrived is what was given and what is still held, in order.
  abbrev pub Invariant : ℕ → MuxStreamRead × List Payload × List Payload → Type 0
  Invariant b y = IsBalanced b y.0 × (y.1 ≡ y.2 ++ contents y.0)

  Step-Invariant :
      (b : ℕ) {x y : MuxStreamRead × List Payload × List Payload}
      → IsU32 b
      → Step x y
      → Invariant b x
      → Invariant b y
  Step-Invariant b h (arrives s came given p credit) (v, e) =
      let (v', c) = arrive-IsBalanced b s p v credit in
      (v', rw (e, c) (append_assoc given (contents s) (p ∷ [])))
  Step-Invariant b h (polls s came given t w) (v, e) =
      let (v', c) = poll_next-IsBalanced b s t h v w in
      (v', e ∙ ap (◌++◌ given) (sym c) ∙ sym (append_assoc given _ _))

  Reach-Invariant :
      (b : ℕ) {x y : MuxStreamRead × List Payload × List Payload}
      → IsU32 b
      → Invariant b x
      → Reach x y
      → Invariant b y
  Reach-Invariant b h v here = v
  Reach-Invariant b h v (next r st) = Step-Invariant b h st (Reach-Invariant b h v r)

  -- From the creation of a server's stream on, as long as the peer sends within the credit that the
  -- stream counts and the transport does not fail, in every order of arrivals and polls: the buffer
  -- stays balanced, and the reader gets what arrived, in order, without loss or repetition.
  pub stream_delivers :
      (b id : ℕ) (y : MuxStreamRead × List Payload × List Payload)
      → IsU32 b
      → Reach (read_new (bounded b) (stream_info_new id enabled_send_messages b), [], []) y
      → IsBalanced b y.0 × (y.1 ≡ y.2 ++ contents y.0)
  unfolding read_new stream_info_new
  stream_delivers b id y h r = Reach-Invariant b h (ground arith, refl) r
