-- ===== src/Stream/Read/Balance.antt =====
-- A server's stream with a buffer of `b` payloads: its flow control counts the free room.
use mathlib.Core.Path.{subst⁻¹}
use epoxy_tls.Base.{
  ℕ, ◌+◌, ◌*◌, ◌/◌, ◌≤◌, ◌<◌, ◌≡◌, ◌≢◌, ◌⊎◌, inl, inr, refl, sym, ◌∙◌, arith, true, List, [], ◌∷◌,
  ◌++◌, length, length-append, append_assoc, Option, none, some, Outcome, ok, err, panic, diverge,
  WispError, Bool-cases, Option-cases, List-cases,
}
use epoxy_tls.Bytes.{Buf, Payload, IsU32}
use epoxy_tls.Packet.Codec.{packet_encode, new_continue}
use epoxy_tls.Sink.Transport.{Poll, ready, pending, Transport}
use epoxy_tls.Stream.Channel.{Flume}
use epoxy_tls.Stream.Info.{saturating_add, enabled_send_messages}
use epoxy_tls.Stream.Deliver.{server_deliver}
use epoxy_tls.Stream.Read.{MuxStreamRead, poll_next, finish_chunk, count_chunk}

-- A chunk that waits for its update was counted already.
abbrev pub held : Option Payload → ℕ
held none = 0
held (some chunk) = 1

pub record IsBalanced (b : ℕ) (s : MuxStreamRead) : Type 0 where
  pub status : s.info.flow_status ≡ enabled_send_messages
  pub bound : s.channel.bound ≡ some b
  pub receiver : s.channel.has_receiver ≡ true
  pub target : s.info.target_flow_control ≡ b * 90 / 100
  -- Every place of the buffer is free, taken, or read and not yet announced.
  pub balance : s.info.flow_control + length s.channel.queue + s.read_cnt ≡ b
  pub unannounced : s.read_cnt ≤ s.info.target_flow_control + held s.chunk

-- The transport takes what it is given, at once or later.
pub record Works (t : Transport) : Type 0 where
  pub no_error : (e : WispError) → t.poll_ready ≢ ready (some e)
  pub accepts : (p : Payload) → t.start_send p ≡ none

-- What was received and not yet read, oldest first.
abbrev pub held_list : Option Payload → List Payload
held_list none = []
held_list (some chunk) = chunk ∷ []

abbrev pub contents : MuxStreamRead → List Payload
contents s = held_list s.chunk ++ s.channel.queue

-- What a poll yields to the reader.
abbrev pub yielded : Poll (Option (Outcome Payload)) → List Payload
yielded pending = []
yielded (ready none) = []
yielded (ready (some (ok p))) = p ∷ []
yielded (ready (some (err e))) = []
yielded (ready (some panic)) = []
yielded (ready (some diverge)) = []

pub poll_cases :
    (r : Poll (Option WispError))
    → ((e : WispError) → r ≢ ready (some e))
    → (r ≡ pending) ⊎ (r ≡ ready none)
poll_cases pending h = inl refl
poll_cases (ready none) h = inr refl
poll_cases (ready (some e)) h = absurd (h e refl)

module _ ⦃flume : Flume⦄ where
  -- The payload arrives at the stream.
  unfoldable pub arrive : MuxStreamRead → Payload → MuxStreamRead
  arrive s p =
      let (channel, info) = server_deliver s.channel s.info p in
      record s { channel = channel; info = info }

  arrive-sent :
      (b : ℕ) (s : MuxStreamRead) (p : Payload)
      → IsBalanced b s
      → 0 < s.info.flow_control
      → flume.try_send s.channel p ≡ some (record s.channel { queue = s.channel.queue ++ (p ∷ []) })
  arrive-sent b s p v h = ground (arith, flume.try_send_lem s.channel p)

  -- A payload that the peer had credit for is queued, behind all others, and the buffer stays
  -- balanced.
  pub arrive-IsBalanced :
      (b : ℕ) (s : MuxStreamRead) (p : Payload)
      → IsBalanced b s
      → 0 < s.info.flow_control
      → IsBalanced b (arrive s p) × (contents (arrive s p) ≡ contents s ++ (p ∷ []))
  unfolding arrive server_deliver
  arrive-IsBalanced b s p v h = rw (arrive-sent b s p v h) (
    record {
      status = v.status;
      bound = v.bound;
      receiver = v.receiver;
      target = v.target;
      balance = omega (arith, v.balance, length-append s.channel.queue (p ∷ []));
      unannounced = v.unannounced;
    },
    sym (append_assoc (held_list s.chunk) s.channel.queue (p ∷ [])),
  )

  module _ ⦃buf : Buf⦄ where
    pub finish_chunk-IsBalanced :
        (b : ℕ) (s : MuxStreamRead) (c : Payload) (t : Transport)
        → IsBalanced b (record s { chunk = some c })
        → IsU32 b
        → s.chunk ≡ none
        → Works t
        → IsBalanced b (finish_chunk s c t).0
          × (yielded (finish_chunk s c t).1 ++ contents (finish_chunk s c t).0
              ≡ c ∷ s.channel.queue)
    unfolding finish_chunk
    finish_chunk-IsBalanced b s c t v h e w = ground (
      arith,
      poll_cases t.poll_ready w.no_error,
      w.accepts
          (packet_encode (new_continue s.info.id (saturating_add s.info.flow_control s.read_cnt))),
    )

    -- Every poll that is not at the end yields nothing, or finishes a chunk: the one that was held,
    -- or the oldest of the channel, which is counted first.
    pub poll_next_cases {ℓ} :
        (P : MuxStreamRead × Poll (Option (Outcome Payload)) → Type ℓ) (s : MuxStreamRead)
        (t : Transport)
        → P (s, ready none)
        → P (s, pending)
        → ((c : Payload) → s.chunk ≡ some c → P (finish_chunk (record s { chunk = none }) c t))
        → ((c : Payload) (q : List Payload)
            → s.chunk ≡ none
            → s.channel.queue ≡ c ∷ q
            → P (
                finish_chunk
                  (count_chunk (record s { channel = record s.channel { queue = q } }))
                  c
                  t))
        → P (poll_next s t)
    unfolding poll_next
    poll_next_cases P s t ended empty resumed fresh = elim (Bool-cases s.channel.has_sender) [
      | inr over ↦ subst⁻¹ P (ground arith) ended
      | inl open' ↦ elim (Option-cases s.chunk) [
        | inr (c, e) ↦ subst⁻¹ P (ground arith) (resumed c e)
        | inl e ↦ elim (List-cases s.channel.queue) [
          | inl none' ↦ subst⁻¹ P (ground (arith, flume.recv_lem s.channel)) empty
          | inr (c, q, d) ↦ subst⁻¹ P (ground (arith, flume.recv_lem s.channel)) (fresh c q e d)
        ]
      ]
    ]

    -- A poll that the transport does not fail keeps the buffer balanced, and what it yields comes
    -- from the front of what was received: nothing is lost, repeated or reordered.
    pub poll_next-IsBalanced :
        (b : ℕ) (s : MuxStreamRead) (t : Transport)
        → IsU32 b
        → IsBalanced b s
        → Works t
        → IsBalanced b (poll_next s t).0
          × (yielded (poll_next s t).1 ++ contents (poll_next s t).0 ≡ contents s)
    poll_next-IsBalanced b s t h v w =
        poll_next_cases (λ r. IsBalanced b r.0 × (yielded r.1 ++ contents r.0 ≡ contents s)) s t
          (v, refl) (v, refl)
          (λ c e.
            let v' : IsBalanced b (record s { chunk = some c }) = ground arith in
            let (v'', y) = finish_chunk-IsBalanced b (record s { chunk = none }) c t v' h refl w in
            (v'', y ∙ ground arith))
          (λ c q e d.
            let s' = count_chunk (record s { channel = record s.channel { queue = q } }) in
            let v' : IsBalanced b (record s' { chunk = some c }) = ground arith in
            let (v'', y) = finish_chunk-IsBalanced b s' c t v' h e w in (v'', y ∙ ground arith))
