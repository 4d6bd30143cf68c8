-- ===== src/Stream/Bytes/Frames.antt =====
-- What the calls of a `MuxStreamAsyncWrite` send, and who has the lock after them.
use epoxy_tls.Base.{
  ℕ, ◌||◌, ◌≡◌, refl, ◌∙◌, ap, sym, Bool, true, false, List, [], ◌∷◌, ◌++◌, length, append-nil,
  append_assoc, Option, none, some, inl, inr, WispError, Bool-cases, if◌then◌else◌,
}
use epoxy_tls.Bytes.{Buf, Payload}
use epoxy_tls.Packet.Codec.{packet_encode, new_data}
use epoxy_tls.Sink.Transport.{Poll, ready, pending, Transport}
use epoxy_tls.Stream.Info.{StreamInfo}
use epoxy_tls.Stream.Write.{Done, Actor}
use epoxy_tls.Stream.Bytes.{
  MuxStreamAsyncWrite, Wrote, write_started, write_ready, async_flushed, close_answered,
  close_requested, close_after_flush, async_poll_write, async_poll_flush, async_poll_close,
}

-- A call, with what it meets.
pub data Call : Type 0 where
  write : Payload → Transport → Call
  flush : Transport → Call
  close : Transport → Actor → Call

-- An answer: what of the buffer was taken, or an error, or nothing yet.
pub data Heard : Type 0 where
  took : ℕ → Heard
  done : Heard
  failed : WispError → Heard
  waiting : Heard

abbrev pub wrote : Wrote → Heard
wrote pending = waiting
wrote (ready (inl e)) = failed e
wrote (ready (inr n)) = took n

abbrev pub answered : Done → Heard
answered pending = waiting
answered (ready none) = done
answered (ready (some e)) = failed e

or-false : (a b : Bool) → (a || b) ≡ false → a ≡ false
or-false true b h = cc
or-false false b h = refl

module _ ⦃buf : Buf⦄ where
  abbrev pub act : MuxStreamAsyncWrite → Call → MuxStreamAsyncWrite × Heard
  act s (write buffer t) = let (s', r) = async_poll_write s buffer t in (s', wrote r)
  act s (flush t) = let (s', r) = async_poll_flush s t in (s', answered r)
  act s (close t a) = let (s', r) = async_poll_close s t a in (s', answered r)

  abbrev pub data_frame : ℕ → Payload → Payload
  data_frame id buffer = packet_encode (new_data id buffer)

  -- The frames that a call sends, by its answer: a write that was taken sends its whole buffer.
  abbrev pub frames_of : ℕ → Call → Heard → List Payload
  frames_of id (write buffer t) (took n) = data_frame id buffer ∷ []
  frames_of id c h = []

  -- The lock after a write or a flush: given back after a success, and kept after an error.
  abbrev pub Holds : MuxStreamAsyncWrite → Call → MuxStreamAsyncWrite × Heard → Type 0
  Holds s (write buffer t) (s', took n) = (n ≡ length buffer) × (s'.locked ≡ false)
  Holds s (write buffer t) (s', failed e) = s'.locked ≡ true
  Holds s (write buffer t) (s', waiting) = s'.locked ≡ (s.locked || t.lock_free)
  Holds s (write buffer t) (s', done) = ⊥
  Holds s (flush t) (s', took n) = ⊥
  Holds s (flush t) (s', failed e) = s'.locked ≡ true
  Holds s (flush t) (s', waiting) = s'.locked ≡ (s.locked || t.lock_free)
  Holds s (flush t) (s', done) = s'.locked ≡ false
  Holds s (close t a) r = Unit {0}

  -- What a call leaves: the frames, the stream's state with its credit, and the lock.
  abbrev pub After : MuxStreamAsyncWrite → Call → MuxStreamAsyncWrite × Heard → Type 0
  After s c (s', h) =
      (s'.sent ≡ s.sent ++ frames_of s.info.id c h) × (s'.info ≡ s.info) × Holds s c (s', h)

  -- One call, where its poll has the lock.
  abbrev with_lock : MuxStreamAsyncWrite → MuxStreamAsyncWrite
  with_lock s = record s { locked = true }

  started-After :
      (s : MuxStreamAsyncWrite) (buffer : Payload) (t : Transport) (o : Option WispError)
      → let (s', r) = write_started (with_lock s) buffer (data_frame s.info.id buffer) o in
        After s (write buffer t) (s', wrote r)
  started-After s buffer t (some e) = (sym (append-nil s.sent), refl, refl)
  started-After s buffer t none = (refl, refl, (refl, refl))

  ready-After :
      (s : MuxStreamAsyncWrite) (buffer : Payload) (t : Transport) (d : Done)
      → (s.locked || t.lock_free) ≡ true
      → let (s', r) = write_ready (with_lock s) buffer t d in After s (write buffer t) (s', wrote r)
  ready-After s buffer t pending h = (sym (append-nil s.sent), refl, sym h)
  ready-After s buffer t (ready (some e)) h = (sym (append-nil s.sent), refl, refl)
  ready-After s buffer t (ready none) h =
      started-After s buffer t (t.start_send (data_frame s.info.id buffer))

  abbrev Flushed : MuxStreamAsyncWrite → Transport → MuxStreamAsyncWrite × Done → Type 0
  Flushed s t (s', d) = After s (flush t) (s', answered d)

  flush_answer-After :
      (s : MuxStreamAsyncWrite) (t : Transport) (d : Done)
      → (s.locked || t.lock_free) ≡ true
      → Flushed s t (async_flushed (with_lock s) d)
  flush_answer-After s t pending h = (sym (append-nil s.sent), refl, sym h)
  flush_answer-After s t (ready (some e)) h = (sym (append-nil s.sent), refl, refl)
  flush_answer-After s t (ready none) h = (sym (append-nil s.sent), refl, refl)

  flush-After : (s : MuxStreamAsyncWrite) (t : Transport) → Flushed s t (async_poll_flush s t)
  unfolding async_poll_flush
  flush-After s t = elim (Bool-cases (s.locked || t.lock_free)) [
    | inl free ↦ rw free (flush_answer-After s t t.poll_flush free)
    | inr held ↦
        rw held (sym (append-nil s.sent), refl, or-false s.locked t.lock_free held ∙ sym held)
  ]

  -- A close changes neither the frames nor the credit.
  abbrev Keeps : MuxStreamAsyncWrite → MuxStreamAsyncWrite × Done → Type 0
  Keeps s (s', d) = (s'.sent ≡ s.sent) × (s'.info ≡ s.info)

  answered-Keeps :
      (s : MuxStreamAsyncWrite) (r : Poll (Option (Option WispError)))
      → Keeps s (close_answered s r)
  answered-Keeps s pending = (refl, refl)
  answered-Keeps s (ready none) = (refl, refl)
  answered-Keeps s (ready (some r)) = (refl, refl)

  requested-Keeps :
      (s : MuxStreamAsyncWrite) (a : Actor) (r : Poll Bool) → Keeps s (close_requested s a r)
  requested-Keeps s a pending = (refl, refl)
  requested-Keeps s a (ready false) = (refl, refl)
  requested-Keeps s a (ready true) = elim (Bool-cases a.accepts) [
    | inl yes_ ↦ rw yes_ (refl, refl)
    | inr no_ ↦ rw no_ (refl, refl)
  ]

  close-Keeps :
      (s : MuxStreamAsyncWrite) (t : Transport) (a : Actor) (x : MuxStreamAsyncWrite × Done)
      → Flushed s t x
      → Keeps s (close_after_flush x a)
  close-Keeps s t a (s', pending) (e, i, h) = (e ∙ append-nil s.sent, i)
  close-Keeps s t a (s', ready (some x)) (e, i, h) = (e ∙ append-nil s.sent, i)
  close-Keeps s t a (s', ready none) (e, i, h) =
      let k : Keeps s' (close_requested s' a a.poll_ready) = requested-Keeps s' a a.poll_ready in
      (k.0 ∙ e ∙ append-nil s.sent, k.1 ∙ i)

  Keeps-After :
      (s : MuxStreamAsyncWrite) (t : Transport) (a : Actor) (x : MuxStreamAsyncWrite × Done)
      → Keeps s x
      → After s (close t a) (x.0, answered x.1)
  Keeps-After s t a (s', d) (e, i) = (e ∙ sym (append-nil s.sent), i, tt)

  close-cases :
      (s : MuxStreamAsyncWrite) (t : Transport) (a : Actor) (b : Bool)
      → Keeps s
          (if b then close_answered s a.answer else close_after_flush (async_poll_flush s t) a)
  close-cases s t a true = answered-Keeps s a.answer
  close-cases s t a false = close-Keeps s t a (async_poll_flush s t) (flush-After s t)

  -- Every branch of every call: a write that is answered with a number has taken its whole buffer and
  -- sent it in one DATA frame, and no other call sends one; the stream's credit never changes; and the
  -- lock on the transport is given back after a success and kept after an error.
  pub act-After : (s : MuxStreamAsyncWrite) (c : Call) → After s c (act s c)
  unfolding async_poll_write async_poll_flush async_poll_close
  act-After s (write buffer t) = elim (Bool-cases (s.locked || t.lock_free)) [
    | inl free ↦ rw free (ready-After s buffer t t.poll_ready free)
    | inr held ↦
        rw held (sym (append-nil s.sent), refl, or-false s.locked t.lock_free held ∙ sym held)
  ]
  act-After s (flush t) = flush-After s t
  act-After s (close t a) = Keeps-After s t a (async_poll_close s t a) (close-cases s t a s.closing)

  abbrev then_ : List Heard → MuxStreamAsyncWrite × List Heard → MuxStreamAsyncWrite × List Heard
  then_ hs (s, rest) = (s, hs ++ rest)

  -- A sequence of calls, with their answers.
  abbrev pub acts : MuxStreamAsyncWrite → List Call → MuxStreamAsyncWrite × List Heard
  acts s [] = (s, [])
  acts s (c ∷ cs) = let (s', h) = act s c in then_ (h ∷ []) (acts s' cs)

  abbrev pub all_frames : ℕ → List Call → List Heard → List Payload
  all_frames id [] hs = []
  all_frames id (c ∷ cs) [] = []
  all_frames id (c ∷ cs) (h ∷ hs) = frames_of id c h ++ all_frames id cs hs

  acts_sent :
      (s : MuxStreamAsyncWrite) (cs : List Call)
      → let (s', hs) = acts s cs in
        (s'.sent ≡ s.sent ++ all_frames s.info.id cs hs) × (s'.info ≡ s.info)
  acts_sent s [] = (sym (append-nil s.sent), refl)
  acts_sent s (c ∷ cs) =
      let (e, i, h) = act-After s c in
      let (es, is) = acts_sent (act s c).0 cs in
      (
        es
            ∙ ap
                (λ (n : StreamInfo). (act s c).0.sent ++ all_frames n.id cs (acts (act s c).0 cs).1)
                i
            ∙ ap (λ fs. fs ++ all_frames s.info.id cs (acts (act s c).0 cs).1) e
            ∙ append_assoc s.sent (frames_of s.info.id c (act s c).1)
                (all_frames s.info.id cs (acts (act s c).0 cs).1),
        is ∙ i,
      )

  -- The same half with another state of its credit.
  abbrev pub with_credit : StreamInfo → MuxStreamAsyncWrite → MuxStreamAsyncWrite
  with_credit i s = record s { info = i }

  abbrev pub both : StreamInfo → MuxStreamAsyncWrite × Done → MuxStreamAsyncWrite × Done
  both i (s, d) = (with_credit i s, d)

  async_poll_flush-with_credit :
      (i : StreamInfo) (s : MuxStreamAsyncWrite) (t : Transport)
      → async_poll_flush (with_credit i s) t ≡ both i (async_poll_flush s t)
  unfolding async_poll_flush
  async_poll_flush-with_credit i s t = elim (Bool-cases (s.locked || t.lock_free)) [
    | inl free ↦ rw free (flushed t.poll_flush)
    | inr held ↦ rw held refl
  ]
    where
      flushed :
          (d : Done)
          → async_flushed (with_lock (with_credit i s)) d ≡ both i (async_flushed (with_lock s) d)
      flushed pending = refl
      flushed (ready none) = refl
      flushed (ready (some e)) = refl

  close_answered-with_credit :
      (i : StreamInfo) (s : MuxStreamAsyncWrite) (r : Poll (Option (Option WispError)))
      → close_answered (with_credit i s) r ≡ both i (close_answered s r)
  close_answered-with_credit i s pending = refl
  close_answered-with_credit i s (ready none) = refl
  close_answered-with_credit i s (ready (some r)) = refl

  close_requested-with_credit :
      (i : StreamInfo) (s : MuxStreamAsyncWrite) (a : Actor) (r : Poll Bool)
      → close_requested (with_credit i s) a r ≡ both i (close_requested s a r)
  close_requested-with_credit i s a pending = refl
  close_requested-with_credit i s a (ready false) = refl
  close_requested-with_credit i s a (ready true) = elim (Bool-cases a.accepts) [
    | inl yes_ ↦ rw yes_ refl
    | inr no_ ↦ rw no_ refl
  ]

  close_after_flush-with_credit :
      (i : StreamInfo) (x : MuxStreamAsyncWrite × Done) (a : Actor)
      → close_after_flush (both i x) a ≡ both i (close_after_flush x a)
  close_after_flush-with_credit i (s, pending) a = refl
  close_after_flush-with_credit i (s, ready (some e)) a = refl
  close_after_flush-with_credit i (s, ready none) a = close_requested-with_credit i s a a.poll_ready

  close_cases-with_credit :
      (i : StreamInfo) (s : MuxStreamAsyncWrite) (t : Transport) (a : Actor) (b : Bool)
      → (if b
          then close_answered (with_credit i s) a.answer
          else close_after_flush (async_poll_flush (with_credit i s) t) a)
        ≡ both i
            (if b then close_answered s a.answer else close_after_flush (async_poll_flush s t) a)
  close_cases-with_credit i s t a true = close_answered-with_credit i s a.answer
  close_cases-with_credit i s t a false =
      ap (λ x. close_after_flush x a) (async_poll_flush-with_credit i s t)
      ∙ close_after_flush-with_credit i (async_poll_flush s t) a

  async_poll_close-with_credit :
      (i : StreamInfo) (s : MuxStreamAsyncWrite) (t : Transport) (a : Actor)
      → async_poll_close (with_credit i s) t a ≡ both i (async_poll_close s t a)
  unfolding async_poll_close
  async_poll_close-with_credit i s t a = close_cases-with_credit i s t a s.closing

  abbrev both_wrote : StreamInfo → MuxStreamAsyncWrite × Wrote → MuxStreamAsyncWrite × Wrote
  both_wrote i (s, r) = (with_credit i s, r)

  write_ready-with_credit :
      (i : StreamInfo) (s : MuxStreamAsyncWrite) (buffer : Payload) (t : Transport) (d : Done)
      → i.id ≡ s.info.id
      → write_ready (with_credit i s) buffer t d ≡ both_wrote i (write_ready s buffer t d)
  write_ready-with_credit i s buffer t pending h = refl
  write_ready-with_credit i s buffer t (ready (some e)) h = refl
  write_ready-with_credit i s buffer t (ready none) h =
      ap
        (λ n.
          write_started (with_credit i s) buffer (data_frame n buffer)
            (t.start_send (data_frame n buffer)))
        h
      ∙ started (t.start_send (data_frame s.info.id buffer))
    where
      started :
          (o : Option WispError)
          → write_started (with_credit i s) buffer (data_frame s.info.id buffer) o
            ≡ both_wrote i (write_started s buffer (data_frame s.info.id buffer) o)
      started none = refl
      started (some e) = refl

  async_poll_write-with_credit :
      (i : StreamInfo) (s : MuxStreamAsyncWrite) (buffer : Payload) (t : Transport)
      → i.id ≡ s.info.id
      → async_poll_write (with_credit i s) buffer t ≡ both_wrote i (async_poll_write s buffer t)
  unfolding async_poll_write
  async_poll_write-with_credit i s buffer t h = elim (Bool-cases (s.locked || t.lock_free)) [
    | inl free ↦ rw free (write_ready-with_credit i (with_lock s) buffer t t.poll_ready h)
    | inr held ↦ rw held refl
  ]

  abbrev both_heard : StreamInfo → MuxStreamAsyncWrite × Heard → MuxStreamAsyncWrite × Heard
  both_heard i (s, h) = (with_credit i s, h)

  act-with_credit :
      (i : StreamInfo) (s : MuxStreamAsyncWrite) (c : Call)
      → i.id ≡ s.info.id
      → act (with_credit i s) c ≡ both_heard i (act s c)
  act-with_credit i s (write buffer t) h =
      ap (λ x. (x.0, wrote x.1)) (async_poll_write-with_credit i s buffer t h)
  act-with_credit i s (flush t) h =
      ap (λ x. (x.0, answered x.1)) (async_poll_flush-with_credit i s t)
  act-with_credit i s (close t a) h =
      ap (λ x. (x.0, answered x.1)) (async_poll_close-with_credit i s t a)

  abbrev both_acts :
      StreamInfo → MuxStreamAsyncWrite × List Heard → MuxStreamAsyncWrite × List Heard
  both_acts i (s, hs) = (with_credit i s, hs)

  acts-with_credit :
      (i : StreamInfo) (s : MuxStreamAsyncWrite) (cs : List Call)
      → i.id ≡ s.info.id
      → acts (with_credit i s) cs ≡ both_acts i (acts s cs)
  acts-with_credit i s [] h = refl
  acts-with_credit i s (c ∷ cs) h =
      let (_, kept, _) = act-After s c in
      ap (λ x. then_ (x.1 ∷ []) (acts x.0 cs)) (act-with_credit i s c h)
      ∙ ap (then_ ((act s c).1 ∷ []))
          (acts-with_credit i (act s c).0 cs (h ∙ sym (ap (λ j. j.id) kept)))

  -- In every order of `poll_write`, `poll_flush` and `poll_close`, whatever the transport and the
  -- multiplexor answer: the frames sent are the buffers that were taken, each whole and in order; the
  -- stream's credit is as it was; and with any other credit of the same stream, none included, the
  -- same calls have the same answers and send the same frames.
  pub acts_send :
      (s : MuxStreamAsyncWrite) (cs : List Call) (i : StreamInfo)
      → i.id ≡ s.info.id
      → let (s', hs) = acts s cs in
        (s'.sent ≡ s.sent ++ all_frames s.info.id cs hs)
        × (s'.info ≡ s.info)
        × (acts (record s { info = i }) cs ≡ (record s' { info = i }, hs))
  acts_send s cs i h = let (e, k) = acts_sent s cs in (e, k, acts-with_credit i s cs h)
