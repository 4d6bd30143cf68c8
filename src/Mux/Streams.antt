-- ===== src/Mux/Streams.antt =====
-- What the events do to the streams, one by one.
use epoxy_tls.Base.{
  ℕ, ◌+◌, ◌≤◌, ◌<◌, ◌≡◌, ◌≢◌, ◌⊎◌, inl, inr, refl, sym, arith, false, if◌then◌else◌, ◌==◌, ◌&&◌,
  Bool-cases, [], ◌∷◌, ◌++◌, length, lookup, lookup-insert, lookup-remove, get_elem?,
  get_elem?-modify_ne, get_elem?-modify_self, Option, none, some, Option-cases, ok, err, Role,
  server, client, WispError, max_stream_count_reached, invalid_stream_id, ltb,
}
use epoxy_tls.Bytes.{Buf, Payload}
use epoxy_tls.Packet.Kinds.{StreamType}
use epoxy_tls.Packet.Codec.{ClosePacket, payload, close, packet_encode}
use epoxy_tls.Stream.Channel.{Flume, has_room}
use epoxy_tls.Stream.Info.{u32_max}
use epoxy_tls.Stream.Deliver.{server_deliver, client_deliver}
use epoxy_tls.Mux.State.{
  Mux, StreamObject, closed, add_stream, create_stream, close_stream, close_object,
}
use epoxy_tls.Mux.Handlers.{handle_data_packet, deliver, handle_packet}
use epoxy_tls.Mux.Events.{send_close, close_event, handle_event}

module _ ⦃flume : Flume⦄ where
  deliver_queues :
      (role : Role) (o : StreamObject) (p : Payload)
      → o.channel.bound ≢ some 0
      → (deliver role o p).channel.queue ≡ (
          if o.channel.has_receiver && has_room o.channel.bound (length o.channel.queue)
          then o.channel.queue ++ (p ∷ [])
          else o.channel.queue)
  unfolding server_deliver client_deliver
  deliver_queues client o p h = ground (arith, flume.try_send_lem o.channel p)
  deliver_queues server o p h = ground (arith, flume.try_send_lem o.channel p)

  -- A DATA packet for a stream of the map goes to the end of that stream's queue, if the queue has
  -- room and a reader, and is dropped otherwise. It never ends the multiplexor, and changes neither
  -- the map nor any other stream.
  pub data_delivered :
      (m : Mux) (id h : ℕ) (o : StreamObject) (p : Payload)
      → lookup id m.streams ≡ some h
      → get_elem? m.objects h ≡ some o
      → o.channel.bound ≢ some 0
      → let (m', result) = handle_packet m (record { stream_id = id; packet_type = payload p }) in
        (result ≡ ok false)
        × (m'.streams ≡ m.streams)
        × ((o' : StreamObject) × (get_elem? m'.objects h ≡ some o')
            × (o'.channel.queue ≡ (
                if o.channel.has_receiver && has_room o.channel.bound (length o.channel.queue)
                then o.channel.queue ++ (p ∷ [])
                else o.channel.queue)))
        × ((i : ℕ) → i ≢ h → get_elem? m'.objects i ≡ get_elem? m.objects i)
  unfolding handle_packet handle_data_packet
  data_delivered m id h o p found at b = rw found (
    refl,
    refl,
    (deliver m.role o p, get_elem?-modify_self m.objects h _ at, deliver_queues m.role o p b),
    λ i other. get_elem?-modify_ne m.objects h i _ (λ e. other (sym e)),
  )

-- No stream has an identifier beyond the last that was given out, and none has 0.
abbrev pub IsFresh : Mux → Type 0
IsFresh m = (id h : ℕ) → lookup id m.streams ≡ some h → (0 < id) × (id ≤ m.current_id)

-- Creating a stream fails exactly when the last identifier was used. It then changes nothing;
-- otherwise the stream has the next identifier, which was free, its object is new, and all other
-- streams keep their entries.
pub create_stream-IsFresh :
    (m : Mux) (ty : StreamType)
    → IsFresh m
    → let (m', result) = create_stream m ty in
      ((u32_max ≤ m.current_id) × (m' ≡ m) × (result ≡ err max_stream_count_reached))
      ⊎ ((m.current_id < u32_max)
          × (result ≡ ok (length m.objects, m.current_id + 1))
          × (lookup (m.current_id + 1) m.streams ≡ none)
          × ((id : ℕ)
              → lookup id m'.streams
                ≡ (if m.current_id + 1 == id then some (length m.objects) else lookup id m.streams))
          × IsFresh m')
unfolding create_stream add_stream
create_stream-IsFresh m ty v = elim (Bool-cases (ltb m.current_id u32_max)) [
  | inr full ↦ rw full (inl (ground arith, refl, refl))
  | inl small ↦ rw small (
      inr (
        ground arith,
        refl,
        elim (Option-cases (lookup (m.current_id + 1) m.streams)) [
          | inl e ↦ e
          | inr (h, e) ↦ absurd (omega (arith, v (m.current_id + 1) h e))
        ],
        λ id. lookup-insert id (m.current_id + 1) (length m.objects) m.streams,
        λ id h e. elim (Bool-cases (m.current_id + 1 == id)) [
          | inl new ↦ ground arith
          | inr old ↦
              let (lo, hi) = v id h (
                ground (arith, lookup-insert id (m.current_id + 1) (length m.objects) m.streams)) in
              omega arith
        ],
      ))
]

module _ ⦃buf : Buf⦄ ⦃flume : Flume⦄ where
  -- A request to close a stream of the map takes its entry away, drops its sender, records the
  -- reason and sends the peer the CLOSE frame, and the user gets the transport's answer; no other
  -- entry or object changes.
  pub close_event_closes :
      (m : Mux) (id h : ℕ) (o : StreamObject) (c : ClosePacket)
      → lookup id m.streams ≡ some h
      → get_elem? m.objects h ≡ some o
      → let (m', result) = handle_event m (close_event id c) none in
        (result ≡ ok false)
        × (m'.sent
            ≡ m.sent ++ (packet_encode (record { stream_id = id; packet_type = close c }) ∷ []))
        × (m'.replies ≡ m.replies ++ (closed none ∷ []))
        × ((j : ℕ) → lookup j m'.streams ≡ (if id == j then none else lookup j m.streams))
        × (get_elem? m'.objects h ≡ some (close_object c.reason o))
        × ((i : ℕ) → i ≢ h → get_elem? m'.objects i ≡ get_elem? m.objects i)
  unfolding handle_event close_stream
  close_event_closes m id h o c found at = rw found (
    refl,
    refl,
    refl,
    λ j. lookup-remove j id m.streams,
    get_elem?-modify_self m.objects h _ at,
    λ i other. get_elem?-modify_ne m.objects h i _ (λ e. other (sym e)),
  )

  close_event_gone :
      (m : Mux) (id : ℕ) (c : ClosePacket) (answer : Option WispError)
      → lookup id (send_close m id c answer (lookup id m.streams)).streams ≡ none
  unfolding close_stream
  close_event_gone m id c none = elim (Option-cases (lookup id m.streams)) [
    | inl e ↦ rw e e
    | inr (h, e) ↦ rw e (ground (arith, lookup-remove id id m.streams))
  ]
  close_event_gone m id c (some x) = elim (Option-cases (lookup id m.streams)) [
    | inl e ↦ rw e e
    | inr (h, e) ↦ rw e (ground (arith, lookup-remove id id m.streams))
  ]

  -- A stream that is closed is gone: a second request is answered with `InvalidStreamId`, and sends
  -- nothing.
  pub close_twice :
      (m : Mux) (id : ℕ) (c d : ClosePacket) (answer answer' : Option WispError)
      → let m' = (handle_event m (close_event id c) answer).0 in
        let m'' = (handle_event m' (close_event id d) answer').0 in
        m'' ≡ record m' { replies = m'.replies ++ (closed (some (invalid_stream_id id)) ∷ []) }
  unfolding handle_event
  close_twice m id c d answer answer' = rw (close_event_gone m id c answer)
