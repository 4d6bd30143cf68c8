-- ===== src/Mux/Shutdown.antt =====
-- The end of the multiplexor.
use epoxy_tls.Base.{
  ℕ, ◌≡◌, ◌⊎◌, inl, inr, refl, sym, ◌∙◌, ap, arith, true, false, ◌==◌, Bool-cases, List, [], ◌∷◌,
  lookup, get_elem?, modify, get_elem?-modify_inv, Option, none, some, Option-cases, Outcome, ok,
  err, panic, diverge, Role, WispError,
}
use epoxy_tls.Bytes.{Buf}
use epoxy_tls.Packet.Kinds.{unknown}
use epoxy_tls.Packet.Codec.{ConnectPacket, ClosePacket, Packet}
use epoxy_tls.Extension.Any.{AnyProtocolExtension}
use epoxy_tls.Stream.Channel.{Flume}
use epoxy_tls.Mux.State.{Mux, StreamObject, mux_new, close_stream, close_object}
use epoxy_tls.Mux.Handlers.{Handled, handle_packet}
use epoxy_tls.Mux.Events.{
  WsEvent, close_event, create_event, wisp_message, end_fut, Input, event, read_failed,
  send_connect, send_close, handle_event, continue_run, run, entry, close_all, into_future,
}
use epoxy_tls.Mux.Live.{has_sender, IsMapped, create_stream-IsMapped, close_entry-IsMapped}
use epoxy_tls.Mux.Preserve.{handle_packet-IsMapped}

module _ ⦃buf : Buf⦄ where
  send_connect-IsMapped :
      (pkt : ConnectPacket) (answer : Option WispError) (r : Mux × Outcome (ℕ × ℕ))
      → IsMapped r.0
      → IsMapped (send_connect pkt answer r)
  send_connect-IsMapped pkt none (m, ok (h, id)) v = v
  send_connect-IsMapped pkt (some e) (m, ok (h, id)) v = v
  send_connect-IsMapped pkt answer (m, err e) v = v
  send_connect-IsMapped pkt answer (m, panic) v = v
  send_connect-IsMapped pkt answer (m, diverge) v = v

  send_close-IsMapped :
      (m : Mux) (id : ℕ) (c : ClosePacket) (answer : Option WispError)
      → IsMapped m
      → IsMapped (send_close m id c answer (lookup id m.streams))
  send_close-IsMapped m id c none v = elim (Option-cases (lookup id m.streams)) [
    | inl e ↦ rw e v
    | inr (h, e) ↦ rw e (unfold close_stream in close_entry-IsMapped m id c.reason h e v)
  ]
  send_close-IsMapped m id c (some x) v = elim (Option-cases (lookup id m.streams)) [
    | inl e ↦ rw e v
    | inr (h, e) ↦ rw e (unfold close_stream in close_entry-IsMapped m id c.reason h e v)
  ]

module _ ⦃buf : Buf⦄ ⦃flume : Flume⦄ where
  continue_run-IsMapped :
      (r : Handled) (more : Mux → Mux × Outcome (Unit {0}))
      → IsMapped r.0
      → ((m : Mux) → IsMapped m → IsMapped (more m).0)
      → IsMapped (continue_run r more).0
  continue_run-IsMapped (m, ok false) more v w = w m v
  continue_run-IsMapped (m, ok true) more v w = v
  continue_run-IsMapped (m, err e) more v w = v
  continue_run-IsMapped (m, panic) more v w = v
  continue_run-IsMapped (m, diverge) more v w = v

  handle_event-IsMapped :
      (m : Mux) (e : WsEvent) (answer : Option WispError)
      → IsMapped m
      → IsMapped (handle_event m e answer).0
  unfolding handle_event
  handle_event-IsMapped m (create_event pkt) answer v =
      send_connect-IsMapped pkt answer _ (create_stream-IsMapped m pkt.stream_type v)
  handle_event-IsMapped m (close_event id c) answer v = send_close-IsMapped m id c answer v
  handle_event-IsMapped m (end_fut none) answer v = v
  handle_event-IsMapped m (end_fut (some reason)) none v = v
  handle_event-IsMapped m (end_fut (some reason)) (some e) v = v
  handle_event-IsMapped m (wisp_message packet) answer v = handle_packet-IsMapped m packet v

  run-IsMapped : (m : Mux) (inputs : List Input) → IsMapped m → IsMapped (run m inputs).0
  unfolding run
  run-IsMapped m [] v = v
  run-IsMapped m (read_failed e ∷ inputs) v = v
  run-IsMapped m (event e answer ∷ inputs) v =
      continue_run-IsMapped (handle_event m e answer) (λ m'. run m' inputs)
        (handle_event-IsMapped m e answer v) (λ m' v'. run-IsMapped m' inputs v')

  entry-IsMapped :
      (m : Mux) (downgrade : Option Packet) (inputs : List Input)
      → IsMapped m
      → IsMapped (entry m downgrade inputs).0
  unfolding entry
  entry-IsMapped m none inputs v = run-IsMapped m inputs v
  entry-IsMapped m (some packet) inputs v =
      continue_run-IsMapped (handle_packet m packet) (λ m'. run m' inputs)
        (handle_packet-IsMapped m packet v) (λ m' v'. run-IsMapped m' inputs v')

  -- The object has lost its sender.
  abbrev IsShut : List StreamObject → ℕ → Type 0
  IsShut objects i = (o : StreamObject) → get_elem? objects i ≡ some o → has_sender o ≡ false

  modify-IsShut :
      (objects : List StreamObject) (h i : ℕ) (f : StreamObject → StreamObject)
      → ((o : StreamObject) → has_sender (f o) ≡ false)
      → IsShut objects i ⊎ (i ≡ h)
      → IsShut (modify objects h f) i
  modify-IsShut objects h i f drops w o e = elim (get_elem?-modify_inv objects h i f e) [
    | inr (_, (o', _, same)) ↦ ap has_sender same ∙ drops o'
    | inl (other, old) ↦ elim w [ inl shut ↦ shut o old | inr here ↦ absurd (other here) ]
  ]

  close_all-IsShut :
      (entries : List (ℕ × ℕ)) (m : Mux) (i : ℕ)
      → IsShut m.objects i ⊎ ((id : ℕ) × (lookup id entries ≡ some i))
      → IsShut (close_all m entries).objects i
  unfolding close_all close_stream lookup
  close_all-IsShut [] m i (inl shut) = shut
  close_all-IsShut [] m i (inr (id, e)) = cc
  close_all-IsShut ((j, h) ∷ entries) m i (inl shut) =
      close_all-IsShut entries _ i
        (inl (modify-IsShut m.objects h i (close_object unknown) (λ o. refl) (inl shut)))
  close_all-IsShut ((j, h) ∷ entries) m i (inr (id, e)) = elim (Bool-cases (j == id)) [
    | inl found ↦
        close_all-IsShut entries _ i (
          inl (modify-IsShut m.objects h i (close_object unknown) (λ o. refl) (inr (ground arith))))
    | inr other ↦ close_all-IsShut entries _ i (inr (id, ground arith))
  ]

  IsShut-or_mapped :
      (m : Mux) (i : ℕ)
      → IsMapped m
      → IsShut m.objects i ⊎ ((id : ℕ) × (lookup id m.streams ≡ some i))
  IsShut-or_mapped m i v = elim (Option-cases (get_elem? m.objects i)) [
    | inl gone ↦ inl (λ o e. cc)
    | inr (o, e) ↦ elim (Bool-cases (has_sender o)) [
      | inl l ↦ inr (v i o e l)
      | inr l ↦ inl (λ o' e'. let same : o ≡ o' = ground arith in ap has_sender (sym same) ∙ l)
    ]
  ]

  close_all_streams : (entries : List (ℕ × ℕ)) (m : Mux) → (close_all m entries).streams ≡ []
  unfolding close_all
  close_all_streams [] m = refl
  close_all_streams ((id, h) ∷ entries) m = close_all_streams entries _

  -- However the multiplexor ends, by a request, a frame, an error or the end of the transport: its
  -- map is empty, the transport was asked to close, and no stream that it ever made has a sender left.
  pub into_future_closes_all :
      (role : Role) (extensions : List AnyProtocolExtension) (buffer_size : ℕ)
      (downgrade : Option Packet) (inputs : List Input)
      → let m = (into_future (mux_new role extensions buffer_size) downgrade inputs).0 in
        (m.streams ≡ [])
        × (m.transport_closed ≡ true)
        × ((i : ℕ) (o : StreamObject)
            → get_elem? m.objects i ≡ some o
            → o.channel.has_sender ≡ false)
  unfolding into_future mux_new
  into_future_closes_all role extensions buffer_size downgrade inputs =
      let m = (entry (mux_new role extensions buffer_size) downgrade inputs).0 in
      let v =
        entry-IsMapped (mux_new role extensions buffer_size) downgrade inputs (λ i o e l. cc) in
      (
        close_all_streams m.streams m,
        refl,
        λ i. close_all-IsShut m.streams m i (IsShut-or_mapped m i v),
      )
