-- ===== src/Tests/Adapters.antt =====
-- Type-erased extensions, packets of extensions, and the adapters of streams and transports, at
-- concrete values.
use epoxy_tls.Base.{
  ℕ, suc, codes, server, ◌≡◌, refl, inl, inr, true, false, List, [], ◌∷◌, ◌++◌, Option, none, some,
  ok, ws_impl_error, ◌>>=◌, Bool, ◌≢◌,
}
use epoxy_tls.Bytes.{Payload}
use epoxy_tls.Sink.Transport.{Transport, ready, pending}
use epoxy_tls.Extension.Motd.{MotdProtocolExtension}
use epoxy_tls.Extension.Erased.{Boxes, Downcast, cast, new, downcast, downcast_ref, downcast_mut}
use epoxy_tls.Extension.Erased.Typed.{downcast_typed}
use epoxy_tls.Packet.Codec.{packet_decode}
use epoxy_tls.Packet.Extended.{
  Handler, ExtensionStream, packet, extension_handled, maybe_extension_decode, extension_send,
}
use epoxy_tls.Packet.Extended.Dispatch.{maybe_extension_decode-packet, extension_send-handled}
use epoxy_tls.Stream.Info.{stream_info_new, enabled_track_amount, StreamInfo}
use epoxy_tls.Stream.Write.{write_new}
use epoxy_tls.Stream.Bytes.{MuxStreamAsyncWrite, async_write_new}
use epoxy_tls.Stream.Bytes.Frames.{Call, write, flush, acts, all_frames, acts_send}
use epoxy_tls.Ws.Unfold.{Async}
use epoxy_tls.Ws.Unfold.Pulled
use epoxy_tls.Ws.Unfold.Pulled.{polls_pull}
use epoxy_tls.Ws.Unfold.Pushed
use epoxy_tls.Ws.Unfold.Pushed.{acts_push}
use epoxy_tls.Tests.Instances.{list_buf}

data Kind : Type 0 where
  udp motd : Kind

abbrev Extension : Kind → Type 0
Extension udp = Unit {0}
Extension motd = MotdProtocolExtension

abbrev hello : MotdProtocolExtension
hello = record { role = server; motd = codes "hello" }

-- A pointer to the memory of either; a read of the wrong memory gives a message that was never made.
data Memory : Type 0 where
  unit_memory : Memory
  motd_memory : MotdProtocolExtension → Memory

box_memory : (k : Kind) → Extension k → Memory
box_memory udp v = unit_memory
box_memory motd v = motd_memory v

read_memory : (k : Kind) → Memory → Extension k
read_memory udp m = tt
read_memory motd unit_memory = record { role = server; motd = [] }
read_memory motd (motd_memory v) = v

read-box_memory : (k : Kind) (v : Extension k) → read_memory k (box_memory k v) ≡ v
unfolding read_memory box_memory
read-box_memory udp v = refl
read-box_memory motd v = refl

same_kind : Kind → Kind → Bool
same_kind udp udp = true
same_kind udp motd = false
same_kind motd udp = false
same_kind motd motd = true

same_kind→eq : (s t : Kind) → same_kind s t ≡ true → s ≡ t
unfolding same_kind
same_kind→eq udp udp h = refl
same_kind→eq udp motd h = cc
same_kind→eq motd udp h = cc
same_kind→eq motd motd h = refl

same_kind_refl : (t : Kind) → same_kind t t ≡ true
unfolding same_kind
same_kind_refl udp = refl
same_kind_refl motd = refl

abbrev memory : Boxes Extension
memory = record {
  Raw = Memory;
  new_box = box_memory;
  read = read_memory;
  type_id_eq = same_kind;
  read-new_box = read-box_memory;
  type_id_eq→eq = same_kind→eq;
  type_id_eq_refl = same_kind_refl;
}

udp-ne-motd : udp ≢ motd
udp-ne-motd = λ e. cc

downcast_typed_example :
    let boxed = new Extension memory motd hello in
    let other = new Extension memory udp tt in
    (downcast Extension memory motd boxed ≡ cast hello)
    × (downcast_ref Extension memory motd boxed ≡ some hello)
    × (downcast_mut Extension memory motd (λ v. hello) boxed ≡ some boxed)
    × (downcast Extension memory motd other ≡ Downcast.kept other)
    × (downcast_ref Extension memory motd other ≡ none)
    × (downcast_mut Extension memory motd (λ v. hello) other ≡ none)
downcast_typed_example = downcast_typed Extension memory udp motd hello tt (λ v. hello) udp-ne-motd

-- An extension that supports one number and counts the packets that it handles.
abbrev counting : Handler (ℕ × ℕ)
counting = record {
  get_supported_packets = λ e. e.0 ∷ [];
  handle_packet = λ e ty p. (ok tt, (e.0, suc e.1));
}

maybe_extension_decode-packet_example :
    maybe_extension_decode counting ((7, 0) ∷ []) (2 ∷ 1 ∷ 0 ∷ 0 ∷ 0 ∷ 9 ∷ [])
    ≡ (packet_decode (2 ∷ 1 ∷ 0 ∷ 0 ∷ 0 ∷ 9 ∷ []) >>= λ k. ok (packet k), (7, 0) ∷ [])
maybe_extension_decode-packet_example =
    maybe_extension_decode-packet counting ((7, 0) ∷ []) (2 ∷ 1 ∷ 0 ∷ 0 ∷ 0 ∷ 9 ∷ []) (inl refl)

abbrev extension_stream : ExtensionStream
extension_stream = record { id = 3; mux_gone = false; sent = [] }

extension_send-handled_example :
    (frame : Payload) × ((extension_send extension_stream 7 (9 ∷ []) (λ f. none)).0.sent
      ≡ [] ++ (frame ∷ []))
    × (maybe_extension_decode counting ((6, 0) ∷ (7, 0) ∷ []) frame
        ≡ (ok extension_handled, (6, 0) ∷ (7, 1) ∷ []))
extension_send-handled_example =
    extension_send-handled counting extension_stream 7 (9 ∷ []) (λ f. none) ((6, 0) ∷ []) [] (7, 0)
      refl refl (refl, tt) refl

abbrev open_transport : Transport
open_transport = record {
  lock_free = true;
  poll_ready = ready none;
  start_send = λ frame. none;
  poll_flush = ready none;
}

abbrev byte_stream : MuxStreamAsyncWrite
byte_stream = async_write_new (write_new (stream_info_new 5 enabled_track_amount 0))

abbrev busy_transport : Transport
busy_transport = record {
  lock_free = true;
  poll_ready = pending;
  start_send = λ frame. none;
  poll_flush = pending;
}

abbrev byte_calls : List Call
byte_calls =
    write (1 ∷ 2 ∷ []) open_transport
    ∷ write (3 ∷ []) busy_transport
    ∷ write (3 ∷ []) open_transport
    ∷ flush open_transport
    ∷ []

abbrev spent : StreamInfo
spent = stream_info_new 5 enabled_track_amount 0

acts_send_example :
    let (s, hs) = acts byte_stream byte_calls in
    (s.sent ≡ [] ++ all_frames 5 byte_calls hs)
    × (s.info ≡ byte_stream.info)
    × (acts (record byte_stream { info = spent }) byte_calls ≡ (record s { info = spent }, hs))
unfolding async_write_new write_new stream_info_new
acts_send_example = acts_send byte_stream byte_calls spent refl

-- A transport that gives the payloads of a list, each after one poll.
abbrev listed : List Payload → Async (Option (Payload × List Payload))
listed [] = (0, inr none)
listed (p ∷ ps) = (1, inr (some (p, ps)))

abbrev two_payloads : List Payload
two_payloads = (1 ∷ []) ∷ (2 ∷ []) ∷ []

polls_pull_example :
    let r = Pulled.polls listed 3 (Pulled.reading listed two_payloads) in
    (r.broke ≡ false)
    × ((t : List Payload) × Pulled.Pulls listed two_payloads r.got t
        × Pulled.Waits listed t r.state r.ended)
    × Pulled.Goes listed r
polls_pull_example = polls_pull listed two_payloads 3

-- A transport that keeps what it is given, and refuses an empty payload.
abbrev kept : List Payload → Payload → Async (List Payload)
kept ps [] = (0, inl ws_impl_error)
kept ps (b ∷ p) = (1, inr (ps ++ ((b ∷ p) ∷ [])))

abbrev push_calls : List Pushed.Call
push_calls =
    Pushed.poll_ready
    ∷ Pushed.start_send (1 ∷ [])
    ∷ Pushed.poll_ready
    ∷ Pushed.poll_ready
    ∷ Pushed.start_send []
    ∷ Pushed.poll_close
    ∷ []

-- Closing takes two polls and succeeds.
abbrev ends_well : Unit {0} → Async (Unit {0})
ends_well u = (1, inr tt)

acts_push_example :
    let r = Pushed.acts kept ends_well (Pushed.writing [] tt) push_calls in
    (r.broke ≡ false)
    × Pushed.Owes r.half.state r.failed (Pushed.pushed kept [] r.accepted)
    × ((n : ℕ) × Pushed.IsSettled (Pushed.acts kept ends_well r (Pushed.flushes n)))
acts_push_example = acts_push kept ends_well [] tt push_calls
