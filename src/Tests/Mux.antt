-- ===== src/Tests/Mux.antt =====
-- The multiplexor at concrete events.
use epoxy_tls.Base.{
  ℕ, ◌≤◌, ◌<◌, ◌≡◌, ◌≢◌, ◌⊎◌, refl, arith, true, false, ◌&&◌, ◌==◌, if◌then◌else◌, List, [], ◌∷◌,
  ◌++◌, length, lookup, get_elem?, none, some, ok, err, client, max_stream_count_reached,
  invalid_stream_id,
}
use epoxy_tls.Packet.Kinds.{tcp, voluntary}
use epoxy_tls.Packet.Codec.{ClosePacket, ConnectPacket, close, payload, packet_encode}
use epoxy_tls.Stream.Channel.{has_room, unbounded}
use epoxy_tls.Stream.Info.{u32_max, stream_info_new, enabled_track_amount}
use epoxy_tls.Mux.State.{Mux, StreamObject, mux_new, create_stream, close_object, closed}
use epoxy_tls.Mux.Handlers.{handle_packet}
use epoxy_tls.Mux.Events.{Input, close_event, create_event, event, handle_event, into_future}
use epoxy_tls.Mux.Shutdown.{into_future_closes_all}
use epoxy_tls.Mux.Streams.{
  data_delivered, IsFresh, create_stream-IsFresh, close_event_closes, close_twice,
}
use epoxy_tls.Tests.Instances.{list_buf, list_flume}

abbrev request : ConnectPacket
request = record { stream_type = tcp; host = 0x61 ∷ []; port = 80 }

abbrev goodbye : ClosePacket
goodbye = record { reason = voluntary }

-- The event stream ends with an open stream.
abbrev cut_short : List Input
cut_short = event (create_event request) none ∷ []

into_future_closes_all_example :
    let m = (into_future (mux_new client [] 2) none cut_short).0 in
    (m.streams ≡ [])
    × (m.transport_closed ≡ true)
    × ((i : ℕ) (o : StreamObject) → get_elem? m.objects i ≡ some o → o.channel.has_sender ≡ false)
into_future_closes_all_example = into_future_closes_all client [] 2 none cut_short

abbrev stream : StreamObject
stream = record { info = stream_info_new 1 enabled_track_amount 2; channel = unbounded }

-- A client with one stream.
abbrev one_stream : Mux
one_stream = record {
  role = client;
  flow_stream_types = 1 ∷ [];
  streams = (1, 0) ∷ [];
  objects = stream ∷ [];
  current_id = 1;
  buffer_size = 2;
  sent = [];
  locked = false;
  accepted = [];
  accepting = true;
  replies = [];
  transport_closed = false;
}

data_delivered_example :
    let (m', result) =
      handle_packet one_stream (record { stream_id = 1; packet_type = payload (9 ∷ []) }) in
    (result ≡ ok false)
    × (m'.streams ≡ one_stream.streams)
    × ((o' : StreamObject) × (get_elem? m'.objects 0 ≡ some o')
        × (o'.channel.queue ≡ (
            if stream.channel.has_receiver
              && has_room stream.channel.bound (length stream.channel.queue)
            then stream.channel.queue ++ ((9 ∷ []) ∷ [])
            else stream.channel.queue)))
    × ((i : ℕ) → i ≢ 0 → get_elem? m'.objects i ≡ get_elem? one_stream.objects i)
unfolding lookup
data_delivered_example = data_delivered one_stream 1 0 stream (9 ∷ []) refl refl (λ e. cc)

one_stream-IsFresh : IsFresh one_stream
unfolding lookup
one_stream-IsFresh id h e = ground arith

create_stream-IsFresh_example :
    let (m', result) = create_stream one_stream tcp in
    ((u32_max ≤ 1) × (m' ≡ one_stream) × (result ≡ err max_stream_count_reached))
    ⊎ ((1 < u32_max)
        × (result ≡ ok (1, 2))
        × (lookup 2 one_stream.streams ≡ none)
        × ((id : ℕ)
            → lookup id m'.streams ≡ (if 2 == id then some 1 else lookup id one_stream.streams))
        × IsFresh m')
create_stream-IsFresh_example = create_stream-IsFresh one_stream tcp one_stream-IsFresh

close_event_closes_example :
    let (m', result) = handle_event one_stream (close_event 1 goodbye) none in
    (result ≡ ok false)
    × (m'.sent ≡ [] ++ (packet_encode (record { stream_id = 1; packet_type = close goodbye }) ∷ []))
    × (m'.replies ≡ [] ++ (closed none ∷ []))
    × ((j : ℕ) → lookup j m'.streams ≡ (if 1 == j then none else lookup j one_stream.streams))
    × (get_elem? m'.objects 0 ≡ some (close_object voluntary stream))
    × ((i : ℕ) → i ≢ 0 → get_elem? m'.objects i ≡ get_elem? one_stream.objects i)
unfolding lookup
close_event_closes_example = close_event_closes one_stream 1 0 stream goodbye refl refl

close_twice_example :
    let m' = (handle_event one_stream (close_event 1 goodbye) none).0 in
    (handle_event m' (close_event 1 goodbye) none).0
    ≡ record m' { replies = m'.replies ++ (closed (some (invalid_stream_id 1)) ∷ []) }
close_twice_example = close_twice one_stream 1 goodbye goodbye none none
