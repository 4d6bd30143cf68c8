-- ===== src/Mux/Handlers.antt =====
-- wisp/src/mux/inner.rs, client.rs and server.rs: what `MuxInner` does with a packet. Every handler
-- returns the state and the result, of which `ok true` ends the multiplexor.
use epoxy_tls.Base.{
  ℕ, ◌==◌, if◌then◌else◌, Bool, true, false, [], ◌∷◌, ◌++◌, lookup, remove, modify, Option, none,
  some, Outcome, ok, err, invalid_packet_type, mux_message_failed_to_send, Role, server, client,
}
use epoxy_tls.Bytes.{Payload}
use epoxy_tls.Packet.Kinds.{CloseReason}
use epoxy_tls.Packet.Codec.{
  ConnectPacket, ContinuePacket, ClosePacket, PacketType, connect, payload, continue, close, Packet,
}
use epoxy_tls.Stream.Channel.{Flume}
use epoxy_tls.Stream.Info.{
  FlowControl, disabled, enabled_track_amount, enabled_send_messages, flow_set, flow_wake,
}
use epoxy_tls.Stream.Deliver.{server_deliver, client_deliver}
use epoxy_tls.Mux.State.{Mux, StreamObject, add_stream, close_stream}

abbrev pub Handled : Type 0
Handled = Mux × Outcome Bool

-- A client refuses a CONNECT, after the stream was added; a server queues it for its user.
abbrev pub handle_connect_packet : Role → Mux → ℕ → ConnectPacket → Handled
handle_connect_packet client m h pkt = (m, err (invalid_packet_type 0x01))
handle_connect_packet server m h pkt =
    if m.accepting
    then (record m { accepted = m.accepted ++ ((pkt, h) ∷ []) }, ok false)
    else (m, err mux_message_failed_to_send)

-- A grant of credit sets the amount of a stream that tracks it, and wakes its writer.
abbrev pub grant : FlowControl → ContinuePacket → StreamObject → StreamObject
grant disabled pkt o = o
grant enabled_track_amount pkt o = record o {
  info = (flow_wake (flow_set o.info pkt.buffer_remaining)).1;
}
grant enabled_send_messages pkt o = o

abbrev pub grant_entry : Mux → ContinuePacket → Option ℕ → Mux
grant_entry m pkt none = m
grant_entry m pkt (some h) = record m {
  objects = modify m.objects h (λ o. grant o.info.flow_status pkt o);
}

abbrev pub handle_continue_packet : Role → Mux → ℕ → ContinuePacket → Handled
handle_continue_packet client m id pkt = (grant_entry m pkt (lookup id m.streams), ok false)
handle_continue_packet server m id pkt = (m, err (invalid_packet_type 0x03))

abbrev pub close_entry : Mux → ℕ → CloseReason → Option ℕ → Mux
close_entry m id reason none = m
close_entry m id reason (some h) =
    close_stream (record m { streams = remove id m.streams }) h reason

unfoldable pub handle_close_packet : Mux → ℕ → ClosePacket → Mux × Bool
handle_close_packet m id c =
    if id == 0 then (m, true) else (close_entry m id c.reason (lookup id m.streams), false)

module _ ⦃flume : Flume⦄ where
  abbrev pub deliver : Role → StreamObject → Payload → StreamObject
  deliver client o p =
      let (channel, info) = client_deliver o.channel o.info p in
      record { info = info; channel = channel }
  deliver server o p =
      let (channel, info) = server_deliver o.channel o.info p in
      record { info = info; channel = channel }

  abbrev pub deliver_entry : Mux → Payload → Option ℕ → Mux
  deliver_entry m p none = m
  deliver_entry m p (some h) = record m { objects = modify m.objects h (λ o. deliver m.role o p) }

  -- Data for an unknown stream is dropped.
  unfoldable pub handle_data_packet : Mux → ℕ → Payload → Mux
  handle_data_packet m id p = deliver_entry m p (lookup id m.streams)

  abbrev pub handle_packet_type : Mux → ℕ → PacketType → Handled
  handle_packet_type m id (connect pkt) =
      let (m', h) = add_stream m id pkt.stream_type in handle_connect_packet m.role m' h pkt
  handle_packet_type m id (payload p) = (handle_data_packet m id p, ok false)
  handle_packet_type m id (continue pkt) = handle_continue_packet m.role m id pkt
  handle_packet_type m id (close pkt) =
      let (m', stop) = handle_close_packet m id pkt in (m', ok stop)

  unfoldable pub handle_packet : Mux → Packet → Handled
  handle_packet m p = handle_packet_type m p.stream_id p.packet_type
