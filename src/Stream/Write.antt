-- ===== src/Stream/Write.antt =====
-- wisp/src/stream/mod.rs: `MuxStreamWrite`, and its close handle in handles.rs.
pub mod Credit
use epoxy_tls.Base.{
  ℕ, ◌||◌, ◌&&◌, not, if◌then◌else◌, Bool, true, false, List, [], ◌∷◌, ◌++◌, Option, none, some,
  WispError, stream_already_closed, mux_message_failed_to_send, mux_message_failed_to_recv,
}
use epoxy_tls.Bytes.{Buf, Payload}
use epoxy_tls.Packet.Kinds.{CloseReason, unknown}
use epoxy_tls.Packet.Codec.{packet_encode, new_data}
use epoxy_tls.Sink.Transport.{Poll, ready, pending, Transport}
use epoxy_tls.Stream.Info.{
  StreamInfo, FlowControl, disabled, enabled_track_amount, enabled_send_messages, flow_dec,
  flow_empty, flow_register, get_reason,
}

-- `info` is shared with the multiplexor; `mux_gone` is that the multiplexor's end of the channel of
-- events is dropped. `sent` holds the frames given to the transport, and `closing` that a close
-- event was sent and its answer is awaited. `events` are the close events sent.
pub record MuxStreamWrite : Type 0 where
  pub info : StreamInfo
  pub mux_gone : Bool
  pub chunk : Option Payload
  pub locked : Bool
  pub sent : List Payload
  pub closing : Bool
  pub events : List CloseReason

unfoldable pub write_new : StreamInfo → MuxStreamWrite
write_new info = record {
  info = info;
  mux_gone = false;
  chunk = none;
  locked = false;
  sent = [];
  closing = false;
  events = [];
}

unfoldable pub write_get_close_reason : MuxStreamWrite → Option CloseReason
write_get_close_reason s = if s.mux_gone then some (get_reason s.info) else none

-- `none` is `Ok(())`.
abbrev pub Done : Type 0
Done = Poll (Option WispError)

abbrev pub tracks_amount : FlowControl → Bool
tracks_amount disabled = false
tracks_amount enabled_track_amount = true
tracks_amount enabled_send_messages = false

-- The channel of events and the answer to a close event, as one call meets them.
pub record Actor : Type 0 where
  pub poll_ready : Poll Bool
  pub accepts : Bool
  pub answer : Poll (Option (Option WispError))

unfoldable pub write_start_send : MuxStreamWrite → Payload → MuxStreamWrite × Option WispError
write_start_send s item = (record s { chunk = some item }, none)

abbrev pub after_send :
    MuxStreamWrite → Payload → Option WispError → MuxStreamWrite × Option WispError
after_send s frame (some e) = (record s { chunk = none }, some e)
after_send s frame none = (
  record s {
    chunk = none;
    sent = s.sent ++ (frame ∷ []);
    info = if tracks_amount s.info.flow_status then flow_dec s.info else s.info;
  },
  none,
)

abbrev pub unlock_ready : MuxStreamWrite × Option WispError → MuxStreamWrite × Done
unlock_ready (s, r) = (record s { locked = false }, ready r)

abbrev pub is_waiting : Option Payload → Bool
is_waiting none = false
is_waiting (some chunk) = true

abbrev pub flushed : MuxStreamWrite → Poll (Option WispError) → MuxStreamWrite × Done
flushed s pending = (s, pending)
flushed s (ready r) = (record s { locked = false }, ready r)

abbrev pub flush_written : MuxStreamWrite × Option WispError → Transport → MuxStreamWrite × Done
flush_written (s, some e) t = (record s { locked = false }, ready (some e))
flush_written (s, none) t = flushed s t.poll_flush

abbrev pub answered : MuxStreamWrite → Poll (Option (Option WispError)) → MuxStreamWrite × Done
answered s pending = (s, pending)
answered s (ready none) = (record s { closing = false }, ready (some mux_message_failed_to_send))
answered s (ready (some r)) = (record s { closing = false }, ready r)

-- A failed `start_send` leaves the receiver of the answer in place.
abbrev pub request_close : MuxStreamWrite → Actor → Poll Bool → MuxStreamWrite × Done
request_close s a pending = (s, pending)
request_close s a (ready false) = (s, ready (some mux_message_failed_to_send))
request_close s a (ready true) =
    if a.accepts
    then (record s { closing = true; events = s.events ++ (unknown ∷ []) }, pending)
    else (record s { closing = true }, ready (some mux_message_failed_to_send))

abbrev pub close_flushed : MuxStreamWrite × Done → Actor → MuxStreamWrite × Done
close_flushed (s, pending) a = (s, pending)
close_flushed (s, ready (some e)) a = (s, ready (some e))
close_flushed (s, ready none) a = request_close s a a.poll_ready

module _ ⦃buf : Buf⦄ where
  abbrev pub write_chunk :
      MuxStreamWrite → Option Payload → Transport → MuxStreamWrite × Option WispError
  write_chunk s none t = (s, none)
  write_chunk s (some chunk) t =
      let frame = packet_encode (new_data s.info.id chunk) in
      after_send s frame (t.start_send frame)

  unfoldable pub maybe_write : MuxStreamWrite → Transport → MuxStreamWrite × Option WispError
  unfolding flow_dec
  maybe_write s t = write_chunk s s.chunk t

  abbrev pub write_ready :
      MuxStreamWrite → Transport → Poll (Option WispError) → MuxStreamWrite × Done
  write_ready s t pending = (s, pending)
  write_ready s t (ready (some e)) = (record s { locked = false }, ready (some e))
  write_ready s t (ready none) = unlock_ready (maybe_write s t)

  unfoldable pub write_poll_ready : MuxStreamWrite → ℕ → Transport → MuxStreamWrite × Done
  unfolding flow_empty flow_register
  write_poll_ready s cx t =
      if s.mux_gone
      then (s, ready (some stream_already_closed))
      else if tracks_amount s.info.flow_status && flow_empty s.info
      then (record s { info = flow_register s.info cx }, pending)
      else if not (is_waiting s.chunk)
      then (s, ready none)
      else if s.locked || t.lock_free
      then write_ready (record s { locked = true }) t t.poll_ready
      else (s, pending)

  abbrev pub flush_ready :
      MuxStreamWrite → Transport → Poll (Option WispError) → MuxStreamWrite × Done
  flush_ready s t pending = (s, pending)
  flush_ready s t (ready (some e)) = (record s { locked = false }, ready (some e))
  flush_ready s t (ready none) = flush_written (maybe_write s t) t

  unfoldable pub write_poll_flush : MuxStreamWrite → Transport → MuxStreamWrite × Done
  write_poll_flush s t =
      if s.locked || t.lock_free
      then (if is_waiting s.chunk
          then flush_ready (record s { locked = true }) t t.poll_ready
          else flushed (record s { locked = true }) t.poll_flush)
      else (s, pending)

  unfoldable pub write_poll_close : MuxStreamWrite → Transport → Actor → MuxStreamWrite × Done
  unfolding write_poll_flush
  write_poll_close s t a =
      if s.closing then answered s a.answer else close_flushed (write_poll_flush s t) a

-- `close` of the write half and of `MuxStreamCloser`, up to the answer: `none` as an answer is a
-- dropped channel.
abbrev pub close_answered : Option (Option WispError) → Option WispError
close_answered none = some mux_message_failed_to_recv
close_answered (some r) = r

unfoldable pub write_close :
    MuxStreamWrite
    → CloseReason
    → Bool
    → Option (Option WispError)
    → MuxStreamWrite × Option WispError
write_close s reason accepts answer =
    if s.mux_gone
    then (s, some stream_already_closed)
    else if accepts
    then (record s { events = s.events ++ (reason ∷ []) }, close_answered answer)
    else (s, some mux_message_failed_to_send)
