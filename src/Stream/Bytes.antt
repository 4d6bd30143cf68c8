-- ===== src/Stream/Bytes.antt =====
-- wisp/src/stream/compat.rs: `MuxStreamAsyncWrite`, the write half of a stream for bytes. The reading
-- adapter is that of the `futures` crate over `MuxStreamRead`.
pub mod Frames
use epoxy_tls.Base.{
  ℕ, ◌||◌, if◌then◌else◌, Bool, true, false, List, [], ◌∷◌, ◌++◌, length, Option, none, some, ◌⊎◌,
  inl, inr, WispError, mux_message_failed_to_send,
}
use epoxy_tls.Bytes.{Buf, Payload}
use epoxy_tls.Packet.Kinds.{CloseReason, unknown}
use epoxy_tls.Packet.Codec.{packet_encode, new_data}
use epoxy_tls.Sink.Transport.{Poll, ready, pending, Transport}
use epoxy_tls.Stream.Info.{StreamInfo, get_reason}
use epoxy_tls.Stream.Write.{MuxStreamWrite, Done, Actor}

-- As `MuxStreamWrite`, without its pending chunk. An `io::Error` is the error inside it.
pub record MuxStreamAsyncWrite : Type 0 where
  pub info : StreamInfo
  pub mux_gone : Bool
  pub locked : Bool
  pub sent : List Payload
  pub closing : Bool
  pub events : List CloseReason

-- A chunk that waits in the write half is dropped.
unfoldable pub async_write_new : MuxStreamWrite → MuxStreamAsyncWrite
async_write_new w = record {
  info = w.info;
  mux_gone = w.mux_gone;
  locked = w.locked;
  sent = w.sent;
  closing = false;
  events = w.events;
}

unfoldable pub async_get_close_reason : MuxStreamAsyncWrite → Option CloseReason
async_get_close_reason s = if s.mux_gone then some (get_reason s.info) else none

-- The number of bytes that a write took.
abbrev pub Wrote : Type 0
Wrote = Poll (WispError ⊎ ℕ)

-- The errors of the transport return before the unlock.
abbrev pub write_started :
    MuxStreamAsyncWrite → Payload → Payload → Option WispError → MuxStreamAsyncWrite × Wrote
write_started s buffer frame (some e) = (s, ready (inl e))
write_started s buffer frame none =
    (record s { locked = false; sent = s.sent ++ (frame ∷ []) }, ready (inr (length buffer)))

abbrev pub async_flushed : MuxStreamAsyncWrite → Done → MuxStreamAsyncWrite × Done
async_flushed s pending = (s, pending)
async_flushed s (ready (some e)) = (s, ready (some e))
async_flushed s (ready none) = (record s { locked = false }, ready none)

unfoldable pub async_poll_flush : MuxStreamAsyncWrite → Transport → MuxStreamAsyncWrite × Done
async_poll_flush s t =
    if s.locked || t.lock_free
    then async_flushed (record s { locked = true }) t.poll_flush
    else (s, pending)

abbrev pub close_answered :
    MuxStreamAsyncWrite → Poll (Option (Option WispError)) → MuxStreamAsyncWrite × Done
close_answered s pending = (s, pending)
close_answered s (ready none) =
    (record s { closing = false }, ready (some mux_message_failed_to_send))
close_answered s (ready (some r)) = (record s { closing = false }, ready r)

abbrev pub close_requested : MuxStreamAsyncWrite → Actor → Poll Bool → MuxStreamAsyncWrite × Done
close_requested s a pending = (s, pending)
close_requested s a (ready false) = (s, ready (some mux_message_failed_to_send))
close_requested s a (ready true) =
    if a.accepts
    then (record s { closing = true; events = s.events ++ (unknown ∷ []) }, pending)
    else (record s { closing = true }, ready (some mux_message_failed_to_send))

abbrev pub close_after_flush : MuxStreamAsyncWrite × Done → Actor → MuxStreamAsyncWrite × Done
close_after_flush (s, ready none) a = close_requested s a a.poll_ready
close_after_flush (s, r) a = (s, r)

unfoldable pub async_poll_close :
    MuxStreamAsyncWrite → Transport → Actor → MuxStreamAsyncWrite × Done
unfolding async_poll_flush
async_poll_close s t a =
    if s.closing then close_answered s a.answer else close_after_flush (async_poll_flush s t) a

module _ ⦃buf : Buf⦄ where
  abbrev pub write_ready :
      MuxStreamAsyncWrite → Payload → Transport → Done → MuxStreamAsyncWrite × Wrote
  write_ready s buffer t pending = (s, pending)
  write_ready s buffer t (ready (some e)) = (s, ready (inl e))
  write_ready s buffer t (ready none) =
      let frame = packet_encode (new_data s.info.id buffer) in
      write_started s buffer frame (t.start_send frame)

  unfoldable pub async_poll_write :
      MuxStreamAsyncWrite → Payload → Transport → MuxStreamAsyncWrite × Wrote
  async_poll_write s buffer t =
      if s.locked || t.lock_free
      then write_ready (record s { locked = true }) buffer t t.poll_ready
      else (s, pending)
