-- ===== src/Stream/Read.antt =====
-- wisp/src/stream/mod.rs: `MuxStreamRead`.
pub mod Balance
pub mod Schedule
pub mod Drain
use epoxy_tls.Base.{
  ℕ, ◌+◌, ltb, not, if◌then◌else◌, Bool, true, false, ◌&&◌, ◌||◌, List, [], ◌∷◌, ◌++◌, Option, none,
  some, Outcome, ok, err, WispError,
}
use epoxy_tls.Bytes.{Buf, Payload}
use epoxy_tls.Packet.Kinds.{CloseReason}
use epoxy_tls.Packet.Codec.{packet_encode, new_continue}
use epoxy_tls.Sink.Transport.{Poll, ready, pending, Transport}
use epoxy_tls.Stream.Channel.{Channel, Flume}
use epoxy_tls.Stream.Info.{
  StreamInfo, FlowControl, disabled, enabled_track_amount, enabled_send_messages, flow_add,
  get_reason,
}

-- `channel` and `info` are shared with the multiplexor. `locked` is the lock on the transport that
-- this half holds, and `sent` the frames that it has given to the transport.
pub record MuxStreamRead : Type 0 where
  pub channel : Channel
  pub info : StreamInfo
  pub read_cnt : ℕ
  pub chunk : Option Payload
  pub locked : Bool
  pub sent : List Payload

unfoldable pub read_new : Channel → StreamInfo → MuxStreamRead
read_new channel info = record {
  channel = channel;
  info = info;
  read_cnt = 0;
  chunk = none;
  locked = false;
  sent = [];
}

unfoldable pub read_get_close_reason : MuxStreamRead → Option CloseReason
read_get_close_reason s = if s.channel.has_sender then none else some (get_reason s.info)

-- What a poll yields: `some (ok p)` is `Some(Ok(p))`, and `none` the end of the stream.
abbrev pub Item : Type 0
Item = Poll (Option (Outcome Payload))

abbrev pub sends_messages : FlowControl → Bool
sends_messages disabled = false
sends_messages enabled_track_amount = false
sends_messages enabled_send_messages = true

-- The CONTINUE frame and the reset of the count, once the transport is ready. `flow_add` comes
-- before `start_send`, which may fail.
abbrev pub after_update :
    MuxStreamRead → Payload → Payload → Option WispError → MuxStreamRead × Item
after_update s frame chunk none = (
  record s { read_cnt = 0; locked = false; sent = s.sent ++ (frame ∷ []) },
  ready (some (ok chunk)),
)
after_update s frame chunk (some e) = (record s { locked = false }, ready (some (err e)))

-- A chunk is counted when it leaves the channel, and not again when its poll is resumed.
abbrev pub count_chunk : MuxStreamRead → MuxStreamRead
count_chunk s = record s {
  read_cnt = if sends_messages s.info.flow_status then s.read_cnt + 1 else s.read_cnt;
}

module _ ⦃buf : Buf⦄ where
  abbrev pub send_update : MuxStreamRead → Payload → Transport → MuxStreamRead × Item
  send_update s chunk t =
      let (info, amount) = flow_add s.info s.read_cnt in
      let frame = packet_encode (new_continue s.info.id amount) in
      after_update (record s { info = info }) frame chunk (t.start_send frame)

  abbrev pub when_ready :
      MuxStreamRead → Payload → Transport → Poll (Option WispError) → MuxStreamRead × Item
  when_ready s chunk t pending = (record s { chunk = some chunk }, pending)
  when_ready s chunk t (ready (some e)) = (record s { locked = false }, ready (some (err e)))
  when_ready s chunk t (ready none) = send_update s chunk t

  -- The part of `poll_next` behind the count: an update of the peer where one is due.
  unfoldable pub finish_chunk : MuxStreamRead → Payload → Transport → MuxStreamRead × Item
  unfolding flow_add
  finish_chunk s chunk t =
      if sends_messages s.info.flow_status && ltb s.info.target_flow_control s.read_cnt
      then (if s.locked || t.lock_free
          then when_ready (record s { locked = true }) chunk t t.poll_ready
          else (record s { chunk = some chunk }, pending))
      else (s, ready (some (ok chunk)))

  abbrev pub take_new :
      MuxStreamRead → Option (Payload × Channel) → Transport → MuxStreamRead × Item
  take_new s none t = (s, pending)
  take_new s (some (chunk, channel)) t =
      finish_chunk (count_chunk (record s { channel = channel })) chunk t

  module _ ⦃flume : Flume⦄ where
    abbrev pub next_chunk : MuxStreamRead → Option Payload → Transport → MuxStreamRead × Item
    next_chunk s (some chunk) t = finish_chunk (record s { chunk = none }) chunk t
    next_chunk s none t = take_new s (flume.recv s.channel) t

    -- While the sender is there, an empty channel is not at its end.
    unfoldable pub poll_next : MuxStreamRead → Transport → MuxStreamRead × Item
    poll_next s t = if s.channel.has_sender then next_chunk s s.chunk t else (s, ready none)
