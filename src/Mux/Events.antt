-- ===== src/Mux/Events.antt =====
-- wisp/src/mux/inner.rs: the loop of `MuxInner` over its events, from the transport and from the
-- users, in the order in which `unfair_select` gives them.
use epoxy_tls.Base.{
  ℕ, true, false, List, [], ◌∷◌, ◌++◌, lookup, remove, Option, none, some, Outcome, ok, err, panic,
  diverge, WispError, invalid_stream_id,
}
use epoxy_tls.Bytes.{Buf, Payload}
use epoxy_tls.Packet.Kinds.{CloseReason, unknown}
use epoxy_tls.Packet.Codec.{
  ConnectPacket, ClosePacket, connect, close, Packet, packet_encode, new_close,
}
use epoxy_tls.Stream.Channel.{Flume}
use epoxy_tls.Mux.State.{Mux, Reply, created, closed, create_stream, close_stream}
use epoxy_tls.Mux.Handlers.{Handled, handle_packet}

pub data WsEvent : Type 0 where
  close_event : ℕ → ClosePacket → WsEvent
  create_event : ConnectPacket → WsEvent
  wisp_message : Packet → WsEvent
  end_fut : Option CloseReason → WsEvent

-- An item of the event stream: an event, with what the transport answers if it is given a frame
-- for it (`none` is `Ok(())`), or the error of a read.
pub data Input : Type 0 where
  event : WsEvent → Option WispError → Input
  read_failed : WispError → Input

-- A frame that the transport took.
abbrev pub send : Mux → Payload → Option WispError → Mux
send m frame none = record m { sent = m.sent ++ (frame ∷ []) }
send m frame (some e) = m

abbrev pub reply : Mux → Reply → Mux
reply m r = record m { replies = m.replies ++ (r ∷ []) }

module _ ⦃buf : Buf⦄ where
  -- A failed send returns before the unlock.
  abbrev pub announce_stream : Mux → ℕ → Payload → Option WispError → Mux
  announce_stream m h frame none =
      reply (record (send m frame none) { locked = false }) (created (ok h))
  announce_stream m h frame (some e) = reply (record m { locked = true }) (created (err e))

  abbrev pub send_connect : ConnectPacket → Option WispError → Mux × Outcome (ℕ × ℕ) → Mux
  send_connect pkt answer (m, ok (h, id)) =
      announce_stream m h (packet_encode (record { stream_id = id; packet_type = connect pkt }))
        answer
  send_connect pkt answer (m, err e) = reply m (created (err e))
  send_connect pkt answer (m, panic) = reply m (created panic)
  send_connect pkt answer (m, diverge) = reply m (created diverge)

  abbrev pub send_close : Mux → ℕ → ClosePacket → Option WispError → Option ℕ → Mux
  send_close m id c answer none = reply m (closed (some (invalid_stream_id id)))
  send_close m id c answer (some h) =
      let m' = close_stream (record m { streams = remove id m.streams }) h c.reason in
      let frame = packet_encode (record { stream_id = id; packet_type = close c }) in
      reply (record (send m' frame answer) { locked = false }) (closed answer)

  abbrev pub send_end : Mux → Option WispError → Option CloseReason → Mux
  send_end m answer none = m
  send_end m answer (some reason) = record (send m (packet_encode (new_close 0 reason)) answer) {
    locked = false;
  }

  module _ ⦃flume : Flume⦄ where
    unfoldable pub handle_event : Mux → WsEvent → Option WispError → Handled
    handle_event m (create_event pkt) answer =
        (send_connect pkt answer (create_stream m pkt.stream_type), ok false)
    handle_event m (close_event id c) answer =
        (send_close m id c answer (lookup id m.streams), ok false)
    handle_event m (end_fut reason) answer = (send_end m answer reason, ok true)
    handle_event m (wisp_message packet) answer = handle_packet m packet

    -- The loop goes on after `ok false`.
    abbrev pub continue_run : Handled → (Mux → Mux × Outcome (Unit {0})) → Mux × Outcome (Unit {0})
    continue_run (m, ok false) more = more m
    continue_run (m, ok true) more = (m, ok tt)
    continue_run (m, err e) more = (m, err e)
    continue_run (m, panic) more = (m, panic)
    continue_run (m, diverge) more = (m, diverge)

    -- The end of the list is the end of the event stream.
    unfoldable pub run : Mux → List Input → Mux × Outcome (Unit {0})
    run m [] = (m, ok tt)
    run m (read_failed e ∷ inputs) = (m, err e)
    run m (event e answer ∷ inputs) = continue_run (handle_event m e answer) (λ m'. run m' inputs)

    -- The packet that a downgraded handshake has read comes first.
    unfoldable pub entry : Mux → Option Packet → List Input → Mux × Outcome (Unit {0})
    entry m none inputs = run m inputs
    entry m (some packet) inputs = continue_run (handle_packet m packet) (λ m'. run m' inputs)

    -- `self.streams.drain()`: every entry is closed, and none is left.
    unfoldable pub close_all : Mux → List (ℕ × ℕ) → Mux
    close_all m [] = record m { streams = [] }
    close_all m ((id, h) ∷ entries) = close_all (close_stream m h unknown) entries

    abbrev pub shut : Mux × Outcome (Unit {0}) → Mux × Outcome (Unit {0})
    shut (m, result) =
        (record (close_all m m.streams) { locked = false; transport_closed = true }, result)

    -- The future of the multiplexor, which ignores the transport's answer to the close.
    unfoldable pub into_future : Mux → Option Packet → List Input → Mux × Outcome (Unit {0})
    into_future m downgrade inputs = shut (entry m downgrade inputs)
