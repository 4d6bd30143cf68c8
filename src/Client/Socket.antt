-- ===== src/Client/Socket.antt =====
-- client/src/ws_wrapper.rs: the browser's WebSocket as a transport. The browser calls the closures,
-- which share the queue of messages, the flag and the event with the two halves; `flume` channels
-- that are not bounded keep every message, and both ends live as long as the halves.
pub mod Order
use epoxy_tls.Base.{
  ℕ, Bool, true, false, List, [], ◌∷◌, ◌++◌, Option, none, some, WispError, ws_impl_error,
  ws_impl_socket_closed, if◌then◌else◌,
}
use epoxy_tls.Bytes.{Payload}

pub data WebSocketMessage : Type 0 where
  error : WebSocketMessage
  message : Payload → WebSocketMessage

-- The future of the reading function: not made, or waiting with a listener of the close event that
-- was notified or not, or done for good.
pub data Reader : Type 0 where
  idle : Reader
  waiting : Bool → Reader
  over : Option WispError → Reader

-- `attached` is that the closures are set on the WebSocket. `arrived` and `given` are the payloads
-- that the browser brought and that the reader has handed on.
pub record WebSocketWrapper : Type 0 where
  pub queue : List WebSocketMessage
  pub closed : Bool
  pub attached : Bool
  pub reader : Reader
  pub arrived : List Payload
  pub given : List Payload

unfoldable pub socket_connect : WebSocketWrapper
socket_connect = record {
  queue = [];
  closed = false;
  attached = true;
  reader = idle;
  arrived = [];
  given = [];
}

-- `close_event.notify(usize::MAX)`
abbrev pub notified : Reader → Reader
notified idle = idle
notified (waiting b) = waiting true
notified (over e) = over e

abbrev pub with_message : WebSocketWrapper → Option Payload → WebSocketWrapper
with_message s none = s
with_message s (some p) = record s {
  queue = s.queue ++ (message p ∷ []);
  arrived = s.arrived ++ (p ∷ []);
}

-- The closures; one that is detached is not called. A message that is no ArrayBuffer is `none`.
unfoldable pub onmessage : WebSocketWrapper → Option Payload → WebSocketWrapper
onmessage s p = if s.attached then with_message s p else s

unfoldable pub onclose : WebSocketWrapper → WebSocketWrapper
onclose s = if s.attached then record s { closed = true; reader = notified s.reader } else s

unfoldable pub onerror : WebSocketWrapper → WebSocketWrapper
onerror s =
    if s.attached
    then record s { queue = s.queue ++ (error ∷ []); closed = true; reader = notified s.reader }
    else s

-- The closing function of the write half, up to `ws.close()`.
unfoldable pub write_closed : WebSocketWrapper → WebSocketWrapper
write_closed s = record s { attached = false; closed = true; reader = notified s.reader }

abbrev pub received : WebSocketWrapper → WebSocketMessage → WebSocketWrapper
received s error = record s { reader = over (some ws_impl_error) }
received s (message p) = record s { reader = idle; given = s.given ++ (p ∷ []) }

-- `select!` of the next message and the close event: where both are ready it takes either.
abbrev pub select_read : WebSocketWrapper → List WebSocketMessage → Bool → Bool → WebSocketWrapper
select_read s [] false choice = record s { reader = waiting false }
select_read s [] true choice = record s { reader = over none }
select_read s (m ∷ queue) false choice = received (record s { queue = queue }) m
select_read s (m ∷ queue) true choice =
    if choice then received (record s { queue = queue }) m else record s { reader = over none }

abbrev pub read_from : WebSocketWrapper → Reader → Bool → WebSocketWrapper
read_from s idle choice =
    if s.closed
    then record s { reader = over (some ws_impl_socket_closed) }
    else select_read s s.queue false choice
read_from s (waiting b) choice = select_read s s.queue b choice
read_from s (over e) choice = s

-- A poll of the reading half.
unfoldable pub socket_poll_read : WebSocketWrapper → Bool → WebSocketWrapper
socket_poll_read s choice = read_from s s.reader choice

-- `wait_for_open`, where the open event comes or the error event does.
unfoldable pub wait_for_open : WebSocketWrapper → Bool → Bool
wait_for_open s opened = if s.closed then false else opened
