-- ===== src/Client/Websocket.antt =====
-- client/src/websocket.rs: a WebSocket over a stream of the multiplexor. The page's functions are
-- called in the order of a list; the `fastwebsockets` crate gives the frames, whose fragments it has
-- joined, and the answer to a frame that is written.
pub mod Calls
use epoxy_tls.Base.{
  ℕ, ◌==◌, not, Bool, true, false, if◌then◌else◌, List, [], ◌∷◌, ◌++◌, Option, none, some, codes,
}
use epoxy_tls.Bytes.{Payload}
use epoxy_tls.Bytes.Utf8.{Text, is_utf8}
use epoxy_tls.Server.Http.{eq_ignore_case}
use epoxy_tls.Client.Errors.{
  EpoxyError, Result, ok, err, ◌>>=◌, ws_invalid_status_code, ws_invalid_upgrade_header,
  ws_invalid_connection_header, ws_invalid_payload, fast_web_sockets,
}

-- `control` are pings, pongs and continuations.
pub data OpCode : Type 0 where
  text binary close control : OpCode

pub record Frame : Type 0 where
  pub opcode : OpCode
  pub payload : Payload

-- A call of one of the page's functions.
pub data Handler : Type 0 where
  onopen onclose onerror : Handler
  onmessage_text : Text → Handler
  onmessage_binary : Payload → Handler

-- A response, with the first values of the two headers that `to_str` gives.
pub record Response : Type 0 where
  pub status : ℕ
  pub upgrade : Option Text
  pub connection : Option Text

abbrev pub unwrap_or_default : Option Text → Text
unwrap_or_default none = []
unwrap_or_default (some t) = t

unfoldable pub verify : Response → Result (Unit {0})
verify r =
    let upgrade_header = unwrap_or_default r.upgrade in
    let connection_header = unwrap_or_default r.connection in
    if not (r.status == 101)
    then err (ws_invalid_status_code r.status 101)
    else if not (eq_ignore_case upgrade_header (codes "websocket"))
    then err (ws_invalid_upgrade_header upgrade_header)
    else if not (eq_ignore_case connection_header (codes "Upgrade"))
    then err (ws_invalid_connection_header connection_header)
    else ok tt

-- What a frame does before the calls of the later rounds.
abbrev pub on_frame : OpCode → Payload → List Handler → List Handler
on_frame text p later = if is_utf8 p then onmessage_text p ∷ later else later
on_frame binary p later = onmessage_binary p ∷ later
on_frame close p later = onclose ∷ []
on_frame control p later = later

-- The reading task, over what `read_frame` gives; `none` is an error. It waits at the list's end.
unfoldable pub read_loop : List (Option Frame) → List Handler
read_loop [] = []
read_loop (none ∷ reads) = onerror ∷ onclose ∷ []
read_loop (some f ∷ reads) = on_frame f.opcode f.payload (read_loop reads)

-- A task that is spawned runs after the caller, so after `onopen`.
abbrev pub opened : List (Option Frame) → Result (Unit {0}) → Result (Unit {0}) × List Handler
opened reads (ok u) = (ok tt, onopen ∷ read_loop reads)
opened reads (err e) = (err e, onerror ∷ [])

-- `connect`, from the response or the error before it, and the upgraded stream.
unfoldable pub ws_connect :
    Result Response → Result (Unit {0}) → List (Option Frame) → Result (Unit {0}) × List Handler
unfolding verify read_loop
ws_connect response upgraded reads = opened reads (response >>= λ r. verify r >>= λ _. upgraded)

-- What the script gives to `send`.
pub data Input : Type 0 where
  as_string : Text → Input
  array_buffer : Payload → Input
  unknown_input : Input

-- The result and the calls; `write` answers to a frame.
abbrev pub written : Option EpoxyError → Result (Unit {0}) × List Handler
written none = (ok tt, [])
written (some e) = (err e, onerror ∷ [])

abbrev pub frame_of : Input → Option Frame
frame_of (as_string t) = some (record { opcode = text; payload = t })
frame_of (array_buffer p) = some (record { opcode = binary; payload = p })
frame_of unknown_input = none

abbrev pub write_answer : (Frame → Option EpoxyError) → Option Frame → Option EpoxyError
write_answer write none = some ws_invalid_payload
write_answer write (some f) = write f

unfoldable pub ws_send : (Frame → Option EpoxyError) → Input → Result (Unit {0}) × List Handler
ws_send write input = written (write_answer write (frame_of input))

-- `write` answers to the close frame, which has a code and a reason.
unfoldable pub ws_close :
    (ℕ → Text → Option EpoxyError) → ℕ → Text → Result (Unit {0}) × List Handler
ws_close write code reason = written (write code reason)
