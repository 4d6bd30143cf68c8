-- ===== src/Client/Websocket/Calls.antt =====
-- The calls that a page gets from its WebSocket.
use epoxy_tls.Base.{
  ◌≡◌, ◌≢◌, ◌⊎◌, inl, inr, ◌↔◌, refl, ap, arith, Bool, true, false, if◌then◌else◌, List, [], ◌∷◌,
  ◌++◌, map, Option, none, some, codes, All, ◌⊎◌, ◌≢◌,
}
use epoxy_tls.Bytes.{Payload}
use epoxy_tls.Bytes.Utf8.{is_utf8}
use epoxy_tls.Server.Http.{eq_ignore_case}
use epoxy_tls.Client.Errors.{Result, ok, err, ◌>>=◌}
use epoxy_tls.Client.Websocket.{
  OpCode, text, binary, close, control, Frame, Handler, onopen, onclose, onerror, onmessage_text,
  onmessage_binary, Response, unwrap_or_default, verify, read_loop, on_frame, ws_connect, opened,
}

-- A frame that the connection goes on after.
abbrev pub IsOrdinary : Frame → Type 0
IsOrdinary f = elim f.opcode [ text ↦ Unit | binary ↦ Unit | close ↦ ⊥ | control ↦ Unit ]

abbrev message_of : OpCode → Payload → List Handler
message_of text p = if is_utf8 p then onmessage_text p ∷ [] else []
message_of binary p = onmessage_binary p ∷ []
message_of close p = []
message_of control p = []

-- The messages of frames, in their order.
abbrev pub messages : List Frame → List Handler
messages [] = []
messages (f ∷ fs) = message_of f.opcode f.payload ++ messages fs

-- What ends a connection: an error, or a close frame with a payload.
abbrev pub End : Type 0
End = Option Payload

abbrev pub end_read : End → Option Frame
end_read none = none
end_read (some p) = some (record { opcode = close; payload = p })

abbrev pub farewell : End → List Handler
farewell none = onerror ∷ onclose ∷ []
farewell (some p) = onclose ∷ []

-- A response that switches to a WebSocket.
abbrev pub IsUpgrade : Response → Type 0
IsUpgrade r =
    (r.status ≡ 101)
    × (eq_ignore_case (unwrap_or_default r.upgrade) (codes "websocket") ≡ true)
    × (eq_ignore_case (unwrap_or_default r.connection) (codes "Upgrade") ≡ true)

text-case :
    (b : Bool) (m : Handler) (calls ms tail : List Handler)
    → calls ≡ ms ++ tail
    → (if b then m ∷ calls else calls) ≡ ((if b then m ∷ [] else []) ++ ms) ++ tail
text-case true m calls ms tail h = ap (◌∷◌ m) h
text-case false m calls ms tail h = h

on_frame-message_of :
    (o : OpCode) (p : Payload) (calls ms tail : List Handler)
    → IsOrdinary (record { opcode = o; payload = p })
    → calls ≡ ms ++ tail
    → on_frame o p calls ≡ (message_of o p ++ ms) ++ tail
on_frame-message_of text p calls ms tail k h = text-case (is_utf8 p) _ calls ms tail h
on_frame-message_of binary p calls ms tail k h = ap (◌∷◌ (onmessage_binary p)) h
on_frame-message_of close p calls ms tail k h = absurd k
on_frame-message_of control p calls ms tail k h = h

read_loop-ends :
    (fs : List Frame) (e : End) (later : List (Option Frame))
    → All IsOrdinary fs
    → read_loop (map some fs ++ (end_read e ∷ later)) ≡ messages fs ++ farewell e
unfolding read_loop
read_loop-ends [] none later h = refl
read_loop-ends [] (some p) later h = refl
read_loop-ends (f ∷ fs) e later (h, hs) =
    on_frame-message_of f.opcode f.payload _ (messages fs) (farewell e) h
      (read_loop-ends fs e later hs)

verify-IsUpgrade : (r : Response) → (verify r ≡ ok tt) ↔ IsUpgrade r
unfolding verify
verify-IsUpgrade r = ground arith

-- A connection succeeds exactly if the server's response switches to a WebSocket, with the two
-- headers up to case, and the stream is upgraded; else the page gets `onerror` once and nothing more.
-- If it succeeds and then, after ordinary frames, an error or a close frame is read, the page gets
-- `onopen`, the messages in order (texts that are not UTF-8 left out), `onerror` if it was an error,
-- and `onclose`, and nothing more, whatever could be read later.
pub ws_connect-IsUpgrade :
    (r : Response) (upgraded : Result (Unit {0})) (fs : List Frame) (e : End)
    (later : List (Option Frame))
    → All IsOrdinary fs
    → let (result, calls) = ws_connect (ok r) upgraded (map some fs ++ (end_read e ∷ later)) in
      ((result ≡ ok tt) ↔ (IsUpgrade r × (upgraded ≡ ok tt)))
      × ((result ≡ ok tt) × (calls ≡ onopen ∷ (messages fs ++ farewell e))
          ⊎ (result ≢ ok tt) × (calls ≡ onerror ∷ []))
unfolding ws_connect
ws_connect-IsUpgrade r upgraded fs e later h = opens (verify r) upgraded (verify-IsUpgrade r)
  where
    opens :
        (v u : Result (Unit {0}))
        → (v ≡ ok tt) ↔ IsUpgrade r
        → let (result, calls) = opened (map some fs ++ (end_read e ∷ later)) (v >>= λ _. u) in
          ((result ≡ ok tt) ↔ (IsUpgrade r × (u ≡ ok tt)))
          × ((result ≡ ok tt) × (calls ≡ onopen ∷ (messages fs ++ farewell e))
              ⊎ (result ≢ ok tt) × (calls ≡ onerror ∷ []))
    opens (ok t) (ok u) (to, from) = (
      (λ k. (to refl, refl), λ k. refl),
      inl (refl, ap (◌∷◌ onopen) (read_loop-ends fs e later h)),
    )
    opens (ok t) (err x) (to, from) = ((λ k. cc, λ k. cc), inr (λ k. cc, refl))
    opens (err x) u (to, from) = ((λ k. cc, λ k. cc (from k.0)), inr (λ k. cc, refl))
