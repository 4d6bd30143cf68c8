-- ===== src/Mux/Conn.antt =====
-- wisp/src/mux/mod.rs, and `next_erroring` of wisp/src/ws/mod.rs: the transport during the
-- handshake, as state that every step passes on.
use epoxy_tls.Base.{
  Bool, true, false, List, [], ◌∷◌, ◌++◌, Option, none, some, Outcome, ok, err, panic, diverge,
  WispError, ws_impl_socket_closed,
}
use epoxy_tls.Bytes.{Payload}

-- `rx` is what the read half will yield, `answer` what the write half says to a frame and
-- `close_answer` to a close (`none` is `Ok(())`), `sent` the frames that it took. `locked` is the lock that the handshake's handle holds.
pub record Conn : Type 0 where
  pub rx : List (Outcome Payload)
  pub answer : Payload → Option WispError
  pub close_answer : Option WispError
  pub sent : List Payload
  pub locked : Bool
  pub shut : Bool

abbrev pub Run {ℓ} : Type ℓ → Type ℓ
Run A = Conn → Outcome A × Conn

abbrev pub pure {ℓ} : {A : Type ℓ} → A → Run A
pure a c = (ok a, c)

-- The `?` on a result that needs no transport.
abbrev pub lift {ℓ} : {A : Type ℓ} → Outcome A → Run A
lift r c = (r, c)

abbrev pub resume {ℓ κ} :
    {A : Type ℓ} {B : Type κ} → Outcome A × Conn → (A → Run B) → Outcome B × Conn
resume (ok a, c) f = f a c
resume (err e, c) f = (err e, c)
resume (panic, c) f = (panic, c)
resume (diverge, c) f = (diverge, c)

infixl 5 ◌>>=◌
abbrev pub ◌>>=◌ {ℓ κ} : {A : Type ℓ} {B : Type κ} → Run A → (A → Run B) → Run B
◌>>=◌ r f c = resume (r c) f

abbrev take_frame : Conn → List (Outcome Payload) → Outcome Payload × Conn
take_frame c [] = (err ws_impl_socket_closed, c)
take_frame c (r ∷ rs) = (r, record c { rx = rs })

unfoldable pub next_erroring : Run Payload
next_erroring c = take_frame c c.rx

abbrev pub lock : Run (Unit {0})
lock c = (ok tt, record c { locked = true })

abbrev pub unlock : Run (Unit {0})
unlock c = (ok tt, record c { locked = false })

abbrev send_result : Conn → Payload → Option WispError → Outcome (Unit {0}) × Conn
send_result c frame none = (ok tt, record c { sent = c.sent ++ (frame ∷ []) })
send_result c frame (some e) = (err e, c)

-- `tx.get().send(frame).await`
abbrev pub send_frame : Payload → Run (Unit {0})
send_frame frame c = send_result c frame (c.answer frame)

abbrev close_result : Conn → Option WispError → Outcome (Unit {0}) × Conn
close_result c none = (ok tt, record c { shut = true })
close_result c (some e) = (err e, c)

-- `tx.get().close().await`
abbrev pub close_transport : Run (Unit {0})
close_transport c = close_result c c.close_answer
