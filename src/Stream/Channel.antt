-- ===== src/Stream/Channel.antt =====
-- The calls of the `flume` crate on a channel of payloads, as an interface.
use epoxy_tls.Base.{
  ℕ, ◌≡◌, ◌≢◌, Bool, true, ◌&&◌, List, [], ◌∷◌, ◌++◌, length, ltb, if◌then◌else◌, Option, none,
  some,
}
use epoxy_tls.Bytes.{Payload}

-- What the two ends of a channel share. The queue has its oldest payload first.
pub record Channel : Type 0 where
  pub queue : List Payload
  pub bound : Option ℕ
  pub has_sender : Bool
  pub has_receiver : Bool

abbrev pub unbounded : Channel
unbounded = record { queue = []; bound = none; has_sender = true; has_receiver = true }

abbrev pub bounded : ℕ → Channel
bounded n = record { queue = []; bound = some n; has_sender = true; has_receiver = true }

abbrev pub has_room : Option ℕ → ℕ → Bool
has_room none n = true
has_room (some cap) n = ltb n cap

abbrev pub taken : Channel → List Payload → Option (Payload × Channel)
taken c [] = none
taken c (p ∷ ps) = some (p, record c { queue = ps })

pub record Flume : Type 0 where
  -- `none` is the error that gives the payload back.
  pub try_send : Channel → Payload → Option Channel
  -- A payload is queued unless the channel is full or its receiver is gone. (A bound of 0 makes a
  -- rendezvous channel, of which nothing is assumed.)
  pub try_send_lem :
      (c : Channel) (p : Payload)
      → c.bound ≢ some 0
      → try_send c p ≡ (
          if c.has_receiver && has_room c.bound (length c.queue)
          then some (record c { queue = c.queue ++ (p ∷ []) })
          else none)
  pub try_send_keeps_sender :
      (c c' : Channel) (p : Payload) → try_send c p ≡ some c' → c'.has_sender ≡ c.has_sender
  -- The next payload, if one is queued, and the channel without it.
  pub recv : Channel → Option (Payload × Channel)
  pub recv_lem : (c : Channel) → recv c ≡ taken c c.queue
